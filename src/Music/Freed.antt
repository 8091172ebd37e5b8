-- ===== src/Music/Freed.antt =====
-- src/music_id.cpp: buffers with one reference, and a heap from which they are deleted.
use rdk_audiocapturemgr.Prelude.{
  ℕ, ◌+◌, ◌-◌, ◌⊎◌, ◌^◌, ◌≡◌, refl, none, some, List, [], ◌∷◌, ◌++◌, true, false, ok, arith,
  Bool-cases, inl, inr, ==_iff, Option-cases, sym,
}
use rdk_audiocapturemgr.Prelude.Int.{ℤ, pos, ltb_ℤ, ◌-ℤ◌}
use rdk_audiocapturemgr.Audio.{u32}
use rdk_audiocapturemgr.Buffer.{Buffer, Heap, update}
use rdk_audiocapturemgr.Buffer.Refs.{refs, unref_last}
use rdk_audiocapturemgr.QMgr.Clients.{mem}
use rdk_audiocapturemgr.QMgr.BaseClient.{release_buffer}
use rdk_audiocapturemgr.Music.{trim_loop}
use rdk_audiocapturemgr.Music.Held.{Holds, load-some}
use rdk_audiocapturemgr.Music.Ending.{release_all}

abbrev pub AllSole : Heap → List ℕ → Type 0
AllSole h [] = Unit {0}
AllSole h (p ∷ ps) = (mem p ps ≡ false) × (refs h p ≡ 1) × AllSole h ps

pub AllSole-mem : (h : Heap) (ps : List ℕ) (p : ℕ) → AllSole h ps → mem p ps ≡ true → refs h p ≡ 1
AllSole-mem h [] p sole m = cc
AllSole-mem h (x ∷ ps) p (new, one, sole) m = ground (arith, AllSole-mem h ps p sole, ==_iff p x)

AllSole-Holds : (h : Heap) (ps : List ℕ) → AllSole h ps → Holds h ps
AllSole-Holds h [] sole = tt
AllSole-Holds h (p ∷ ps) (new, one, sole) =
    (new, omega (arith, one), omega (arith, one), AllSole-Holds h ps sole)

pub AllSole-kept :
    (h h' : Heap) (ps : List ℕ)
    → ((p : ℕ) → mem p ps ≡ true → h'.cell p ≡ h.cell p)
    → AllSole h ps
    → AllSole h' ps
AllSole-kept h h' [] same sole = tt
AllSole-kept h h' (x ∷ ps) same (new, one, sole) =
    let here : h'.cell x ≡ h.cell x = same x (ground (arith, ==_iff x x)) in
    (new, rw here one, AllSole-kept h h' ps (λ p m. same p (ground arith)) sole)

-- Giving up the only reference deletes the buffer.
release_sole :
    (p : ℕ) (h : Heap)
    → refs h p ≡ 1
    → (b : Buffer) × (h.cell p ≡ some b)
      × (release_buffer p h ≡ ok (record h { cell = update h.cell p none }))
unfolding release_buffer
release_sole p h one = elim (Option-cases (h.cell p)) [
  | inl gone ↦ absurd (ground arith)
  | inr (b, e) ↦ (b, e, unref_last p h b e (ground arith))
]

-- A heap from which the buffers of a list are deleted, and no others.
pub record Freed (ps : List ℕ) (h h' : Heap) : Type 0 where
  pub gone : (p : ℕ) → mem p ps ≡ true → h'.cell p ≡ none
  pub kept : (p : ℕ) → mem p ps ≡ false → h'.cell p ≡ h.cell p
  pub next_kept : h'.next ≡ h.next

Freed-cons :
    (x : ℕ) (ps : List ℕ) (h h' : Heap)
    → Freed ps (record h { cell = update h.cell x none }) h'
    → Freed (x ∷ ps) h h'
Freed-cons x ps h h' f = record {
  gone = λ p m. elim (Bool-cases (mem p ps)) [
    | inl later ↦ f.gone p later
    | inr now ↦ ground (arith, f.kept p now, ==_iff p x, ==_iff x p)
  ];
  kept = λ p m. ground (arith, f.kept p, ==_iff p x, ==_iff x p);
  next_kept = f.next_kept;
}

-- The destructor deletes exactly the buffers of the queue.
pub release_all-Freed :
    (ps : List ℕ) (h : Heap)
    → AllSole h ps
    → (h' : Heap) × (release_all ps h ≡ ok h') × Freed ps h h'
unfolding release_all
release_all-Freed [] h sole =
    (h, refl, record { gone = λ p m. cc; kept = λ p m. refl; next_kept = refl })
release_all-Freed (x ∷ ps) h (new, one, sole) =
    let (b, here, released) = release_sole x h one in
    let h₁ : Heap = record h { cell = update h.cell x none } in
    let same : (p : ℕ) → mem p ps ≡ true → h₁.cell p ≡ h.cell p =
      λ p m. ground (arith, new, ==_iff x p) in
    let (h', runs, f) = release_all-Freed ps h₁ (AllSole-kept h h₁ ps same sole) in
    (h', rw (released, runs) refl, Freed-cons x ps h h' f)

trim_loop-nil :
    (excess : ℤ) (total : ℕ) (h : Heap) (rest : List ℕ) (left : ℕ) (h' : Heap)
    → trim_loop [] excess total h ≡ ok (rest, left, h')
    → trim_loop [] excess total h ≡ ok ([], total, h)
unfolding trim_loop
trim_loop-nil excess total h rest left h' e = elim (Bool-cases (ltb_ℤ (pos 0) excess)) [
  | inl over ↦ absurd (ground (arith, over, e))
  | inr within ↦ rw within refl
]

trim_loop-stays :
    (ps : List ℕ) (excess : ℤ) (total : ℕ) (h : Heap) (rest : List ℕ) (left : ℕ) (h' : Heap)
    → trim_loop ps excess total h ≡ ok (ps, total, h)
    → trim_loop ps excess total h ≡ ok (rest, left, h')
    → (dropped : List ℕ) × (ps ≡ dropped ++ rest) × Freed dropped h h'
trim_loop-stays ps excess total h rest left h' stops e = (
  [],
  ground (arith, stops, e),
  record {
    gone = λ p m. cc;
    kept = λ p m. ground (arith, stops, e);
    next_kept = ground (arith, stops, e);
  },
)

trim_loop-step :
    (x : ℕ) (ps : List ℕ) (excess : ℤ) (total : ℕ) (h h₁ : Heap) (b : Buffer)
    → h.cell x ≡ some b
    → release_buffer x h ≡ ok h₁
    → (trim_loop (x ∷ ps) excess total h ≡ ok (x ∷ ps, total, h))
      ⊎ (trim_loop (x ∷ ps) excess total h
          ≡ trim_loop ps (excess -ℤ pos b.size) (u32 (total + 2 ^ 32 - b.size)) h₁)
unfolding trim_loop
trim_loop-step x ps excess total h h₁ b here released =
    let loads = load-some x h b here in
    elim (Bool-cases (ltb_ℤ (pos 0) excess)) [
      | inr within ↦ inl (rw within refl)
      | inl over ↦ elim (Bool-cases (ltb_ℤ excess (pos b.size))) [
        | inl less ↦ inl (rw (over, loads, less) refl)
        | inr more ↦ inr (rw (over, loads, more, released) refl)
      ]
    ]

-- What is left of the queue is its end, and the buffers before it are deleted.
pub trim_loop-Freed :
    (ps : List ℕ) (excess : ℤ) (total : ℕ) (h : Heap) (rest : List ℕ) (left : ℕ) (h' : Heap)
    → AllSole h ps
    → trim_loop ps excess total h ≡ ok (rest, left, h')
    → (dropped : List ℕ) × (ps ≡ dropped ++ rest) × Freed dropped h h'
trim_loop-Freed [] excess total h rest left h' sole e =
    trim_loop-stays [] excess total h rest left h' (trim_loop-nil excess total h rest left h' e) e
trim_loop-Freed (x ∷ ps) excess total h rest left h' (new, one, sole) e =
    let (b, here, released) = release_sole x h one in
    let h₁ : Heap = record h { cell = update h.cell x none } in
    let same : (p : ℕ) → mem p ps ≡ true → h₁.cell p ≡ h.cell p =
      λ p m. ground (arith, new, ==_iff x p) in
    elim (trim_loop-step x ps excess total h h₁ b here released) [
      | inl stops ↦ trim_loop-stays (x ∷ ps) excess total h rest left h' stops e
      | inr goes ↦
          let (dropped, split, freed) =
            trim_loop-Freed ps (excess -ℤ pos b.size) (u32 (total + 2 ^ 32 - b.size)) h₁ rest left
              h' (AllSole-kept h h₁ ps same sole) (rw goes at e) in
          (x ∷ dropped, rw (sym split) refl, Freed-cons x dropped h h' freed)
    ]
