-- ===== src/Music/Held.antt =====
-- The buffers that the queue of the music id client holds.
use rdk_audiocapturemgr.Prelude.{
  ℕ, ◌+◌, ◌-◌, ◌^◌, ◌<◌, ◌≡◌, inl, inr, refl, List, [], ◌∷◌, none, some, true, false, ok, arith,
  ltb, Bool-cases, ==_iff, Option-cases, ◌==◌,
}
use rdk_audiocapturemgr.Buffer.{load, Buffer, Heap, update}
use rdk_audiocapturemgr.Buffer.Refs.{refs, unref_last, unref_more}
pub use rdk_audiocapturemgr.Buffer.Refs.{size_of}
use rdk_audiocapturemgr.QMgr.Clients.{mem}
use rdk_audiocapturemgr.QMgr.BaseClient.{release_buffer}
use rdk_audiocapturemgr.Music.{MusicIdClient}

abbrev pub total_of : Heap → List ℕ → ℕ
total_of h [] = 0
total_of h (p ∷ ps) = size_of (h.cell p) + total_of h ps

abbrev pub front_size : Heap → List ℕ → ℕ
front_size h [] = 0
front_size h (p ∷ ps) = size_of (h.cell p)

-- Distinct buffers, a reference to each of which is held.
abbrev pub Holds : Heap → List ℕ → Type 0
Holds h [] = Unit {0}
Holds h (p ∷ ps) = (mem p ps ≡ false) × (0 < refs h p) × (refs h p < 2 ^ 32) × Holds h ps

-- The queue's bytes are counted, in a number below 2 ^ 31.
pub record IsValid (h : Heap) (m : MusicIdClient) : Type 0 where
  pub holds : Holds h m.queue
  pub counted : m.total_size ≡ total_of h m.queue
  pub small : m.total_size < 2 ^ 31

pub release_buffer-others :
    (p : ℕ) (h : Heap)
    → 0 < refs h p
    → refs h p < 2 ^ 32
    → (b : Buffer) × (h' : Heap) × (h.cell p ≡ some b)
      × (release_buffer p h ≡ ok h')
      × ((q : ℕ) → (p == q) ≡ false → h'.cell q ≡ h.cell q)
unfolding release_buffer
release_buffer-others p h held fits = elim (Option-cases (h.cell p)) [
  | inl gone ↦ absurd (ground arith)
  | inr (b, e) ↦ elim (Bool-cases (ltb 1 b.refcount)) [
    | inl more ↦ (
      b,
      record h { cell = update h.cell p (some (record b { refcount = b.refcount - 1 })) },
      e,
      unref_more p h b e (ground arith) (ground arith),
      λ q ne. ground arith,
    )
    | inr last ↦ (
      b,
      record h { cell = update h.cell p none },
      e,
      unref_last p h b e (ground arith),
      λ q ne. ground arith,
    )
  ]
]

pub kept-Holds :
    (h h' : Heap) (ps : List ℕ)
    → ((q : ℕ) → mem q ps ≡ true → h'.cell q ≡ h.cell q)
    → Holds h ps
    → Holds h' ps × (total_of h' ps ≡ total_of h ps)
kept-Holds h h' [] same holds = (tt, refl)
kept-Holds h h' (p ∷ ps) same (new, held, fits, holds) =
    let here : h'.cell p ≡ h.cell p = same p (ground (arith, ==_iff p p)) in
    let (there, sum) = kept-Holds h h' ps (λ q m. same q (ground arith)) holds in
    ((new, rw here held, rw here fits, there), rw (here, sum))

pub load-some : (p : ℕ) (h : Heap) (b : Buffer) → h.cell p ≡ some b → load p h ≡ ok b
unfolding load
load-some p h b e = ground arith
