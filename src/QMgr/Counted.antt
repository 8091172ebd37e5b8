-- ===== src/QMgr/Counted.antt =====
-- src/audio_capture_manager.cpp: the reference counts that `update_buffer_references` sets.
use rdk_audiocapturemgr.Prelude.{
  ℕ, ◌≡◌, refl, ap, ◌∙◌, some, List, [], ◌∷◌, true, false, ok, ◌==◌, arith, Option-cases,
  Bool-cases, inl, inr, ==_iff,
}
use rdk_audiocapturemgr.Buffer.{Buffer, Heap, set_ref_audio_buffer, update}
use rdk_audiocapturemgr.Buffer.Refs.{refs, size_of}
use rdk_audiocapturemgr.QMgr.Clients.{mem}
use rdk_audiocapturemgr.QMgr.Registry.{AllDistinct}
use rdk_audiocapturemgr.QMgr.Flush.{is_live, AllLive, AllLive-update}
use rdk_audiocapturemgr.QMgr.Delivery.{update_buffer_references}

-- All buffers of the list have the count n, and nothing else about the heap has changed.
pub record Counted (n : ℕ) (ps : List ℕ) (h h' : Heap) : Type 0 where
  pub counted : (p : ℕ) → mem p ps ≡ true → refs h' p ≡ n
  pub live : (p : ℕ) → mem p ps ≡ true → is_live (h'.cell p) ≡ true
  pub kept : (p : ℕ) → mem p ps ≡ false → h'.cell p ≡ h.cell p
  pub sizes : (p : ℕ) → size_of (h'.cell p) ≡ size_of (h.cell p)
  pub next_kept : h'.next ≡ h.next

set_ref_live :
    (p n : ℕ) (h : Heap)
    → is_live (h.cell p) ≡ true
    → (b : Buffer) × (set_ref_audio_buffer p n h
        ≡ ok (record h { cell = update h.cell p (some b) }))
      × (b.refcount ≡ n)
      × (b.size ≡ size_of (h.cell p))
unfolding set_ref_audio_buffer
set_ref_live p n h l = elim (Option-cases (h.cell p)) [
  | inl e ↦ ground arith
  | inr (b, e) ↦ (record b { refcount = n }, ground arith, refl, ground (arith, e))
]

updated_size :
    (x p : ℕ) (h : Heap) (b : Buffer)
    → b.size ≡ size_of (h.cell x)
    → size_of (update h.cell x (some b) p) ≡ size_of (h.cell p)
updated_size x p h b same = elim (Bool-cases (x == p)) [
  | inl here ↦
      let e : x ≡ p = (==_iff x p).0 here in rw here (same ∙ ap (λ y. size_of (h.cell y)) e)
  | inr away ↦ rw away refl
]

pub update_buffer_references-Counted :
    (n : ℕ) (ps : List ℕ) (h : Heap)
    → AllDistinct ps
    → AllLive h ps
    → (h' : Heap) × (update_buffer_references ps n h ≡ ok h') × Counted n ps h h'
unfolding update_buffer_references
update_buffer_references-Counted n [] h d l = (
  h,
  refl,
  record {
    counted = λ p m. cc;
    live = λ p m. cc;
    kept = λ p m. refl;
    sizes = λ p. refl;
    next_kept = refl;
  },
)
update_buffer_references-Counted n (x ∷ ps) h d l =
    let (b, set, count, same_size) = set_ref_live x n h l.0 in
    let h₁ : Heap = record h { cell = update h.cell x (some b) } in
    let (h', done, c) =
      update_buffer_references-Counted n ps h₁ d.1 (AllLive-update h x (some b) ps d.0 l.1) in
    (
      h',
      rw set done,
      record {
        counted = λ p m. elim (Bool-cases (mem p ps)) [
          | inl later ↦ c.counted p later
          | inr now ↦ ground (arith, c.kept p now)
        ];
        live = λ p m. elim (Bool-cases (mem p ps)) [
          | inl later ↦ c.live p later
          | inr now ↦ ground (arith, c.kept p now)
        ];
        kept = λ p m. ground (arith, c.kept p);
        sizes = λ p. c.sizes p ∙ updated_size x p h b same_size;
        next_kept = c.next_kept;
      },
    )
