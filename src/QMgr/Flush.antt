-- ===== src/QMgr/Flush.antt =====
-- Lists of distinct live buffers, and `flush_queue` on them.
use rdk_audiocapturemgr.Prelude.{
  ℕ, ◌≡◌, refl, Option, none, some, List, [], ◌∷◌, ◌++◌, Bool, true, false, ok, ◌||◌, arith,
  Bool-cases, inl, inr, ==_iff, ◌↔◌,
}
use rdk_audiocapturemgr.Buffer.{Buffer, Heap, free_audio_buffer, update}
use rdk_audiocapturemgr.QMgr.{flush_queue}
use rdk_audiocapturemgr.QMgr.Clients.{mem}
use rdk_audiocapturemgr.QMgr.Registry.{AllDistinct}

-- A live buffer is one that was not deleted.
abbrev pub is_live : Option Buffer → Bool
is_live none = false
is_live (some b) = true

abbrev pub AllLive : Heap → List ℕ → Type 0
AllLive h [] = Unit {0}
AllLive h (p ∷ ps) = (is_live (h.cell p) ≡ true) × AllLive h ps

pub mem-concat : (p : ℕ) (xs ys : List ℕ) → mem p (xs ++ ys) ≡ (mem p xs || mem p ys)
mem-concat p [] ys = refl
mem-concat p (x ∷ xs) ys = ground (arith, mem-concat p xs ys)

pub AllDistinct-left : (xs ys : List ℕ) → AllDistinct (xs ++ ys) → AllDistinct xs
AllDistinct-left [] ys d = tt
AllDistinct-left (x ∷ xs) ys d = (ground (arith, mem-concat x xs ys), AllDistinct-left xs ys d.1)

pub AllDistinct-right : (xs ys : List ℕ) → AllDistinct (xs ++ ys) → AllDistinct ys
AllDistinct-right [] ys d = d
AllDistinct-right (x ∷ xs) ys d = AllDistinct-right xs ys d.1

pub AllDistinct-disjoint :
    (xs ys : List ℕ) (p : ℕ) → AllDistinct (xs ++ ys) → mem p xs ≡ true → mem p ys ≡ false
AllDistinct-disjoint [] ys p d m = cc
AllDistinct-disjoint (x ∷ xs) ys p d m =
    ground (arith, mem-concat x xs ys, AllDistinct-disjoint xs ys p d.1, ==_iff p x)

pub AllLive-concat :
    (h : Heap) (xs ys : List ℕ) → AllLive h (xs ++ ys) ↔ (AllLive h xs × AllLive h ys)
AllLive-concat h [] ys = ((λ l. (tt, l)), (λ l. l.1))
AllLive-concat h (x ∷ xs) ys =
    let (there, back) = AllLive-concat h xs ys in
    ((λ l. ((l.0, (there l.1).0), (there l.1).1)), (λ l. (l.0.0, back (l.0.1, l.1))))

pub AllLive-mem :
    (h : Heap) (ps : List ℕ) (p : ℕ) → AllLive h ps → mem p ps ≡ true → is_live (h.cell p) ≡ true
AllLive-mem h [] p l m = cc
AllLive-mem h (x ∷ ps) p l m = ground (arith, AllLive-mem h ps p l.1, ==_iff p x)

pub AllLive-kept :
    (h h' : Heap) (ps : List ℕ)
    → ((p : ℕ) → mem p ps ≡ true → h'.cell p ≡ h.cell p)
    → AllLive h ps
    → AllLive h' ps
AllLive-kept h h' [] same l = tt
AllLive-kept h h' (x ∷ ps) same l =
    (ground (arith, same x), AllLive-kept h h' ps (λ p m. same p (ground arith)) l.1)

-- A flush that has come through leaves no buffer of the queue, and every other one as it was.
pub record Flushed (ps : List ℕ) (h h' : Heap) : Type 0 where
  pub gone : (p : ℕ) → mem p ps ≡ true → h'.cell p ≡ none
  pub kept : (p : ℕ) → mem p ps ≡ false → h'.cell p ≡ h.cell p
  pub next_kept : h'.next ≡ h.next

pub AllLive-update :
    (h : Heap) (p : ℕ) (o : Option Buffer) (ps : List ℕ)
    → mem p ps ≡ false
    → AllLive h ps
    → AllLive (record h { cell = update h.cell p o }) ps
AllLive-update h p o [] m l = tt
AllLive-update h p o (x ∷ ps) m l = (ground arith, AllLive-update h p o ps (ground arith) l.1)

free_live :
    (p : ℕ) (h : Heap)
    → is_live (h.cell p) ≡ true
    → free_audio_buffer p h ≡ ok (record h { cell = update h.cell p none })
unfolding free_audio_buffer
free_live p h l = ground arith

-- Flushing a queue of distinct live buffers never faults: it frees exactly these.
pub flush_queue-Flushed :
    (ps : List ℕ) (h : Heap)
    → AllDistinct ps
    → AllLive h ps
    → (h' : Heap) × (flush_queue ps h ≡ ok h') × Flushed ps h h'
unfolding flush_queue
flush_queue-Flushed [] h d l =
    (h, refl, record { gone = λ p m. cc; kept = λ p m. refl; next_kept = refl })
flush_queue-Flushed (x ∷ ps) h d l =
    let h₁ : Heap = record h { cell = update h.cell x none } in
    let (h', done, f) = flush_queue-Flushed ps h₁ d.1 (AllLive-update h x none ps d.0 l.1) in
    (
      h',
      rw (free_live x h l.0) done,
      record {
        gone = λ p m. elim (Bool-cases (mem p ps)) [
          | inl later ↦ f.gone p later
          | inr now ↦ ground (arith, f.kept p now)
        ];
        kept = λ p m. ground (arith, f.kept p);
        next_kept = f.next_kept;
      },
    )
