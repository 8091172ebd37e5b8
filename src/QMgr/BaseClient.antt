-- ===== src/QMgr/BaseClient.antt =====
-- src/audio_capture_manager.cpp: the class audio_capture_client, whose callback gives up the buffer at
-- once, and what becomes of buffers when there is no client.
use rdk_audiocapturemgr.Prelude.{
  ◌⊎◌, ◌-◌, ◌∙◌, ℕ, ◌<◌, ◌^◌, ◌≡◌, refl, none, some, List, [], ◌∷◌, Result, ok, ◌>>=◌, arith, ltb,
  Bool-cases, inl, inr, ==_iff, true,
}
use rdk_audiocapturemgr.Buffer.{Buffer, Heap, update, unref_audio_buffer}
use rdk_audiocapturemgr.Buffer.Refs.{refs, unref_last, unref_more}
use rdk_audiocapturemgr.QMgr.{QMgr}
use rdk_audiocapturemgr.QMgr.Clients.{mem}
use rdk_audiocapturemgr.QMgr.Registry.{AllDistinct}
use rdk_audiocapturemgr.QMgr.Flush.{is_live, AllLive}
use rdk_audiocapturemgr.QMgr.Delivery.{ClientOps, ClientLaws, Took, deliver_all, process_data}
use rdk_audiocapturemgr.QMgr.Counted.{update_buffer_references-Counted}

-- `release_buffer`.
unfoldable pub release_buffer : ℕ → Heap → Result Heap
release_buffer p h = unref_audio_buffer p h

abbrev pub base_client : ClientOps (Unit {0})
base_client = record { data_callback = λ c p h s. release_buffer p h >>= λ h'. ok (h', s) }

-- `release_buffer` gives up one reference.
pub release_buffer-Took :
    (p : ℕ) (h : Heap) (b : Buffer)
    → h.cell p ≡ some b
    → 0 < b.refcount
    → b.refcount < 2 ^ 32
    → (h' : Heap) × (release_buffer p h ≡ ok h') × Took (λ q. 0) (λ q. 0) p h h'
unfolding release_buffer
release_buffer-Took p h b e pos fits = elim (Bool-cases (ltb 1 b.refcount)) [
  | inl more ↦ (
    record h { cell = update h.cell p (some (record b { refcount = b.refcount - 1 })) },
    rw (unref_more p h b e (ground arith) fits),
    record {
      balance = ground (arith, ==_iff p p);
      falls = ground (arith, ==_iff p p);
      live = ground (arith, ==_iff p p);
      others = λ q ne. ground arith;
      others_held = λ q ne. refl;
      next_kept = refl;
    },
  )
  | inr last ↦ (
    record h { cell = update h.cell p none },
    rw (unref_last p h b e (ground arith)),
    record {
      balance = ground (arith, ==_iff p p);
      falls = ground (arith, ==_iff p p);
      live = ground (arith, ==_iff p p);
      others = λ q ne. ground arith;
      others_held = λ q ne. refl;
      next_kept = refl;
    },
  )
]

-- What is left of a buffer is as long as before.
pub release_buffer-size :
    (p : ℕ) (h h' : Heap) (b : Buffer)
    → h.cell p ≡ some b
    → 0 < b.refcount
    → b.refcount < 2 ^ 32
    → release_buffer p h ≡ ok h'
    → (h'.cell p ≡ none) ⊎ ((b' : Buffer) × (h'.cell p ≡ some b') × (b'.size ≡ b.size))
unfolding release_buffer
release_buffer-size p h h' b e pos fits released = elim (Bool-cases (ltb 1 b.refcount)) [
  | inl more ↦
      let same = unref_more p h b e (ground arith) fits in
      inr (record b { refcount = b.refcount - 1 }, ground (arith, same, released, ==_iff p p), refl)
  | inr last ↦
      let same = unref_last p h b e (ground arith) in
      inl (ground (arith, same, released, ==_iff p p))
]

pub base_takes_one :
    (c p : ℕ) (h : Heap) (s : Unit {0}) (b : Buffer)
    → h.cell p ≡ some b
    → 0 < b.refcount
    → b.refcount < 2 ^ 32
    → (h' : Heap) × (s' : Unit {0}) × (base_client.data_callback c p h s ≡ ok (h', s'))
      × Took (λ q. 0) (λ q. 0) p h h'
base_takes_one c p h s b e held fits =
    let (h', released, took) = release_buffer-Took p h b e held fits in
    (h', tt, rw released refl, took)

-- The class keeps its part of the contract: it holds nothing back.
abbrev pub base_client_laws : ClientLaws (Unit {0}) base_client
base_client_laws = record { held = λ s p. 0; takes_one = base_takes_one }

deliver_all-none :
    {S : Type 0} (ops : ClientOps S) (ps : List ℕ) (h : Heap) (s : S)
    → deliver_all ops [] ps h s ≡ ok (h, s)
unfolding deliver_all
deliver_all-none ops [] h s = refl
deliver_all-none ops (p ∷ ps) h s = deliver_all-none ops ps h s

-- With no client left, `process_data` drops the queued buffers without freeing them: each stays on
-- the heap with the count 0, and is in no queue.
pub process_data_leaks :
    {S : Type 0} (ops : ClientOps S) (q : QMgr) (h : Heap) (s : S)
    → AllDistinct q.outgoing
    → AllLive h q.outgoing
    → q.clients ≡ []
    → q.num_clients ≡ 0
    → (h' : Heap) × (process_data ops q h s ≡ ok (record q { outgoing = [] }, h', s))
      × ((p : ℕ) → mem p q.outgoing ≡ true → (is_live (h'.cell p) ≡ true) × (refs h' p ≡ 0))
unfolding process_data
process_data_leaks ops q h s d l nobody zero =
    let (h', set, c) = update_buffer_references-Counted q.num_clients q.outgoing h d l in
    (
      h',
      rw (set, nobody, deliver_all-none ops q.outgoing h' s),
      λ p m. (c.live p m, c.counted p m ∙ zero),
    )
