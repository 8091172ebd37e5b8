-- ===== src/QMgr/Delivery.antt =====
-- src/audio_capture_manager.cpp: `process_data` and what it asks of the classes of clients.
use rdk_audiocapturemgr.Prelude.{
  arith, ℕ, ◌≤◌, ◌+◌, ◌<◌, ◌^◌, ◌≡◌, ◌≢◌, some, List, [], ◌∷◌, not, Result, ok, ◌>>=◌, ◌==◌,
}
use rdk_audiocapturemgr.Buffer.{Buffer, Heap, set_ref_audio_buffer}
use rdk_audiocapturemgr.Buffer.Refs.{refs}
use rdk_audiocapturemgr.QMgr.{QMgr}
use rdk_audiocapturemgr.QMgr.Flush.{is_live}

-- The virtual method `data_callback`, over the state of all clients: it takes the client and the
-- buffer by address.
pub record ClientOps (S : Type 0) : Type 0 where
  pub data_callback : ℕ → ℕ → Heap → S → Result (Heap × S)

-- A callback takes over one reference: it gives it up, which frees the buffer if it was the last, or
-- it keeps it. `held s p` counts the references to p that the clients in state s keep.
pub record Took (held held' : ℕ → ℕ) (p : ℕ) (h h' : Heap) : Type 0 where
  pub balance : refs h' p + held p + 1 ≡ refs h p + held' p
  pub falls : refs h' p ≤ refs h p
  pub live : is_live (h'.cell p) ≡ not (refs h' p == 0)
  pub others : (q : ℕ) → q ≢ p → h'.cell q ≡ h.cell q
  pub others_held : (q : ℕ) → q ≢ p → held' q ≡ held q
  pub next_kept : h'.next ≡ h.next

pub record ClientLaws (S : Type 0) (ops : ClientOps S) : Type 0 where
  pub held : S → ℕ → ℕ
  pub takes_one :
      (c p : ℕ) (h : Heap) (s : S) (b : Buffer)
      → h.cell p ≡ some b
      → 0 < b.refcount
      → b.refcount < 2 ^ 32
      → (h' : Heap) × (s' : S) × (ops.data_callback c p h s ≡ ok (h', s'))
        × Took (held s) (held s') p h h'

unfoldable pub update_buffer_references : List ℕ → ℕ → Heap → Result Heap
update_buffer_references [] num_clients h = ok h
update_buffer_references (p ∷ ps) num_clients h = do
  h' ← set_ref_audio_buffer p num_clients h
  update_buffer_references ps num_clients h'

module _ {S : Type 0} (ops : ClientOps S) where
  -- The inner loop of `process_data`, over the clients.
  unfoldable pub deliver : List ℕ → ℕ → Heap → S → Result (Heap × S)
  deliver [] p h s = ok (h, s)
  deliver (c ∷ cs) p h s = do (h', s') ← ops.data_callback c p h s; deliver cs p h' s'

  -- The outer loop, over the buffers.
  unfoldable pub deliver_all : List ℕ → List ℕ → Heap → S → Result (Heap × S)
  unfolding deliver
  deliver_all cs [] h s = ok (h, s)
  deliver_all cs (p ∷ ps) h s = do (h', s') ← deliver cs p h s; deliver_all cs ps h' s'

  unfoldable pub process_data : QMgr → Heap → S → Result (QMgr × Heap × S)
  process_data q h s = do
    h₁ ← update_buffer_references q.outgoing q.num_clients h
    (h₂, s₂) ← deliver_all q.clients q.outgoing h₁ s
    ok (record q { outgoing = [] }, h₂, s₂)

-- A round that returns has taken all buffers out of the queue.
pub process_data_queues :
    {S : Type 0} (ops : ClientOps S) (q q' : QMgr) (h h' : Heap) (s s' : S)
    → process_data ops q h s ≡ ok (q', h', s')
    → q' ≡ record q { outgoing = [] }
unfolding process_data
process_data_queues ops q q' h h' s s' e = ground arith
