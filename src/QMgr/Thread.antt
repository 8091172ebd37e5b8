-- ===== src/QMgr/Thread.antt =====
-- src/audio_capture_manager.cpp: `data_processor_thread` as a state machine, interleaved with the
-- capture callback and the clients' calls. A step is the code under one lock, or between two locks.
use rdk_audiocapturemgr.Prelude.{
  ℕ, ◌+◌, ◌-◌, ◌≤◌, ◌≡◌, List, [], ◌∷◌, ◌++◌, Bool, true, false, Result, ok, ◌>>=◌, if◌then◌else◌,
  length, ltb, none,
}
use rdk_audiocapturemgr.Audio.{CaptureLibrary}
use rdk_audiocapturemgr.Buffer.{Heap}
use rdk_audiocapturemgr.QMgr.{QMgr, swap_queues, add_data}
use rdk_audiocapturemgr.QMgr.Registry.{Call, call}
use rdk_audiocapturemgr.QMgr.Delivery.{ClientOps, process_data}

-- Where the thread stands: `launched` before its first line, `head` at the outer `while`, `draining`
-- at the inner one, `checking` before it looks at the incoming queue, `blocked` in `sem_wait`,
-- `woken` behind it.
pub data Pc : Type 0 where
  launched head draining checking blocked woken exited : Pc

-- What the program does not keep: `accepted` lists all buffers ever queued, `taken` those that a round
-- of `process_data` took out of the outgoing queue, `called` the calls of `data_callback`, each a client
-- with a buffer, and `due` the calls that the clients of each round are owed for its buffers.
-- `overflows` counts the flushes of a full incoming queue.
pub record System (S : Type 0) : Type 0 where
  pub q : QMgr
  pub heap : Heap
  pub clients : S
  pub pc : Pc
  pub accepted : List ℕ
  pub taken : List ℕ
  pub called : List (ℕ × ℕ)
  pub due : List (ℕ × ℕ)
  pub overflows : ℕ

abbrev pub is_empty : List ℕ → Bool
is_empty [] = true
is_empty (x ∷ xs) = false

-- The thread can move unless it waits for the semaphore, or is gone.
abbrev pub can_run : Pc → QMgr → Bool
can_run blocked q = ltb 0 q.sem
can_run exited q = false
can_run _ q = true

-- One call for each of the clients, in their order, buffer by buffer.
abbrev pub for_clients : List ℕ → ℕ → List (ℕ × ℕ)
for_clients [] p = []
for_clients (c ∷ cs) p = (c, p) ∷ for_clients cs p

abbrev pub calls_due : List ℕ → List ℕ → List (ℕ × ℕ)
calls_due cs [] = []
calls_due cs (p ∷ ps) = for_clients cs p ++ calls_due cs ps

module _ {S : Type 0} where
  -- The callbacks, with each call that returns noted.
  unfoldable pub logged : ClientOps S → ClientOps (S × List (ℕ × ℕ))
  logged ops = record {
    data_callback = λ c p h x. do
      (h', s') ← ops.data_callback c p h x.0
      ok (h', (s', x.1 ++ (c, p) ∷ []));
  }

  unfoldable pub swap_step : System S → Result (System S)
  swap_step x = do (q', h') ← swap_queues x.q x.heap; ok (record x { q = q'; heap = h'; pc = head })

  unfoldable pub process_step : ClientOps S → System S → Result (System S)
  process_step ops x = do
    (q', h', (s', called)) ← process_data (logged ops) x.q x.heap (x.clients, x.called)
    ok (record x {
      q = q';
      heap = h';
      clients = s';
      pc = draining;
      taken = x.taken ++ x.q.outgoing;
      called = called;
      due = x.due ++ calls_due x.q.clients x.q.outgoing;
    })

  -- One step of the thread from where it stands. At `blocked` the semaphore is above 0.
  unfoldable pub step_at : ClientOps S → Pc → System S → Result (System S)
  unfolding swap_step
  step_at ops launched x =
      ok (record x { q = record x.q { processing_thread_alive = true }; pc = head })
  step_at ops head x =
      ok (record x { pc = if x.q.processing_thread_alive then draining else exited })
  step_at ops draining x =
      if is_empty x.q.outgoing then ok (record x { pc = checking }) else process_step ops x
  step_at ops checking x =
      if is_empty x.q.incoming
      then ok (record x { q = record x.q { notify_new_data = true }; pc = blocked })
      else swap_step x
  step_at ops blocked x = ok (record x { q = record x.q { sem = x.q.sem - 1 }; pc = woken })
  step_at ops woken x =
      if x.q.processing_thread_alive then swap_step x else ok (record x { pc = exited })
  step_at ops exited x = ok x

  unfoldable pub thread_step : ClientOps S → System S → Result (System S)
  unfolding step_at process_step
  thread_step ops x = step_at ops x.pc x

  -- What the capture callback does to the system.
  abbrev pub produced : System S → QMgr → Heap → System S
  produced x q' h' = record x {
    q = q';
    heap = h';
    accepted = x.accepted ++ x.heap.next ∷ [];
    overflows =
        if ltb x.q.max_queue_size (length x.q.incoming) then x.overflows + 1 else x.overflows;
  }

  pub data Step (lib : CaptureLibrary) (ops : ClientOps S) (x y : System S) : Type 0 where
    produce :
        (buf : List ℕ) (size : ℕ) (q' : QMgr) (h' : Heap)
        → size ≤ length buf
        → add_data buf size x.q x.heap ≡ ok (q', h')
        → y ≡ produced x q' h'
        → Step lib ops x y
    runs : can_run x.pc x.q ≡ true → thread_step ops x ≡ ok y → Step lib ops x y
    calls :
        (c : Call) (q' : QMgr) → call lib c x.q ≡ ok q' → y ≡ record x { q = q' } → Step lib ops x y

  pub data Reach (lib : CaptureLibrary) (ops : ClientOps S) (x : System S) : System S → Type 0 where
    here : Reach lib ops x x
    next : {y z : System S} → Reach lib ops x y → Step lib ops y z → Reach lib ops x z

  -- The system after the constructor, with an empty heap of buffers.
  abbrev pub launch : QMgr → S → System S
  launch q s = record {
    q = q;
    heap = record { next = 0; cell = λ p. none };
    clients = s;
    pc = launched;
    accepted = [];
    taken = [];
    called = [];
    due = [];
    overflows = 0;
  }
