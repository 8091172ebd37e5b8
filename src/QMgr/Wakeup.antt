-- ===== src/QMgr/Wakeup.antt =====
-- The semaphore between the capture callback and the processing thread: no wake-up is lost.
use rdk_audiocapturemgr.Prelude.{
  ℕ, ◌+◌, ◌≡◌, ◌≢◌, ◌⊎◌, List, [], ◌∷◌, ◌++◌, true, false, ok, if◌then◌else◌, arith, >>=-parts,
}
use rdk_audiocapturemgr.Audio.{CaptureLibrary}
use rdk_audiocapturemgr.Buffer.{Heap, create_new_audio_buffer}
use rdk_audiocapturemgr.QMgr.{q_mgr, QMgr, swap_queues, add_data, limit_incoming, notify_data_ready}
use rdk_audiocapturemgr.QMgr.Clients.{register_client, unregister_client, set_audio_properties}
use rdk_audiocapturemgr.QMgr.Registry.{Call, registers, unregisters, sets, call}
use rdk_audiocapturemgr.QMgr.Delivery.{ClientOps, process_data, process_data_queues}
use rdk_audiocapturemgr.QMgr.Thread.{
  here, next, produce, runs, calls, launch, Reach, Step, thread_step, Pc, launched, head, draining,
  checking, blocked, woken, exited, System, step_at, process_step, can_run, logged,
}

-- Nothing to be told: the semaphore is down and the thread has not asked for a post.
abbrev Quiet : QMgr → Type 0
Quiet q = (q.sem ≡ 0) × (q.notify_new_data ≡ false)

-- What holds of semaphore, flag and queues where the thread stands.
abbrev pub Protocol : Pc → QMgr → Type 0
Protocol launched q = Quiet q
Protocol head q = Quiet q
Protocol draining q = Quiet q
Protocol checking q = Quiet q × (q.outgoing ≡ [])
Protocol blocked q =
    (q.outgoing ≡ [])
    × (((q.sem ≡ 0) × (q.notify_new_data ≡ true) × (q.incoming ≡ []))
        ⊎ ((q.sem ≡ 1) × (q.notify_new_data ≡ false) × (q.incoming ≢ [])))
Protocol woken q = Quiet q × (q.outgoing ≡ []) × (q.incoming ≢ [])
Protocol exited q = Unit {0}

-- The fields of the queue manager that the protocol is about.
pub record SameProtocol (q q' : QMgr) : Type 0 where
  pub incoming : q'.incoming ≡ q.incoming
  pub outgoing : q'.outgoing ≡ q.outgoing
  sem : q'.sem ≡ q.sem
  notify : q'.notify_new_data ≡ q.notify_new_data

pub call-SameProtocol :
    (lib : CaptureLibrary) (c : Call) (q q' : QMgr) → call lib c q ≡ ok q' → SameProtocol q q'
unfolding call register_client unregister_client set_audio_properties
call-SameProtocol lib (registers ret c) q q' e = ground arith
call-SameProtocol lib (unregisters ret c) q q' e = ground arith
call-SameProtocol lib (sets s t props) q q' e = ground arith

Protocol-SameProtocol : (pc : Pc) {q q' : QMgr} → SameProtocol q q' → Protocol pc q → Protocol pc q'
Protocol-SameProtocol launched s p = ground arith
Protocol-SameProtocol _ s p = ground arith

append-cons-ne-nil : (xs : List ℕ) (x : ℕ) → xs ++ x ∷ [] ≢ []
append-cons-ne-nil [] x e = cc
append-cons-ne-nil (y ∷ xs) x e = cc

-- `add_data` posts the semaphore exactly if the thread has asked for it.
record Notified (q q' : QMgr) : Type 0 where
  pub incoming : q'.incoming ≢ []
  pub outgoing : q'.outgoing ≡ q.outgoing
  sem : q'.sem ≡ (if q.notify_new_data then q.sem + 1 else q.sem)
  notify : q'.notify_new_data ≡ false

add_data-Notified :
    (buf : List ℕ) (size : ℕ) (q q' : QMgr) (h h' : Heap)
    → add_data buf size q h ≡ ok (q', h')
    → Notified q q'
unfolding add_data create_new_audio_buffer limit_incoming notify_data_ready
add_data-Notified buf size q q' h h' e = ground (arith, append-cons-ne-nil q.incoming h.next)

Protocol-Notified : (pc : Pc) {q q' : QMgr} → Notified q q' → Protocol pc q → Protocol pc q'
Protocol-Notified launched n p = ground arith
Protocol-Notified _ n p = ground arith

module _ {S : Type 0} (lib : CaptureLibrary) (ops : ClientOps S) where
  process_step-Protocol :
      (x y : System S) → process_step ops x ≡ ok y → Quiet x.q → Protocol y.pc y.q
  unfolding process_step
  process_step-Protocol x y e p =
      let ((q', h', s'), done, rest) =
        >>=-parts (process_data (logged ops) x.q x.heap (x.clients, x.called)) _ e in
      ground
        (arith, process_data_queues (logged ops) x.q q' x.heap h' (x.clients, x.called) s' done)

  step_at-Protocol :
      (pc : Pc) (x y : System S)
      → can_run pc x.q ≡ true
      → step_at ops pc x ≡ ok y
      → Protocol pc x.q
      → Protocol y.pc y.q
  unfolding step_at swap_queues
  step_at-Protocol launched x y run e p = ground arith
  step_at-Protocol head x y run e p = ground arith
  step_at-Protocol draining x y run e p = ground (arith, process_step-Protocol x y)
  step_at-Protocol checking x y run e p = ground arith
  step_at-Protocol blocked x y run e p = ground arith
  step_at-Protocol woken x y run e p = ground arith
  step_at-Protocol exited x y run e p = cc

  pub Step-Protocol : (x y : System S) → Step lib ops x y → Protocol x.pc x.q → Protocol y.pc y.q
  unfolding thread_step
  Step-Protocol x y (produce buf size q' h' fits e same) p =
      rw same (Protocol-Notified x.pc (add_data-Notified buf size x.q q' x.heap h' e) p)
  Step-Protocol x y (runs run e) p = step_at-Protocol x.pc x y run e p
  Step-Protocol x y (calls c q' e same) p =
      rw same (Protocol-SameProtocol x.pc (call-SameProtocol lib c x.q q' e) p)

  pub Reach-Protocol :
      (q : QMgr) (s : S) (x : System S)
      → q_mgr lib ≡ ok q
      → Reach lib ops (launch q s) x
      → Protocol x.pc x.q
  unfolding q_mgr
  Reach-Protocol q s x new here = ground arith
  Reach-Protocol q s x new (next {y} r st) = Step-Protocol y x st (Reach-Protocol q s y new r)

  -- In every state that can be reached, a thread that waits on the semaphore while a buffer is queued
  -- can go on: no wake-up is lost. If it waits and no buffer is queued, the semaphore is down and the
  -- next captured block will post it.
  pub no_lost_wakeup :
      (q : QMgr) (s : S) (x : System S)
      → q_mgr lib ≡ ok q
      → Reach lib ops (launch q s) x
      → x.pc ≡ blocked
      → (x.q.incoming ≢ [] → can_run x.pc x.q ≡ true)
        × (x.q.incoming ≡ [] → (x.q.sem ≡ 0) × (x.q.notify_new_data ≡ true))
  no_lost_wakeup q s x new r at =
      let p : Protocol blocked x.q = rw at at (Reach-Protocol q s x new r) in
      ((λ waiting. ground arith), λ nothing. ground arith)

  -- In every state that the capture callback, the processing thread and the calls of clients can
  -- reach from the constructor, before the destructor posts the semaphore: where the thread is
  -- about to swap the queues, before it waits or behind the semaphore, the outgoing queue is empty,
  -- so that no buffer is thrown away, and behind the semaphore a buffer is queued.
  pub swap_loses_nothing :
      (q : QMgr) (s : S) (x : System S)
      → q_mgr lib ≡ ok q
      → Reach lib ops (launch q s) x
      → (x.pc ≡ checking → x.q.outgoing ≡ [])
        × (x.pc ≡ woken → (x.q.outgoing ≡ []) × (x.q.incoming ≢ []))
  swap_loses_nothing q s x new r = (
    (λ at. let p : Protocol checking x.q = rw at at (Reach-Protocol q s x new r) in p.1),
    λ at. let p : Protocol woken x.q = rw at at (Reach-Protocol q s x new r) in (p.1, p.2),
  )
