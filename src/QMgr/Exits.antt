-- ===== src/QMgr/Exits.antt =====
-- Whether the destructor's `pthread_join` returns: the processing thread after the request to exit.
use rdk_audiocapturemgr.Prelude.{
  refl, ◌-◌, [], ℕ, zero, suc, ◌+◌, ◌≤◌, ◌<◌, ◌≡◌, ◌⊎◌, inl, inr, [], Bool, true, false, ok,
  >>=-parts, arith, if◌then◌else◌, Bool-cases,
}
use rdk_audiocapturemgr.Prelude.Int.{ℤ}
use rdk_audiocapturemgr.QMgr.{flush_queue, QMgr, swap_queues}
use rdk_audiocapturemgr.QMgr.Clients.{stop}
use rdk_audiocapturemgr.QMgr.Delivery.{ClientOps, process_data, process_data_queues}
use rdk_audiocapturemgr.QMgr.Destructor.{request_exit, ThreadRun, here, next}
use rdk_audiocapturemgr.QMgr.Thread.{
  launch, Pc, launched, head, draining, checking, blocked, woken, exited, System, can_run, is_empty,
  step_at, process_step, thread_step, logged,
}

-- Whether the thread is past its first line, and whether it may still wait on the semaphore.
abbrev pub is_launched : Pc → Bool
is_launched launched = false
is_launched _ = true

abbrev pub waits_at_most : Pc → ℕ
waits_at_most woken = 0
waits_at_most exited = 0
waits_at_most _ = 1

abbrev pub Ending : Pc → QMgr → Type 0
Ending pc q =
    (is_launched pc ≡ true) × (q.processing_thread_alive ≡ false) × (waits_at_most pc ≤ q.sem)

-- Steps left at most.
abbrev pub thread_left : Pc → QMgr → ℕ
thread_left head q = 1
thread_left woken q = 1
thread_left blocked q = 2
thread_left checking q = 3
thread_left draining q = if is_empty q.outgoing then 4 else 5
thread_left _ q = 0

module _ {S : Type 0} (ops : ClientOps S) where
  process_step-Ending :
      (x y : System S)
      → process_step ops x ≡ ok y
      → is_empty x.q.outgoing ≡ false
      → Ending draining x.q
      → Ending y.pc y.q × (thread_left y.pc y.q < thread_left draining x.q)
  unfolding process_step
  process_step-Ending x y e some_left p =
      let ((q', h', s'), done, rest) =
        >>=-parts (process_data (logged ops) x.q x.heap (x.clients, x.called)) _ e in
      ground
        (arith, process_data_queues (logged ops) x.q q' x.heap h' (x.clients, x.called) s' done)

  step_at-Ending :
      (pc : Pc) (x y : System S)
      → can_run pc x.q ≡ true
      → step_at ops pc x ≡ ok y
      → Ending pc x.q
      → Ending y.pc y.q × (thread_left y.pc y.q < thread_left pc x.q)
  unfolding step_at swap_queues
  step_at-Ending launched x y run e p = cc
  step_at-Ending head x y run e p = ground arith
  step_at-Ending draining x y run e p = elim (Bool-cases (is_empty x.q.outgoing)) [
    | inl none_left ↦ ground (arith, none_left)
    | inr some_left ↦ process_step-Ending x y (ground (arith, some_left)) some_left p
  ]
  step_at-Ending checking x y run e p = ground arith
  step_at-Ending blocked x y run e p = ground arith
  step_at-Ending woken x y run e p = ground arith
  step_at-Ending exited x y run e p = cc

  Ending-can_run : (pc : Pc) (q : QMgr) → Ending pc q → (pc ≡ exited) ⊎ (can_run pc q ≡ true)
  Ending-can_run pc q p = ground arith

  ThreadRun-Ending :
      (n : ℕ) (x y : System S)
      → Ending x.pc x.q
      → ThreadRun ops x n y
      → Ending y.pc y.q × (n + thread_left y.pc y.q ≤ thread_left x.pc x.q)
  unfolding thread_step
  ThreadRun-Ending zero x y p here = (p, omega arith)
  ThreadRun-Ending (suc n) x z p (next {y} run can e) =
      let (q, before) = ThreadRun-Ending n x y p run in
      let (r, less) = step_at-Ending y.pc y z can e q in (r, omega (arith, before, less))

request_exit-Ending :
    (stop_ret : ℤ) (pc : Pc) (q : QMgr)
    → is_launched pc ≡ true
    → Ending pc (request_exit stop_ret q)
unfolding request_exit stop
request_exit-Ending stop_ret pc q past = ground arith

-- If the processing thread is past its first line when the destructor asks it to exit, then wherever it
-- stands each run of it, as long as its steps do not fault, has at most five steps, and the thread
-- never waits again: it is gone or it can go on.
pub request_exit-ends :
    {S : Type 0} (ops : ClientOps S) (stop_ret : ℤ) (n : ℕ) (x y : System S)
    → is_launched x.pc ≡ true
    → ThreadRun ops (record x { q = request_exit stop_ret x.q }) n y
    → (n ≤ 5) × ((y.pc ≡ exited) ⊎ (can_run y.pc y.q ≡ true))
request_exit-ends ops stop_ret n x y past run =
    let asked = record x { q = request_exit stop_ret x.q } in
    let (p, bound) =
      ThreadRun-Ending ops n asked y (request_exit-Ending stop_ret x.pc x.q past) run in
    (ground (arith, bound), Ending-can_run ops y.pc y.q p)

-- If the processing thread has not run its first line when the destructor asks it to exit, with
-- empty queues and the semaphore down, then after nine steps it waits for the semaphore, which is
-- down and which nobody posts: the thread has set m_processing_thread_alive again and taken the
-- post for a buffer.
pub request_exit-hangs :
    {S : Type 0} (ops : ClientOps S) (stop_ret : ℤ) (q : QMgr) (s : S)
    → q.incoming ≡ []
    → q.outgoing ≡ []
    → q.sem ≡ 0
    → (y : System S) × ThreadRun ops (launch (request_exit stop_ret q) s) 9 y
      × (y.pc ≡ blocked)
      × (can_run y.pc y.q ≡ false)
unfolding request_exit stop thread_step step_at swap_queues flush_queue
request_exit-hangs {S = S} ops stop_ret q s no_new no_old down =
    let x = launch (request_exit stop_ret q) s in
    let at : Pc → QMgr → System S = λ pc q'. record x { q = q'; pc = pc } in
    let q₀ : QMgr = record (request_exit stop_ret q) { processing_thread_alive = true } in
    let q₁ : QMgr = record q₀ { notify_new_data = true } in
    let q₂ : QMgr = record q₁ { sem = q₁.sem - 1 } in
    let q₃ : QMgr = record q₂ { incoming = []; outgoing = q₂.incoming } in
    let q₄ : QMgr = record q₃ { notify_new_data = true } in
    let told : thread_step ops x ≡ ok (at head q₀) = refl in
    let goes_on : thread_step ops (at head q₀) ≡ ok (at draining q₀) = refl in
    let drained : thread_step ops (at draining q₀) ≡ ok (at checking q₀) = ground (arith, no_old) in
    let waits : thread_step ops (at checking q₀) ≡ ok (at blocked q₁) = ground (arith, no_new) in
    let posted : can_run blocked q₁ ≡ true = ground (arith, down) in
    let wakes : thread_step ops (at blocked q₁) ≡ ok (at woken q₂) = refl in
    let swaps : thread_step ops (at woken q₂) ≡ ok (at head q₃) = ground (arith, no_old) in
    let again : thread_step ops (at draining q₃) ≡ ok (at checking q₃) = ground (arith, no_new) in
    let stays : thread_step ops (at checking q₃) ≡ ok (at blocked q₄) = refl in
    let run₄ = next (next (next (next here refl told) refl goes_on) refl drained) refl waits in
    let run₇ = next (next (next run₄ posted wakes) refl swaps) refl refl in
    (at blocked q₄, next (next run₇ refl again) refl stays, refl, ground (arith, down))
