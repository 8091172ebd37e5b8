-- ===== src/Shutdown.antt =====
-- src/socket_adaptor.cpp `stop_listening`, src/ip_out.cpp `close_output`: a thread that closes the
-- socket while the worker thread serves it. Both take one mutex; a step is the code up to the next
-- lock, unlock or wait. The write of the EXIT message succeeds, the pipe being almost empty. What
-- the two classes share is one model; `unlocks` says whether the closing thread gives the mutex up
-- while it joins the worker, as `stop_listening` does and `close_output` does not. The client of
-- src/ip_out.cpp has no other messages and no callback (`sections` is 0), and its worker does not take
-- the message out of the pipe, which nobody reads after it.
pub mod Ends
pub mod Deadlock
pub mod Tests
use rdk_audiocapturemgr.Prelude.{
  ℕ, zero, suc, List, [], ◌∷◌, ◌++◌, Option, none, some, Bool, true, false, ◌||◌, ◌⊎◌, ◌≡◌,
  if◌then◌else◌,
}
use rdk_audiocapturemgr.Socket.{ControlCode, exit, new_callback}

-- `starting` before the lock, `holding` behind it, `written` after the EXIT message; `joining` waits for
-- the worker, `joining_held` does so with the mutex; `relocking` waits for the mutex, and `closing`
-- has it.
pub data CloserPc : Type 0 where
  starting holding written joining joining_held relocking closing finished : CloserPc

-- `selecting` in `select`; `accepting` waits for the mutex of `process_new_connection` and `accepted`
-- has it; `reading b` and `have_read b` are so in `process_control_message`; `calling n b` is in the
-- callback, which is to take the mutex n times more, and `in_section n b` has it there. `b` says
-- that a connection is served after it.
pub data WorkerPc : Type 0 where
  selecting accepting accepted done : WorkerPc
  reading have_read : Bool → WorkerPc
  calling in_section : ℕ → Bool → WorkerPc

pub record Closing : Type 0 where
  pub closer : CloserPc
  pub worker : WorkerPc
  pub control : List ControlCode

-- Who has the mutex.
abbrev pub closer_holds : CloserPc → Bool
closer_holds holding = true
closer_holds written = true
closer_holds joining_held = true
closer_holds closing = true
closer_holds _ = false

abbrev pub worker_holds : WorkerPc → Bool
worker_holds accepted = true
worker_holds (have_read b) = true
worker_holds (in_section n b) = true
worker_holds _ = false

abbrev pub is_done : WorkerPc → Bool
is_done done = true
is_done _ = false

-- The closing thread; `none` if it waits or is finished.
abbrev pub closer_to : Closing → CloserPc → Option Closing
closer_to x pc = some (record x { closer = pc })

unfoldable pub closer_from : Bool → CloserPc → Closing → Option Closing
closer_from unlocks starting x = if worker_holds x.worker then none else closer_to x holding
closer_from unlocks holding x =
    some (record x { closer = written; control = x.control ++ (exit ∷ []) })
closer_from unlocks written x = closer_to x (if unlocks then joining else joining_held)
closer_from unlocks joining x = if is_done x.worker then closer_to x relocking else none
closer_from unlocks joining_held x = if is_done x.worker then closer_to x closing else none
closer_from unlocks relocking x = if worker_holds x.worker then none else closer_to x closing
closer_from unlocks closing x = closer_to x finished
closer_from unlocks finished x = none

unfoldable pub closer_move : Bool → Closing → Option Closing
unfolding closer_from
closer_move unlocks x = closer_from unlocks x.closer x

abbrev pub worker_to : Closing → WorkerPc → Option Closing
worker_to x pc = some (record x { worker = pc })

-- The worker in `select`, where `connects` says that a connection waits.
unfoldable pub select_from : List ControlCode → Bool → Closing → Option Closing
select_from [] connects x = if connects then worker_to x accepting else none
select_from (exit ∷ rest) connects x = some (record x { worker = done; control = rest })
select_from (new_callback ∷ rest) connects x =
    some (record x { worker = reading connects; control = rest })

-- The worker thread; `sections` is how often the callback takes the mutex, and `calls` whether a message
-- finds a callback and a connection.
unfoldable pub worker_from : ℕ → Bool → Bool → WorkerPc → Closing → Option Closing
unfolding select_from
worker_from sections connects calls selecting x = select_from x.control connects x
worker_from sections connects calls accepting x =
    if closer_holds x.closer then none else worker_to x accepted
worker_from sections connects calls accepted x = worker_to x (calling sections false)
worker_from sections connects calls (reading b) x =
    if closer_holds x.closer then none else worker_to x (have_read b)
worker_from sections connects calls (have_read b) x =
    worker_to x (calling (if calls then sections else 0) b)
worker_from sections connects calls (calling zero b) x =
    worker_to x (if b then accepting else selecting)
worker_from sections connects calls (calling (suc n) b) x =
    if closer_holds x.closer then none else worker_to x (in_section n b)
worker_from sections connects calls (in_section n b) x = worker_to x (calling n b)
worker_from sections connects calls done x = none

unfoldable pub worker_move : ℕ → Bool → Bool → Closing → Option Closing
unfolding worker_from
worker_move sections connects calls x = worker_from sections connects calls x.worker x

-- Either thread moves; what `select` reports and what the callback finds is open.
pub data Step (unlocks : Bool) (sections : ℕ) (x y : Closing) : Type 0 where
  closes : closer_move unlocks x ≡ some y → Step unlocks sections x y
  works :
      (connects calls : Bool)
      → worker_move sections connects calls x ≡ some y
      → Step unlocks sections x y

-- Runs of n steps.
pub data Run (unlocks : Bool) (sections : ℕ) (x : Closing) : ℕ → Closing → Type 0 where
  here : Run unlocks sections x zero x
  next :
      {n : ℕ} {y z : Closing}
      → Run unlocks sections x n y
      → Step unlocks sections y z
      → Run unlocks sections x (suc n) z
