-- ===== src/Shutdown/Ends.antt =====
-- `stop_listening` ends: every run is bounded, and none gets stuck.
use rdk_audiocapturemgr.Prelude.{
  Option-cases, ℕ, zero, suc, ◌+◌, ◌*◌, ◌≤◌, ◌<◌, ◌≡◌, ◌≢◌, ◌⊎◌, inl, inr, List, [], ◌∷◌, none,
  some, Bool, true, false, ◌||◌, if◌then◌else◌, arith,
}
use rdk_audiocapturemgr.Socket.{ControlCode, exit, new_callback}
use rdk_audiocapturemgr.Shutdown.{
  CloserPc, written, joining, relocking, closing, finished, WorkerPc, selecting, accepting,
  accepted, done, reading, have_read, calling, in_section, Closing, closer_holds, is_done,
  closer_move, worker_move, Step, closes, works, Run, here, next,
}

abbrev pub has_exit : List ControlCode → Bool
has_exit [] = false
has_exit (exit ∷ ms) = true
has_exit (new_callback ∷ ms) = has_exit ms

-- The closing thread has written its message and does not wait with the mutex.
abbrev pub is_stopping : CloserPc → Bool
is_stopping written = true
is_stopping joining = true
is_stopping relocking = true
is_stopping closing = true
is_stopping finished = true
is_stopping _ = false

pub record IsStopping (x : Closing) : Type 0 where
  pub told : (is_done x.worker || has_exit x.control) ≡ true
  pub stopping : is_stopping x.closer ≡ true

-- Steps left at most: of the closing thread, of the worker for the messages, and of the worker where it
-- stands.
abbrev pub closer_left : CloserPc → ℕ
closer_left written = 4
closer_left joining = 3
closer_left relocking = 2
closer_left closing = 1
closer_left _ = 0

abbrev pub control_left : ℕ → List ControlCode → ℕ
control_left s [] = 1
control_left s (exit ∷ ms) = 1
control_left s (new_callback ∷ ms) = 4 * s + 8 + control_left s ms

abbrev pub worker_left : ℕ → List ControlCode → WorkerPc → ℕ
worker_left s ms done = 0
worker_left s ms selecting = control_left s ms
worker_left s ms accepting = 2 * s + 3 + control_left s ms
worker_left s ms accepted = 2 * s + 2 + control_left s ms
worker_left s ms (calling n b) = 2 * n + 1 + (if b then 2 * s + 3 else 0) + control_left s ms
worker_left s ms (in_section n b) = 2 * n + 2 + (if b then 2 * s + 3 else 0) + control_left s ms
worker_left s ms (have_read b) = 2 * s + 2 + (if b then 2 * s + 3 else 0) + control_left s ms
worker_left s ms (reading b) = 2 * s + 3 + (if b then 2 * s + 3 else 0) + control_left s ms

abbrev pub steps_left : ℕ → Closing → ℕ
steps_left s x = closer_left x.closer + worker_left s x.control x.worker

closes-IsStopping :
    (s : ℕ) (x y : Closing)
    → closer_move true x ≡ some y
    → IsStopping x
    → IsStopping y × (steps_left s y < steps_left s x)
unfolding closer_move
closes-IsStopping s x y e p = ground (arith, p.told, p.stopping)

works-IsStopping :
    (s : ℕ) (connects calls : Bool) (x y : Closing)
    → worker_move s connects calls x ≡ some y
    → IsStopping x
    → IsStopping y × (steps_left s y < steps_left s x)
unfolding worker_move
works-IsStopping s connects calls x y e p = ground (arith, p.told, p.stopping)

moves :
    (s : ℕ) (x : Closing)
    → is_done x.worker ≡ false
    → has_exit x.control ≡ true
    → closer_holds x.closer ≡ false
    → worker_move s false false x ≢ none
unfolding worker_move
moves s x busy told free = λ e. ground (arith, e)

closer_moves :
    (s : ℕ) (x : Closing)
    → IsStopping x
    → worker_move s false false x ≡ none
    → closer_move true x ≡ none
    → x.closer ≡ finished
unfolding closer_move
closer_moves s x p stuck = λ e. ground (arith, e, p.told, p.stopping, moves s x)

Step-IsStopping :
    (s : ℕ) (x y : Closing)
    → Step true s x y
    → IsStopping x
    → IsStopping y × (steps_left s y < steps_left s x)
Step-IsStopping s x y (closes e) p = closes-IsStopping s x y e p
Step-IsStopping s x y (works connects calls e) p = works-IsStopping s connects calls x y e p

-- No state on the way is stuck.
progress :
    (s : ℕ) (x : Closing) → IsStopping x → (x.closer ≡ finished) ⊎ ((y : Closing) × Step true s x y)
progress s x p = elim (Option-cases (worker_move s false false x)) [
  | inr (y, e) ↦ inr (y, works false false e)
  | inl stuck ↦ elim (Option-cases (closer_move true x)) [
    | inr (y, e) ↦ inr (y, closes e)
    | inl waits ↦ inl (closer_moves s x p stuck waits)
  ]
]

Run-IsStopping :
    (s n : ℕ) (x y : Closing)
    → Run true s x n y
    → IsStopping x
    → IsStopping y × (n + steps_left s y ≤ steps_left s x)
Run-IsStopping s zero x y here p = (p, omega arith)
Run-IsStopping s (suc n) x z (next {y = y} run step) p =
    let (q, before) = Run-IsStopping s n x y run p in
    let (r, less) = Step-IsStopping s y z step q in (r, omega (arith, before, less))

-- After `stop_listening` has written its EXIT message, with the worker thread wherever it stands and
-- whatever messages wait in the pipe, every run of the two threads has at most `steps_left` steps,
-- and a run can only end with the closing thread finished.
pub stop_listening_ends :
    (sections n : ℕ) (x y : Closing)
    → IsStopping x
    → Run true sections x n y
    → (n + steps_left sections y ≤ steps_left sections x)
      × ((y.closer ≡ finished) ⊎ ((z : Closing) × Step true sections y z))
stop_listening_ends sections n x y p run =
    let (q, bound) = Run-IsStopping sections n x y run p in (bound, progress sections y q)
