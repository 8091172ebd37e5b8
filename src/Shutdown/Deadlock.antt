-- ===== src/Shutdown/Deadlock.antt =====
-- `close_output` of src/ip_out.cpp joins the worker while it has the mutex that the worker waits for.
use rdk_audiocapturemgr.Prelude.{arith, ℕ, ◌≡◌, ◌≢◌, ◌++◌, refl, [], ◌∷◌, false}
use rdk_audiocapturemgr.Socket.{exit}
use rdk_audiocapturemgr.Shutdown.{
  starting, holding, written, joining_held, finished, accepting, Closing, closer_move, worker_move,
  Step, closes, works, Run, here, next,
}

stuck :
    (sections : ℕ) (y z : Closing)
    → y.closer ≡ joining_held
    → y.worker ≡ accepting
    → Step false sections y z
    → ⊥
unfolding closer_move worker_move
stuck sections y z c w (closes e) = ground (arith, c, w, e)
stuck sections y z c w (works connects calls e) = ground (arith, c, w, e)

-- If `close_output` starts while the worker thread is about to enter `process_new_connection`, and goes
-- on first, both threads wait for each other after three steps, and `close_output` never returns.
pub close_output_deadlocks :
    (sections : ℕ) (x : Closing)
    → x.worker ≡ accepting
    → x.closer ≡ starting
    → (y : Closing) × Run false sections x 3 y
      × (y.closer ≢ finished)
      × ¬ ((z : Closing) × Step false sections y z)
unfolding closer_move worker_move
close_output_deadlocks sections x w c =
    let first : Closing = record x { closer = holding } in
    let second : Closing = record x { closer = written; control = x.control ++ (exit ∷ []) } in
    let last : Closing = record second { closer = joining_held } in
    let starts : Step false sections x first = closes (ground (arith, c, w)) in
    let writes : Step false sections first second = closes refl in
    (
      last,
      next (next (next here starts) writes) (closes refl),
      λ e. ground (arith, e),
      λ (z, step). stuck sections last z refl w step,
    )
