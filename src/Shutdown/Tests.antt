-- ===== src/Shutdown/Tests.antt =====
-- Runs of the closing thread and the worker on concrete states.
use rdk_audiocapturemgr.Prelude.{◌+◌, ◌≤◌, ◌≡◌, ◌≢◌, ◌⊎◌, refl, [], ◌∷◌, true, false}
use rdk_audiocapturemgr.Socket.{exit, new_callback}
use rdk_audiocapturemgr.Shutdown.{
  starting, written, joining, finished, accepting, in_section, Closing, closer_move, Step, closes,
  Run, here, next,
}
use rdk_audiocapturemgr.Shutdown.Ends.{IsStopping, steps_left, stop_listening_ends}
use rdk_audiocapturemgr.Shutdown.Deadlock.{close_output_deadlocks}

abbrev serving : Closing
serving = record {
  closer = written;
  worker = in_section 1 true;
  control = new_callback ∷ exit ∷ [];
}

abbrev served : Closing
served = record serving { closer = joining }

serving-IsStopping : IsStopping serving
serving-IsStopping = record { told = refl; stopping = refl }

serving-Run : Run true 2 serving 1 served
unfolding closer_move
serving-Run = next here (closes refl)

stop_listening_ends_example :
    (1 + steps_left 2 served ≤ steps_left 2 serving)
    × ((served.closer ≡ finished) ⊎ ((z : Closing) × Step true 2 served z))
stop_listening_ends_example = stop_listening_ends 2 1 serving served serving-IsStopping serving-Run

abbrev connecting : Closing
connecting = record { closer = starting; worker = accepting; control = [] }

close_output_deadlocks_example :
    (y : Closing) × Run false 0 connecting 3 y
    × (y.closer ≢ finished)
    × ¬ ((z : Closing) × Step false 0 y z)
close_output_deadlocks_example = close_output_deadlocks 0 connecting refl refl
