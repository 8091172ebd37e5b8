-- ===== src/QMgr/ExitTests.antt =====
-- The processing thread at the end of the queue manager, on concrete states, and the data
-- monitor.
use rdk_audiocapturemgr.Prelude.{[], ◌∷◌, ◌≤◌, ◌≡◌, ◌⊎◌, refl, true, false}
use rdk_audiocapturemgr.Prelude.Int.{pos}
use rdk_audiocapturemgr.QMgr.BaseClient.{base_client}
use rdk_audiocapturemgr.QMgr.Destructor.{request_exit, ThreadRun, here, next}
use rdk_audiocapturemgr.QMgr.Exits.{request_exit-ends, request_exit-hangs}
use rdk_audiocapturemgr.QMgr.Thread.{
  step_at, System, launch, exited, blocked, woken, can_run, thread_step,
}
use rdk_audiocapturemgr.QMgr.Monitor.{
  stalled, resumed, unstalled, data_monitor, data_monitor-TakeTurns,
}
use rdk_audiocapturemgr.QMgr.Tests.{fresh}

-- The thread waits, and no buffer is queued.
abbrev idle : System (Unit {0})
idle = record (launch fresh tt) { pc = blocked }

abbrev asked : System (Unit {0})
asked = record idle { q = request_exit (pos 0) fresh }

abbrev awake : System (Unit {0})
awake = record asked { q = record asked.q { sem = 0 }; pc = woken }

asked-ThreadRun : ThreadRun base_client asked 1 awake
unfolding request_exit thread_step step_at
asked-ThreadRun = next here refl refl

request_exit-ends_example : (1 ≤ 5) × ((awake.pc ≡ exited) ⊎ (can_run awake.pc awake.q ≡ true))
request_exit-ends_example = request_exit-ends base_client (pos 0) 1 idle awake refl asked-ThreadRun

request_exit-hangs_example :
    (y : System (Unit {0})) × ThreadRun base_client (launch (request_exit (pos 0) fresh) tt) 9 y
    × (y.pc ≡ blocked)
    × (can_run y.pc y.q ≡ false)
request_exit-hangs_example = request_exit-hangs base_client (pos 0) fresh tt refl refl refl

-- The inflow stalls at 512 bytes, goes on and stalls again.
monitored :
    (data_monitor (512 ∷ 512 ∷ 512 ∷ 900 ∷ 900 ∷ []) unstalled).1
    ≡ stalled 512 ∷ resumed ∷ stalled 900 ∷ []
unfolding data_monitor
monitored = refl

data_monitor-TakeTurns_example :
    (data_monitor (512 ∷ 512 ∷ 900 ∷ 900 ∷ []) unstalled).1
    ≡ stalled 512 ∷ resumed ∷ stalled 900 ∷ []
data_monitor-TakeTurns_example = (data_monitor-TakeTurns (512 ∷ 512 ∷ 900 ∷ 900 ∷ []) unstalled).0
