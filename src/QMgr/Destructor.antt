-- ===== src/QMgr/Destructor.antt =====
-- src/audio_capture_manager.cpp: the destructor of q_mgr. The device is closed first, so that no buffer
-- arrives any more, and no client calls; what runs on is the processing thread.
use rdk_audiocapturemgr.Prelude.{
  ℕ, zero, suc, ◌+◌, ◌≡◌, [], true, false, Result, ok, ◌>>=◌, if◌then◌else◌,
}
use rdk_audiocapturemgr.Prelude.Int.{ℤ}
use rdk_audiocapturemgr.Buffer.{Heap}
use rdk_audiocapturemgr.QMgr.{QMgr, flush_queue}
use rdk_audiocapturemgr.QMgr.Clients.{stop}
use rdk_audiocapturemgr.QMgr.Delivery.{ClientOps}
use rdk_audiocapturemgr.QMgr.Thread.{System, can_run, thread_step}

-- Up to the `pthread_join`.
unfoldable pub request_exit : ℤ → QMgr → QMgr
unfolding stop
request_exit stop_ret q =
    let q' : QMgr = if q.started then (stop stop_ret q).0 else q in
    record q' { processing_thread_alive = false; sem = q'.sem + 1 }

-- Behind the join: both queues are flushed.
unfoldable pub flush_queues : QMgr → Heap → Result (QMgr × Heap)
flush_queues q h = do
  h₁ ← flush_queue q.incoming h
  h₂ ← flush_queue q.outgoing h₁
  ok (record q { incoming = []; outgoing = [] }, h₂)

-- Steps of the thread alone.
pub data ThreadRun {S : Type 0} (ops : ClientOps S) (x : System S) : ℕ → System S → Type 0 where
  here : ThreadRun ops x zero x
  next :
      {n : ℕ} {y z : System S}
      → ThreadRun ops x n y
      → can_run y.pc y.q ≡ true
      → thread_step ops y ≡ ok z
      → ThreadRun ops x (suc n) z
