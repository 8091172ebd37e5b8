-- ===== src/Daemon/Launch.antt =====
-- src/acm_session_mgr.cpp: the start of the process.
use rdk_audiocapturemgr.Prelude.{◌≤◌, ◌≡◌, refl, none, List, [], ok, ◌>>=◌, arith, ◌<◌, ◌^◌, length}
use rdk_audiocapturemgr.Prelude.Int.{ℤ}
use rdk_audiocapturemgr.Audio.{AudioProperties, CaptureLibrary}
use rdk_audiocapturemgr.Audio.Rate.{calculate_data_rate-exact}
use rdk_audiocapturemgr.QMgr.{QMgr, q_mgr, max_queue_size_of, default_fifo_size, default_threshold}
use rdk_audiocapturemgr.QMgr.Registry.{IsConsistent, q_mgr-IsConsistent}
use rdk_audiocapturemgr.Sessions.{acm_session_mgr}
use rdk_audiocapturemgr.Sessions.Calls.{q_mgr-no_clients}
use rdk_audiocapturemgr.Daemon.{Daemon, Outside, launch}
use rdk_audiocapturemgr.Daemon.Messages.{Message}
use rdk_audiocapturemgr.Daemon.Valid.{IsValid}
use rdk_audiocapturemgr.Daemon.Runs.{AllFit, serve, serve-IsValid}

-- The settings of a new queue manager.
abbrev first_settings : CaptureLibrary → AudioProperties
first_settings lib = record {
  format = lib.default_settings.format;
  sampling_frequency = lib.default_settings.sampling_frequency;
  fifo_size = default_fifo_size;
  threshold = default_threshold;
  delay_compensation_ms = 0;
}

-- The constructor of the queue manager does not divide by zero, and its data rate is in its bounds.
q_mgr-runs :
    (lib : CaptureLibrary) → (q : QMgr) × (q_mgr lib ≡ ok q) × (q.bytes_per_second ≤ 864000)
unfolding q_mgr max_queue_size_of
q_mgr-runs lib = (_, refl, (calculate_data_rate-exact (first_settings lib)).1)

-- The process starts without a fault, in order, with no session and a consistent queue manager.
pub launch-IsValid :
    (lib : CaptureLibrary)
    → (d : Daemon) × (launch lib ≡ ok d)
      × (d.mgr.session_counter ≡ 0)
      × IsValid d
      × IsConsistent d.mgr.sources
unfolding launch acm_session_mgr
launch-IsValid lib =
    let (q, made, bounded) = q_mgr-runs lib in
    let nobody = q_mgr-no_clients lib q made in
    (
      record {
        mgr = record { sessions = []; sources = q; session_counter = 0; next_client = 0 };
        objects = λ c. none;
        heap = record { next = 0; cell = λ p. none };
        music_ticker = 0;
        ip_ticker = 0;
      },
      rw made refl,
      refl,
      record {
        sessions = record {
          apart = (tt, tt);
          registered = λ c. rw nobody refl;
          one_music = omega arith;
        };
        primary = tt;
        rate = bounded;
        populated = record {
          typed = λ c. refl;
          owners = λ c m e. absurd (ground (arith, e));
          apart = λ c c' m m' p e e' ne i. absurd (ground (arith, e));
          threads = λ c o e. absurd (ground (arith, e));
          held = λ p live. absurd (ground (arith, live));
        };
      },
      q_mgr-IsConsistent lib q made,
    )

-- A process that has just started answers any messages, under the conditions of `serve-IsValid`.
pub launch-serve :
    (lib : CaptureLibrary) (ms : List (Outside × Message))
    → AllFit ms
    → length ms < 2 ^ 31
    → (d' : Daemon) × (rets : List ℤ) × ((launch lib >>= serve ms) ≡ ok (d', rets)) × IsValid d'
launch-serve lib ms fit few =
    let (d, started, first, v, consistent) = launch-IsValid lib in
    let (d', rets, served, v') = serve-IsValid ms d fit (omega (arith, first)) v in
    (d', rets, rw (started, served) refl, v')
