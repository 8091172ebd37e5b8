-- ===== src/Daemon/RoundTests.antt =====
-- A round of the processing thread with the one music id client, at a concrete input.
use rdk_audiocapturemgr.Prelude.{
  ℕ, ◌≡◌, refl, Option, some, [], ◌∷◌, false, true, ok, ◌==◌, if◌then◌else◌, arith, ==_iff,
}
use rdk_audiocapturemgr.Prelude.Int.{negsuc}
use rdk_audiocapturemgr.Audio.{calculate_data_rate}
use rdk_audiocapturemgr.Buffer.{Heap}
use rdk_audiocapturemgr.QMgr.{QMgr, max_queue_size_of}
use rdk_audiocapturemgr.QMgr.Delivery.{process_data}
use rdk_audiocapturemgr.QMgr.Registry.{IsConsistent}
use rdk_audiocapturemgr.QMgr.Tests.{fresh}
use rdk_audiocapturemgr.Daemon.{Daemon, Object, music}
use rdk_audiocapturemgr.Daemon.Rounds.{object_ops}
use rdk_audiocapturemgr.Daemon.Delivered.{Captured, process_data-IsValid}
use rdk_audiocapturemgr.Daemon.Valid.{IsValid}
use rdk_audiocapturemgr.Daemon.Tests.{
  music_session, one_buffer, one_client, one_client-IsValid, alone,
}

abbrev busy : QMgr
busy = record fresh {
  clients = 0 ∷ [];
  num_clients = 1;
  started = true;
  asked_settings = some fresh.audio_properties;
  monitoring = true;
  stop_data_monitor = false;
}

busy-IsConsistent : IsConsistent busy
unfolding calculate_data_rate max_queue_size_of
busy-IsConsistent = record {
  distinct = (refl, tt);
  counted = refl;
  attended = refl;
  settings = refl;
  monitored = refl;
  stopping = refl;
  rate = refl;
  limit = refl;
}

abbrev streaming : Daemon
streaming = record one_client {
  mgr = record one_client.mgr {
    sessions = record music_session { enable = true } ∷ [];
    sources = busy;
  };
}

streaming-IsValid : IsValid streaming
streaming-IsValid = record {
  sessions = record {
    apart = ((refl, refl, tt), (omega arith, omega arith, tt));
    registered = λ c. ground arith;
    one_music = omega arith;
  };
  primary = (refl, tt);
  rate = omega arith;
  populated = one_client-IsValid.populated;
}

-- One more buffer, of three bytes.
abbrev captured : Heap
captured = record {
  next = 2;
  cell = λ p.
      if p == 1
      then some (record { bytes = 1 ∷ 2 ∷ 3 ∷ []; size = 3; clip_length = 0; refcount = 1 })
      else one_buffer.cell p;
}

one_captured : Captured streaming (1 ∷ []) captured
one_captured = record {
  distinct = (refl, tt);
  live = (refl, tt);
  fresh = λ p m. ground (arith, m, ==_iff p 1, ==_iff p 0);
  kept = λ p m. ground (arith, m);
  room = λ c m e. let same = (alone c (music m) e).1 in ground (arith, same);
}

process_data-IsValid_example :
    (h' : Heap) × (objects' : ℕ → Option Object) × (process_data
        (object_ops (λ c o. negsuc 0))
        (record busy { outgoing = 1 ∷ [] })
        captured
        streaming.objects
      ≡ ok (record busy { outgoing = [] }, h', objects'))
    × IsValid (record streaming {
      mgr = record streaming.mgr { sources = record busy { outgoing = [] } };
      objects = objects';
      heap = h';
    })
process_data-IsValid_example =
    process_data-IsValid (λ c o. negsuc 0) streaming (1 ∷ []) captured streaming-IsValid
      busy-IsConsistent (omega arith) (omega arith) one_captured
