-- ===== src/IarmInterface/Tests.antt =====
-- The interface with a client that is enabled for five seconds, and runs at concrete inputs.
use rdk_audiocapturemgr.Prelude.{◌≡◌, refl, none, some, [], ◌∷◌, true, false, ok, arith}
use rdk_audiocapturemgr.Prelude.Int.{pos}
use rdk_audiocapturemgr.Buffer.{Heap}
use rdk_audiocapturemgr.QMgr.Tests.{fresh}
use rdk_audiocapturemgr.QMgr.Clients.{get_data_rate}
use rdk_audiocapturemgr.Music.{
  MusicIdClient, file_output, set_precapture_duration, trim_queue, trim_loop, compute_queue_size,
  max_length_of,
}
use rdk_audiocapturemgr.Music.Creation.{initial}
use rdk_audiocapturemgr.Sessions.{
  Session, SessionMgr, buffered_file_output, get_session, acm_result_success,
}
use rdk_audiocapturemgr.Sessions.Handlers.{set_output_props_handler}
use rdk_audiocapturemgr.Sessions.Tests.{no_sessions}
use rdk_audiocapturemgr.IarmInterface.{
  AcmIarmInterface, World, BusResults, acm_iarm_interface, activate, enable_capture_handler,
  get_sample_handler,
}
use rdk_audiocapturemgr.IarmInterface.Sessions.{switched, enable_capture_handler-session}

abbrev no_buffers : Heap
no_buffers = record { next = 0; cell = λ p. none }

abbrev world : World
world = record { sources = fresh; music = initial file_output; heap = no_buffers }

abbrev active : AcmIarmInterface
active = record acm_iarm_interface { client = some 4 }

abbrev bus_works : BusResults
bus_works = record {
  init = pos 0;
  connected = pos 0;
  event = pos 0;
  enable_call = pos 0;
  request_call = pos 0;
}

-- The first client is taken, the second refused; both calls succeed.
activates :
    (activate bus_works 4 acm_iarm_interface ≡ (active, pos 0))
    × (activate bus_works 9 active ≡ (active, pos 0))
unfolding activate acm_iarm_interface
activates = (refl, refl)

-- Without a client the handlers call through NULL, and nothing is enabled.
no_sample : get_sample_handler true true 0 active world ≡ ok (active, world, none, pos 3)
unfolding get_sample_handler acm_iarm_interface
no_sample = refl

abbrev session : Session
session = record {
  session_id = 2;
  client = 4;
  source = 0;
  enable = false;
  output_type = buffered_file_output;
}

abbrev sessions : SessionMgr
sessions = record no_sessions { sessions = session ∷ [] }

sessions-get_session : get_session (pos 2) sessions.sessions ≡ some session
unfolding get_session
sessions-get_session = refl

abbrev five_seconds : MusicIdClient
five_seconds = record (initial file_output) {
  precapture_duration_seconds = 5;
  precapture_size_bytes = 960000;
  queue_upper_limit_bytes = 960000;
}

lengthened :
    set_precapture_duration (get_data_rate fresh) 5 (initial file_output) no_buffers
    ≡ ok (five_seconds, no_buffers)
unfolding set_precapture_duration trim_queue trim_loop compute_queue_size max_length_of
    get_data_rate
lengthened = refl

enable_capture_handler-session_example :
    (i' : AcmIarmInterface) × (w' : World) × (enable_capture_handler (pos 0) (pos 0) 5 active world
      ≡ ok (i', w', acm_result_success))
    × (set_output_props_handler
          (get_data_rate fresh)
          (pos 2)
          5
          sessions
          (initial file_output)
          no_buffers
        ≡ ok (w'.music, w'.heap, acm_result_success))
    × (w'.sources ≡ (switched (pos 0) (pos 0) 5 (pos 2) sessions).sources)
    × (i'.enable_audio_input ≡ true)
unfolding acm_iarm_interface
enable_capture_handler-session_example =
    enable_capture_handler-session (pos 0) (pos 0) 5 active world (pos 2) sessions session
      five_seconds no_buffers refl sessions-get_session refl refl refl (omega arith) lengthened
