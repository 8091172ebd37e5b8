-- ===== src/Sessions/Tests.antt =====
-- A session manager with a music id session and a socket session, and the theorems about it at
-- concrete inputs.
use rdk_audiocapturemgr.Music.Creation.{initial}
use rdk_audiocapturemgr.Music.{MusicIdClient, socket_output}
use rdk_audiocapturemgr.Prelude.{arith, ◌≡◌, refl, some, List, [], ◌∷◌, true, false, ok}
use rdk_audiocapturemgr.Prelude.Int.{pos}
use rdk_audiocapturemgr.QMgr.Tests.{library, fresh, fresh_runs}
use rdk_audiocapturemgr.Sessions.{
  Session, SessionMgr, buffered_file_output, realtime_socket, acm_session_mgr, get_session,
  start_handler, acm_result_success,
}
use rdk_audiocapturemgr.Sessions.Props.{
  AcmProperties, acm_mono16, acm_f16000, props_in, props_out, acm_f48000,
}
use rdk_audiocapturemgr.Sessions.Valid.{IsValid}
use rdk_audiocapturemgr.Sessions.Calls.{Call, opens, starts, handle_all, handle_all-IsValid}
use rdk_audiocapturemgr.Sessions.Handlers.{
  set_audio_props_handler-get_audio_props_handler, get_audio_props_handler,
}
use rdk_audiocapturemgr.Prelude.{arith}
use rdk_audiocapturemgr.Sessions.Lookup.{handlers-get_session}

abbrev pub no_sessions : SessionMgr
no_sessions = record { sessions = []; sources = fresh; session_counter = 0; next_client = 0 }

no_sessions_runs : acm_session_mgr library ≡ ok no_sessions
unfolding acm_session_mgr
no_sessions_runs = rw fresh_runs refl

-- The music id session is opened twice: the second takes the place of the first.
abbrev session_calls : List Call
session_calls =
    opens (pos 0) (pos 0) buffered_file_output
    ∷ starts (pos 0) (pos 0)
    ∷ opens (pos 0) (pos 0) realtime_socket
    ∷ opens (pos 0) (pos 0) buffered_file_output
    ∷ starts (pos 0) (pos 1)
    ∷ []

handle_all-IsValid_example : IsValid (handle_all session_calls no_sessions)
handle_all-IsValid_example =
    handle_all-IsValid library session_calls no_sessions no_sessions_runs (omega arith)

abbrev socket_session : Session
socket_session = record {
  session_id = 0;
  client = 0;
  source = 0;
  enable = false;
  output_type = realtime_socket;
}

abbrev one_session : SessionMgr
one_session = record no_sessions {
  sessions = socket_session ∷ [];
  session_counter = 1;
  next_client = 1;
}

one_session_valid : IsValid one_session
one_session_valid = record {
  apart = ((refl, refl, tt), (omega arith, omega arith, tt));
  registered = λ c. refl;
  one_music = omega arith;
}

handlers-get_session_example :
    get_session (pos 0) (start_handler (pos 0) (pos 0) one_session).0.sessions
    ≡ some (record socket_session { enable = true })
unfolding get_session
handlers-get_session_example =
    (handlers-get_session (pos 0) 0 one_session socket_session one_session_valid refl).0

abbrev voice_message : AcmProperties
voice_message = record {
  format = acm_mono16;
  sampling_frequency = acm_f16000;
  fifo_size = 65536;
  threshold = 8192;
  delay_compensation_ms = 0;
}

abbrev music_session : SessionMgr
music_session = record one_session {
  sessions = record socket_session { output_type = buffered_file_output } ∷ [];
  sources = record fresh { audio_properties = props_in voice_message };
}

-- Its client converts to 16-bit mono at 48 kHz.
abbrev converting : MusicIdClient
converting = record (initial socket_output) { convert_output = true }

set_audio_props_handler-get_audio_props_handler_example :
    get_audio_props_handler (pos 0) (some converting) music_session ≡ (
      some (record voice_message { format = acm_mono16; sampling_frequency = acm_f48000 }),
      acm_result_success,
    )
unfolding get_session props_in props_out
set_audio_props_handler-get_audio_props_handler_example =
    (set_audio_props_handler-get_audio_props_handler library (pos 0) (pos 0) (pos 0) music_session
      voice_message (some converting) refl refl refl refl).1
