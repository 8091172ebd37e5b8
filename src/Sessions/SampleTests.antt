-- ===== src/Sessions/SampleTests.antt =====
-- Requests for samples in a session, and the theorems about them at concrete inputs.
use rdk_audiocapturemgr.Prelude.{◌*◌, ◌≡◌, refl, [], ◌∷◌, none, some, true, false, ok, arith}
use rdk_audiocapturemgr.Prelude.Int.{pos}
use rdk_audiocapturemgr.Audio.{get_suffix, calculate_data_rate}
use rdk_audiocapturemgr.Converter.{memory_sink}
use rdk_audiocapturemgr.Converter.Decimate.{joined}
use rdk_audiocapturemgr.Converter.Passthrough.{covering}
use rdk_audiocapturemgr.Music.ClipTests.{
  slow_stereo, frame, two_frames, client, two_frames-load_all, two_frames-AllShort,
}
use rdk_audiocapturemgr.Sessions.{
  Session, SessionMgr, buffered_file_output, realtime_socket, get_session, acm_result_success,
  acm_result_general_failure,
}
use rdk_audiocapturemgr.Sessions.Tests.{no_sessions}
use rdk_audiocapturemgr.Sessions.Samples.{
  get_sock_path, get_sample_handler, file_path, get_output_props_handler,
}
use rdk_audiocapturemgr.Sessions.Delivered.{
  get_sample_handler-precaptured, get_sample_handler-fresh,
}
use rdk_audiocapturemgr.IpOut.{sockpath, get_data_path}
use rdk_audiocapturemgr.IpOut.Tests.{streaming}

abbrev music_session : Session
music_session = record {
  session_id = 7;
  client = 0;
  source = 0;
  enable = true;
  output_type = buffered_file_output;
}

abbrev one_session : SessionMgr
one_session = record no_sessions { sessions = music_session ∷ [] }

one_session-get_session : get_session (pos 7) one_session.sessions ≡ some music_session
unfolding get_session
one_session-get_session = refl

get_sample_handler-precaptured_example :
    (let rate = calculate_data_rate slow_stereo in
      let clip = joined (covering (frame ∷ frame ∷ []) (pos (6 * rate))) in
      get_sample_handler slow_stereo rate 3 (pos 7) true 0 one_session client two_frames
      ≡ ok (
        record client { outbox = memory_sink (rate * 7) clip ∷ [] },
        some (get_sock_path 3),
        acm_result_success,
      ))
get_sample_handler-precaptured_example =
    get_sample_handler-precaptured slow_stereo 3 0 (pos 7) one_session music_session client
      two_frames frame (frame ∷ []) one_session-get_session refl refl refl refl refl
      two_frames-load_all (refl, (refl, tt)) two_frames-AllShort (omega arith)

get_sample_handler-fresh_example :
    (let r =
        get_sample_handler-fresh slow_stereo 3 10
          (pos 7)
          one_session
          music_session
          client
          two_frames
          one_session-get_session
          refl
          refl
          (omega arith)
          (omega arith)
          (omega arith, (omega arith, tt)) in
      get_sample_handler slow_stereo
        (calculate_data_rate slow_stereo)
        3
        (pos 7)
        false
        10
        one_session
        client
        two_frames
      ≡ ok (r.0, none, acm_result_general_failure))
get_sample_handler-fresh_example =
    (get_sample_handler-fresh slow_stereo 3 10 (pos 7) one_session music_session client two_frames
      one_session-get_session refl refl (omega arith) (omega arith)
      (omega arith, (omega arith, tt))).1

abbrev socket_session : SessionMgr
socket_session = record no_sessions {
  sessions = record music_session { output_type = realtime_socket } ∷ [];
}

streaming-get_output_props_handler :
    get_output_props_handler (pos 7) socket_session streaming
    ≡ (file_path (sockpath 3), acm_result_success)
unfolding get_output_props_handler get_session get_suffix get_data_path
streaming-get_output_props_handler = refl
