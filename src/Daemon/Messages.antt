-- ===== src/Daemon/Messages.antt =====
-- src/acm_session_mgr.cpp: the handlers, with the objects of the clients.
use rdk_audiocapturemgr.Prelude.{
  ℕ, Option, none, some, Bool, ◌||◌, Result, ok, err, use_after_free, ◌>>=◌, if◌then◌else◌,
}
use rdk_audiocapturemgr.Prelude.Int.{ℤ}
use rdk_audiocapturemgr.Audio.{AudioProperties}
use rdk_audiocapturemgr.Buffer.{Heap}
use rdk_audiocapturemgr.Music.{MusicIdClient}
use rdk_audiocapturemgr.Music.Ending
use rdk_audiocapturemgr.Sessions.{
  OutputType, Session, SessionMgr, is_bad_source, is_unsupported, is_buffered, find_duplicate,
  get_session, open_handler, close_handler, start_handler, stop_handler, acm_result_bad_session_id,
  acm_result_unsupported_api,
}
use rdk_audiocapturemgr.Sessions.Handlers.{
  set_output_props_handler, set_audio_props_handler, refusal,
}
use rdk_audiocapturemgr.Sessions.Props.{AcmProperties, props_in}
use rdk_audiocapturemgr.Sessions.Samples.{get_sample_handler}
use rdk_audiocapturemgr.Daemon.{
  Daemon, Outside, Object, MusicObject, music, put, create_client, delete_client,
}

pub data Message : Type 0 where
  opens : ℤ → OutputType → Message
  closes starts stops : ℤ → Message
  sets_audio : ℤ → AcmProperties → Message
  sets_output : ℤ → ℕ → Message
  requests : ℤ → Bool → ℕ → Message

-- The music id session that a new one takes the place of.
abbrev pub duplicate_of : OutputType → SessionMgr → Option Session
duplicate_of output_type m = if is_buffered output_type then find_duplicate 0 m.sessions else none

-- `open_handler`: the client is created first, and the duplicate's deleted last.
unfoldable pub open_message : Outside → ℤ → OutputType → Daemon → Result (Daemon × ℤ)
open_message o source output_type d =
    let (m, ret, id) = open_handler o.stop_ret source output_type d.mgr in
    if is_bad_source source || is_unsupported output_type then ok (d, ret) else (do
      d₁ ← create_client o (is_buffered output_type) d
      d₂ ← delete_client o.sent (duplicate_of output_type d.mgr) (record d₁ { mgr = m })
      ok (d₂, ret))

unfoldable pub close_message : Outside → ℤ → Daemon → Result (Daemon × ℤ)
close_message o id d = do
  let (m, ret) = close_handler o.stop_ret id d.mgr
  d' ← delete_client o.sent (get_session id d.mgr.sessions) (record d { mgr = m })
  ok (d', ret)

-- A call of a music id client by its address.
unfoldable pub call_music :
    ℕ
    → (MusicObject → Heap → Result (MusicIdClient × Heap × ℤ))
    → Option Object
    → Daemon
    → Result (Daemon × ℤ)
call_music a call (some (music m)) d = do
  (client, h, ret) ← call m d.heap
  ok (
    record d { objects = put a (some (music (record m { client = client }))) d.objects; heap = h },
    ret,
  )
call_music a call other d = err use_after_free

-- `set_output_props_handler`, which calls the client of a music id session alone.
unfoldable pub set_output_found : ℤ → ℕ → Option Session → Daemon → Result (Daemon × ℤ)
set_output_found id duration none d = ok (d, acm_result_bad_session_id)
set_output_found id duration (some s) d =
    if is_buffered s.output_type
    then call_music s.client
        (λ m h.
          set_output_props_handler d.mgr.sources.bytes_per_second id duration d.mgr m.client h)
        (d.objects s.client) d
    else ok (d, refusal (some s))

unfoldable pub set_output_message : ℤ → ℕ → Daemon → Result (Daemon × ℤ)
unfolding set_output_found call_music
set_output_message id duration d = set_output_found id duration (get_session id d.mgr.sessions) d

-- `get_sample_handler`; the event that it may send is left out here.
unfoldable pub sample_of :
    ℤ → Bool → ℕ → SessionMgr → MusicObject → Heap → Result (MusicIdClient × Heap × ℤ)
sample_of id is_precapture duration mgr m h = do
  let properties : AudioProperties = mgr.sources.audio_properties
  (client, event, ret) ←
      get_sample_handler properties mgr.sources.bytes_per_second m.ticker id is_precapture duration
        mgr m.client h
  ok (client, h, ret)

unfoldable pub get_sample_found : ℤ → Bool → ℕ → Option Session → Daemon → Result (Daemon × ℤ)
unfolding sample_of
get_sample_found id is_precapture duration none d = ok (d, acm_result_bad_session_id)
get_sample_found id is_precapture duration (some s) d =
    if is_buffered s.output_type
    then call_music s.client (sample_of id is_precapture duration d.mgr) (d.objects s.client) d
    else ok (d, acm_result_unsupported_api)

unfoldable pub get_sample_message : ℤ → Bool → ℕ → Daemon → Result (Daemon × ℤ)
unfolding get_sample_found call_music
get_sample_message id is_precapture duration d =
    get_sample_found id is_precapture duration (get_session id d.mgr.sessions) d

-- The virtual call of `set_audio_properties`: the music id client notes the new data rate.
unfoldable pub set_audio_found :
    Outside → ℤ → AcmProperties → ℕ → Option Object → Daemon → Result (Daemon × ℤ)
set_audio_found o id message a (some (music m)) d = do
  (q, client, ret) ←
      Ending.set_audio_properties o.lib o.start_ret o.stop_ret (props_in message) d.mgr.sources
        m.client
  ok (
    record d {
      mgr = record d.mgr { sources = q };
      objects = put a (some (music (record m { client = client }))) d.objects;
    },
    ret,
  )
set_audio_found o id message a other d = do
  (m, ret) ← set_audio_props_handler o.lib o.start_ret o.stop_ret id message d.mgr
  ok (record d { mgr = m }, ret)

unfoldable pub set_audio_of :
    Outside → ℤ → AcmProperties → Option Session → Daemon → Result (Daemon × ℤ)
unfolding set_audio_found
set_audio_of o id message none d = ok (d, acm_result_bad_session_id)
set_audio_of o id message (some s) d = set_audio_found o id message s.client (d.objects s.client) d

unfoldable pub set_audio_message : Outside → ℤ → AcmProperties → Daemon → Result (Daemon × ℤ)
unfolding set_audio_of
set_audio_message o id message d = set_audio_of o id message (get_session id d.mgr.sessions) d

-- One message, with the result that is written into it.
unfoldable pub handle : Outside → Message → Daemon → Result (Daemon × ℤ)
handle o (opens source output_type) d = open_message o source output_type d
handle o (closes id) d = close_message o id d
handle o (starts id) d =
    let (m, ret) = start_handler o.start_ret id d.mgr in ok (record d { mgr = m }, ret)
handle o (stops id) d =
    let (m, ret) = stop_handler o.stop_ret id d.mgr in ok (record d { mgr = m }, ret)
handle o (sets_audio id message) d = set_audio_message o id message d
handle o (sets_output id duration) d = set_output_message id duration d
handle o (requests id is_precapture duration) d = get_sample_message id is_precapture duration d
