-- ===== src/Sessions/Samples.antt =====
-- src/acm_session_mgr.cpp: the handlers that ask for a sample and for the place where it is delivered. The
-- state of the session's client is an argument of the handler that uses it; the duration is an
-- argument as the unsigned integer that the message's `float` becomes.
use rdk_audiocapturemgr.Prelude.{
  ℕ, ◌++◌, List, [], ◌∷◌, Option, none, some, Bool, true, Result, ok, ◌>>=◌, ltb, leb, length,
  if◌then◌else◌,
}
use rdk_audiocapturemgr.Prelude.Int.{is_zero, ℤ, pos}
use rdk_audiocapturemgr.Audio.{AudioProperties, get_suffix}
use rdk_audiocapturemgr.Buffer.{Heap}
use rdk_audiocapturemgr.IpOut.{IpOutClient, get_data_path}
use rdk_audiocapturemgr.Music.{MusicIdClient, get_max_supported_duration, grab_fresh_sample}
use rdk_audiocapturemgr.Music.Clips.{grab_precaptured_sample}
use rdk_audiocapturemgr.Socket.{is_empty_path}
use rdk_audiocapturemgr.Sessions.{
  is_buffered, Session, SessionMgr, get_session, acm_result_success, acm_result_bad_session_id,
  acm_result_duration_out_of_bounds, acm_result_unsupported_api, acm_result_general_failure,
}

-- `request_callback`: the file that is named in the event it sends. `strcpy_s` copies a name that is
-- shorter than the 64 bytes of `dataLocator`.
unfoldable pub request_callback : List ℕ → ℤ → Option (List ℕ)
request_callback file result =
    if is_zero result then (if ltb (length file) 64 then some file else none) else none

-- "/tmp/acm-songid" and the suffix that the client's constructor gives it.
unfoldable pub get_sock_path : ℕ → List ℕ
get_sock_path ticker =
    (47 ∷ 116 ∷ 109 ∷ 112 ∷ 47 ∷ 97 ∷ 99 ∷ 109 ∷ 45 ∷ 115 ∷ 111 ∷ 110 ∷ 103 ∷ 105 ∷ 100 ∷ [])
    ++ get_suffix ticker

-- The address of `request_callback`.
abbrev pub request_callback_address : Option ℕ
request_callback_address = some 1

-- The client, the event sent now, and the result. The client was opened with SOCKET_OUTPUT, so that
-- the name `filename` is not opened as a file.
unfoldable pub precaptured_sample :
    AudioProperties
    → ℕ
    → List ℕ
    → MusicIdClient
    → Heap
    → Result (MusicIdClient × Option (List ℕ) × ℤ)
unfolding request_callback
precaptured_sample properties data_rate filename client h = do
  (client', file, ret) ← grab_precaptured_sample properties data_rate true client h
  ok (
      if is_zero ret
      then (client', request_callback filename (pos 0), acm_result_success)
      else (client', none, acm_result_general_failure))

unfoldable pub fresh_sample : ℕ → ℕ → List ℕ → MusicIdClient → MusicIdClient × Option (List ℕ) × ℤ
fresh_sample data_rate duration filename client =
    if leb duration get_max_supported_duration
    then (let (client', ret) =
          grab_fresh_sample data_rate duration filename request_callback_address 0 client in
        (client', none, if is_zero ret then acm_result_success else acm_result_general_failure))
    else (client, none, acm_result_duration_out_of_bounds)

unfoldable pub session_sample :
    AudioProperties
    → ℕ
    → ℕ
    → Bool
    → ℕ
    → Option Session
    → MusicIdClient
    → Heap
    → Result (MusicIdClient × Option (List ℕ) × ℤ)
unfolding precaptured_sample fresh_sample
session_sample properties data_rate ticker is_precapture duration none client h =
    ok (client, none, acm_result_bad_session_id)
session_sample properties data_rate ticker is_precapture duration (some s) client h =
    if is_buffered s.output_type
    then (if s.enable
        then (if is_precapture
            then precaptured_sample properties data_rate (get_sock_path ticker) client h
            else ok (fresh_sample data_rate duration (get_sock_path ticker) client))
        else ok (client, none, acm_result_duration_out_of_bounds))
    else ok (client, none, acm_result_unsupported_api)

unfoldable pub get_sample_handler :
    AudioProperties
    → ℕ
    → ℕ
    → ℤ
    → Bool
    → ℕ
    → SessionMgr
    → MusicIdClient
    → Heap
    → Result (MusicIdClient × Option (List ℕ) × ℤ)
unfolding session_sample
get_sample_handler properties data_rate ticker id is_precapture duration m client h =
    session_sample properties data_rate ticker is_precapture duration (get_session id m.sessions)
      client h

-- What a message that asks for output properties is answered.
pub data OutputProps : Type 0 where
  file_path : List ℕ → OutputProps
  max_buffer_duration : ℕ → OutputProps
  nothing : OutputProps

abbrev path_props : List ℕ → OutputProps × ℤ
path_props path =
    if is_empty_path path
    then (nothing, acm_result_general_failure)
    else (file_path path, acm_result_success)

unfoldable pub session_output_props : Option Session → IpOutClient → OutputProps × ℤ
session_output_props none client = (nothing, acm_result_bad_session_id)
session_output_props (some s) client =
    if is_buffered s.output_type
    then (max_buffer_duration get_max_supported_duration, acm_result_success)
    else path_props (get_data_path client)

-- `client` is the state of the session's client, if that is an IP output client. No session has another
-- output type than the two.
unfoldable pub get_output_props_handler : ℤ → SessionMgr → IpOutClient → OutputProps × ℤ
unfolding session_output_props
get_output_props_handler id m client = session_output_props (get_session id m.sessions) client
