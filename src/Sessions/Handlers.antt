-- ===== src/Sessions/Handlers.antt =====
-- src/acm_session_mgr.cpp: the handlers that read and set audio properties. What a music id client notes
-- of new properties is in Music/Ending. The state of a client is an argument of
-- the handler that uses it.
use rdk_audiocapturemgr.Prelude.{
  ◌≡◌, refl, Option, none, some, Result, ok, ◌>>=◌, Bool, true, false, if◌then◌else◌, Option-cases,
  inl, inr, sym, ◌∙◌, Bool-cases,
}
use rdk_audiocapturemgr.Prelude.Int.{ℤ}
use rdk_audiocapturemgr.Audio.{AudioProperties, CaptureLibrary}
use rdk_audiocapturemgr.QMgr.Clients.{set_audio_properties, get_audio_properties}
use rdk_audiocapturemgr.QMgr.Settings.{set_audio_properties_same, is_same-equal}
use rdk_audiocapturemgr.QMgr.{QMgr}
use rdk_audiocapturemgr.Music
use rdk_audiocapturemgr.Prelude.{ℕ, ltb, ◌≤◌, ◌*◌, ◌&&◌, arith}
use rdk_audiocapturemgr.Music.Held.{IsValid}
use rdk_audiocapturemgr.Music.Limit.{AllWithin, set_precapture_duration-IsValid}
use rdk_audiocapturemgr.Buffer.{Heap}
use rdk_audiocapturemgr.Music.{MusicIdClient, get_max_supported_duration, set_precapture_duration}
use rdk_audiocapturemgr.Sessions.{
  is_buffered, acm_result_duration_out_of_bounds, acm_result_unsupported_api, Session, SessionMgr,
  get_session, acm_result_success, acm_result_bad_session_id,
}
use rdk_audiocapturemgr.Sessions.Props.{
  AcmProperties, default_props_out, props_out, props_in, is_named_format, is_named_freq,
  props_out-props_in, format_out, freq_out,
}

abbrev pub is_found : Option Session → Bool
is_found none = false
is_found (some s) = true

abbrev answer : AcmProperties → Option Session → Option AcmProperties × ℤ
answer props none = (none, acm_result_bad_session_id)
answer props (some s) = (some props, acm_result_success)

unfoldable pub get_default_audio_props_handler :
    ℤ → AudioProperties → SessionMgr → Option AcmProperties × ℤ
get_default_audio_props_handler id props m =
    answer (default_props_out props) (get_session id m.sessions)

-- The virtual call of `get_audio_properties`: a music id client that converts reports the format and the
-- frequency of its output. `client` is its state, and `none` stands for a client of another class.
unfoldable pub reported : QMgr → Option MusicIdClient → AudioProperties
reported q none = get_audio_properties q
reported q (some client) = Music.get_audio_properties (get_audio_properties q) client

unfoldable pub get_audio_props_handler :
    ℤ → Option MusicIdClient → SessionMgr → Option AcmProperties × ℤ
unfolding reported
get_audio_props_handler id client m =
    answer (props_out (reported m.sources client)) (get_session id m.sessions)

unfoldable pub set_session_props :
    CaptureLibrary → ℤ → ℤ → AcmProperties → Option Session → SessionMgr → Result (SessionMgr × ℤ)
set_session_props lib start_ret stop_ret message none m = ok (m, acm_result_bad_session_id)
set_session_props lib start_ret stop_ret message (some s) m = do
  (q, ret) ← set_audio_properties lib start_ret stop_ret (props_in message) m.sources
  ok (record m { sources = q }, ret)

unfoldable pub set_audio_props_handler :
    CaptureLibrary → ℤ → ℤ → ℤ → AcmProperties → SessionMgr → Result (SessionMgr × ℤ)
unfolding set_session_props
set_audio_props_handler lib start_ret stop_ret id message m =
    set_session_props lib start_ret stop_ret message (get_session id m.sessions) m

-- `client` is the state of the session's client, if that is a music id client.
unfoldable pub set_session_output :
    ℕ → ℕ → Option Session → MusicIdClient → Heap → Result (MusicIdClient × Heap × ℤ)
set_session_output data_rate duration none client h = ok (client, h, acm_result_bad_session_id)
set_session_output data_rate duration (some s) client h =
    if is_buffered s.output_type
    then (if ltb duration get_max_supported_duration
        then (do
          (client', h') ← set_precapture_duration data_rate duration client h
          ok (client', h', acm_result_success))
        else ok (client, h, acm_result_duration_out_of_bounds))
    else ok (client, h, acm_result_unsupported_api)

unfoldable pub set_output_props_handler :
    ℕ → ℤ → ℕ → SessionMgr → MusicIdClient → Heap → Result (MusicIdClient × Heap × ℤ)
unfolding set_session_output
set_output_props_handler data_rate id duration m client h =
    set_session_output data_rate duration (get_session id m.sessions) client h

-- What a client makes of the values of a message.
abbrev pub converted : Option MusicIdClient → AcmProperties → AcmProperties
converted none p = p
converted (some client) p =
    if client.convert_output
    then record p {
      format = format_out client.output_properties.format;
      sampling_frequency = freq_out client.output_properties.sampling_frequency;
    }
    else p

reported-converted :
    (q : QMgr) (client : Option MusicIdClient) (p : AcmProperties)
    → props_out q.audio_properties ≡ p
    → props_out (reported q client) ≡ converted client p
unfolding reported props_out get_audio_properties Music.get_audio_properties
reported-converted q none p back = back
reported-converted q (some client) p back = elim (Bool-cases client.convert_output) [
  | inl converts ↦ rw (converts, sym back) refl
  | inr plain ↦ rw plain back
]

-- A message with named values that sets the properties in force, where the padding of the structure
-- is the same too, succeeds in any session and leaves sessions and queue manager as they are. The
-- message that reads them gives its values back, but for a music id client that converts, which
-- reports the format and the frequency of its output. Without a session both answer
-- ACM_RESULT_BAD_SESSION_ID.
pub set_audio_props_handler-get_audio_props_handler :
    (lib : CaptureLibrary) (start_ret stop_ret id : ℤ) (m : SessionMgr) (p : AcmProperties)
    (client : Option MusicIdClient)
    → lib.same_padding ≡ true
    → is_named_format p.format ≡ true
    → is_named_freq p.sampling_frequency ≡ true
    → m.sources.audio_properties ≡ props_in p
    → (let set = set_audio_props_handler lib start_ret stop_ret id p m in
        let get = get_audio_props_handler id client m in
        let known = is_found (get_session id m.sessions) in
        (set ≡ ok (m, if known then acm_result_success else acm_result_bad_session_id))
        × (get ≡ (
            if known
            then (some (converted client p), acm_result_success)
            else (none, acm_result_bad_session_id))))
unfolding set_audio_props_handler get_audio_props_handler
set_audio_props_handler-get_audio_props_handler lib start_ret stop_ret id m p client padding format
      freq same =
    let back = (props_out-props_in p m.sources.audio_properties format freq same).0 in
    let reads = reported-converted m.sources client p back in
    let kept =
      set_audio_properties_same lib start_ret stop_ret (props_in p) m.sources
        (is_same-equal lib m.sources.audio_properties (props_in p) same ∙ padding) in
    elim (Option-cases (get_session id m.sessions)) [
      | inl missing ↦ (rw missing refl, rw missing refl)
      | inr (s, found) ↦ (rw (found, kept) refl, rw (found, reads) refl)
    ]

-- A session of a music id client, and a duration below the limit.
abbrev pub is_accepted : ℕ → Option Session → Bool
is_accepted duration none = false
is_accepted duration (some s) = is_buffered s.output_type && ltb duration 120

abbrev pub refusal : Option Session → ℤ
refusal none = acm_result_bad_session_id
refusal (some s) =
    if is_buffered s.output_type
    then acm_result_duration_out_of_bounds
    else acm_result_unsupported_api

refused_case :
    (data_rate duration : ℕ) (found : Option Session) (client : MusicIdClient) (h : Heap)
    → is_accepted duration found ≡ false
    → set_session_output data_rate duration found client h ≡ ok (client, h, refusal found)
unfolding set_session_output get_max_supported_duration
refused_case data_rate duration none client h refused = refl
refused_case data_rate duration (some s) client h refused = ground (arith, refused)

-- The duration of the precapture is taken for a session of a music id client alone, and below 120
-- seconds: then the client, if its queue is valid and its requests are for 120 seconds at most, has
-- room for the precapture and is valid afterwards.
pub set_output_props_handler-IsValid :
    (data_rate duration : ℕ) (id : ℤ) (m : SessionMgr) (s : Session) (client : MusicIdClient)
    (h : Heap)
    → get_session id m.sessions ≡ some s
    → is_buffered s.output_type ≡ true
    → ltb duration 120 ≡ true
    → IsValid h client
    → data_rate ≤ 864000
    → AllWithin 120 client.requests
    → (client' : MusicIdClient) × (h' : Heap) × (set_output_props_handler data_rate id duration m
          client h
        ≡ ok (client', h', acm_result_success))
      × IsValid h' client'
      × (duration * data_rate ≤ client'.queue_upper_limit_bytes)
unfolding set_output_props_handler get_max_supported_duration
set_output_props_handler-IsValid data_rate duration id m s client h found music short valid rate
      within =
    let (client', h', runs, valid', room, size) =
      set_precapture_duration-IsValid data_rate duration client h valid rate (ground arith)
        within in
    (client', h', rw (found, music, short, runs) refl, valid', room)

-- Every other case is refused with the result that names it, and the client stays as it is.
pub set_output_props_handler-refused :
    (data_rate duration : ℕ) (id : ℤ) (m : SessionMgr) (client : MusicIdClient) (h : Heap)
    → is_accepted duration (get_session id m.sessions) ≡ false
    → set_output_props_handler data_rate id duration m client h
      ≡ ok (client, h, refusal (get_session id m.sessions))
unfolding set_output_props_handler get_max_supported_duration
set_output_props_handler-refused data_rate duration id m client h refused =
    refused_case data_rate duration (get_session id m.sessions) client h refused
