-- ===== src/Daemon/Bus.antt =====
-- src/acm_session_mgr.cpp, src/acm_main.cpp: the calls that are registered with IARM, and the functions
-- that they reach. IARM is a parameter: a registry of functions under names.
use rdk_audiocapturemgr.Music.{MusicIdClient}
use rdk_audiocapturemgr.Prelude.{
  ℕ, ◌≡◌, refl, Option, none, some, Bool, Result, ok, ◌==◌, if◌then◌else◌,
}
use rdk_audiocapturemgr.Prelude.Int.{ℤ}
use rdk_audiocapturemgr.IpOut.{IpOutClient, initial}
use rdk_audiocapturemgr.Sessions.{OutputType, Session, get_session}
use rdk_audiocapturemgr.Sessions.Handlers.{get_default_audio_props_handler, get_audio_props_handler}
use rdk_audiocapturemgr.Sessions.Samples.{get_output_props_handler}
use rdk_audiocapturemgr.Sessions.Props.{AcmProperties}
use rdk_audiocapturemgr.Daemon.{Daemon, Outside, music, ip_out}
use rdk_audiocapturemgr.Daemon.Messages.{
  opens, closes, starts, stops, sets_audio, sets_output, requests, handle,
}

-- IARMBUS_AUDIOCAPTUREMGR_REQUEST_SAMPLE and the other names.
pub data CallName : Type 0 where
  name_request_sample name_open name_close name_start name_stop : CallName
  name_get_default_audio_props name_get_audio_props name_get_output_props : CallName
  name_set_audio_properties name_set_output_properties : CallName

abbrev pub number_of : CallName → ℕ
number_of name_request_sample = 0
number_of name_open = 1
number_of name_close = 2
number_of name_start = 3
number_of name_stop = 4
number_of name_get_default_audio_props = 5
number_of name_get_audio_props = 6
number_of name_get_output_props = 7
number_of name_set_audio_properties = 8
number_of name_set_output_properties = 9

-- The static functions that call a handler of the one session manager.
pub data Handler : Type 0 where
  request_sample open_session close_session start_session stop_session : Handler
  get_default_audio_props get_audio_props get_output_props : Handler
  set_audio_props set_output_props : Handler

-- What the code relies on of IARM: a function that is registered under a name is the one found there,
-- and the other names are as before.
pub record Bus : Type 1 where
  pub Registry : Type 0
  pub register_call : Registry → CallName → Handler → Registry × ℤ
  pub called : Registry → CallName → Option Handler
  pub called-register_call :
      (r : Registry) (n n' : CallName) (f : Handler)
      → called (register_call r n f).0 n'
        ≡ (if number_of n' == number_of n then some f else called r n')

module _ (bus : Bus) where
  open bus use {Registry, register_call, called, called-register_call}

  -- The ten registrations of `activate`; the result is that of the last one.
  unfoldable pub activate : Registry → Registry × ℤ
  activate r =
      let r₁ = (register_call r name_request_sample request_sample).0 in
      let r₂ = (register_call r₁ name_open open_session).0 in
      let r₃ = (register_call r₂ name_close close_session).0 in
      let r₄ = (register_call r₃ name_start start_session).0 in
      let r₅ = (register_call r₄ name_stop stop_session).0 in
      let r₆ = (register_call r₅ name_get_default_audio_props get_default_audio_props).0 in
      let r₇ = (register_call r₆ name_get_audio_props get_audio_props).0 in
      let r₈ = (register_call r₇ name_get_output_props get_output_props).0 in
      let r₉ = (register_call r₈ name_set_audio_properties set_audio_props).0 in
      register_call r₉ name_set_output_properties set_output_props

-- The member of the message's union that a call reads, and its session id.
pub record AcmArg : Type 0 where
  pub session_id : ℤ
  pub source : ℤ
  pub output_type : OutputType
  pub audio_properties : AcmProperties
  pub max_buffer_duration : ℕ
  pub is_precapture : Bool
  pub duration : ℕ

-- The IP output client of a session, whose path is read; another session's client is not read.
abbrev output_client : Option Session → Daemon → IpOutClient
output_client none d = initial
output_client (some s) d = elim (d.objects s.client) [
  | none ↦ initial
  | some object ↦ elim object [ music m ↦ initial | ip_out client ↦ client ]
]

-- The music id client of a session.
abbrev music_client : Option Session → Daemon → Option MusicIdClient
music_client none d = none
music_client (some s) d = elim (d.objects s.client) [
  | none ↦ none
  | some object ↦ elim object [ music m ↦ some m.client | ip_out client ↦ none ]
]

-- What a static function does with its message.
unfoldable pub invoke : Outside → Handler → AcmArg → Daemon → Result (Daemon × ℤ)
invoke o request_sample a d = handle o (requests a.session_id a.is_precapture a.duration) d
invoke o open_session a d = handle o (opens a.source a.output_type) d
invoke o close_session a d = handle o (closes a.session_id) d
invoke o start_session a d = handle o (starts a.session_id) d
invoke o stop_session a d = handle o (stops a.session_id) d
invoke o get_default_audio_props a d =
    ok (d, (get_default_audio_props_handler a.session_id o.lib.default_settings d.mgr).1)
invoke o get_audio_props a d =
    let client = music_client (get_session a.session_id d.mgr.sessions) d in
    ok (d, (get_audio_props_handler a.session_id client d.mgr).1)
invoke o get_output_props a d =
    let client = output_client (get_session a.session_id d.mgr.sessions) d in
    ok (d, (get_output_props_handler a.session_id d.mgr client).1)
invoke o set_audio_props a d = handle o (sets_audio a.session_id a.audio_properties) d
invoke o set_output_props a d = handle o (sets_output a.session_id a.max_buffer_duration) d

-- The function that belongs to a name.
abbrev pub handler_of : CallName → Handler
handler_of name_request_sample = request_sample
handler_of name_open = open_session
handler_of name_close = close_session
handler_of name_start = start_session
handler_of name_stop = stop_session
handler_of name_get_default_audio_props = get_default_audio_props
handler_of name_get_audio_props = get_audio_props
handler_of name_get_output_props = get_output_props
handler_of name_set_audio_properties = set_audio_props
handler_of name_set_output_properties = set_output_props

-- Behind `activate` a call of each of the ten names reaches the function that belongs to it, whatever
-- was registered before.
pub activate-called :
    (bus : Bus) (r : bus.Registry) (n : CallName)
    → bus.called (activate bus r).0 n ≡ some (handler_of n)
unfolding activate
activate-called bus r name_request_sample = simp bus.called-register_call refl
activate-called bus r name_open = simp bus.called-register_call refl
activate-called bus r name_close = simp bus.called-register_call refl
activate-called bus r name_start = simp bus.called-register_call refl
activate-called bus r name_stop = simp bus.called-register_call refl
activate-called bus r name_get_default_audio_props = simp bus.called-register_call refl
activate-called bus r name_get_audio_props = simp bus.called-register_call refl
activate-called bus r name_get_output_props = simp bus.called-register_call refl
activate-called bus r name_set_audio_properties = simp bus.called-register_call refl
activate-called bus r name_set_output_properties = simp bus.called-register_call refl
