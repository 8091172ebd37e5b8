-- ===== src/Sessions.antt =====
-- include/acm_session_mgr.h, src/acm_session_mgr.cpp: the sessions that other processes open over
-- IARM. A handler takes the arguments it reads from its message and returns the result it writes
-- there. There is one source, MAX_SUPPORTED_SOURCES being 1. A client is an address, never used again;
-- its own state is not part of this model.
pub mod Props
pub mod Registered
pub mod Apart
pub mod Valid
pub mod Calls
pub mod Lookup
pub mod Handlers
pub mod Samples
pub mod Delivered
pub mod Tests
mod SampleTests
use rdk_audiocapturemgr.Prelude.{
  Result, ok, ◌>>=◌, ℕ, zero, suc, ◌+◌, Option, none, some, List, [], ◌∷◌, ◌++◌, Bool, true, false,
  ◌==◌, ◌&&◌, ◌||◌, if◌then◌else◌, ◌^◌,
}
use rdk_audiocapturemgr.Prelude.Int.{ℤ, pos, negsuc}
use rdk_audiocapturemgr.QMgr.{QMgr, q_mgr}
use rdk_audiocapturemgr.Audio.{CaptureLibrary, u32}
use rdk_audiocapturemgr.QMgr.Clients.{register_client, unregister_client}

-- `unsupported n` is the value n + 2, from MAX_SUPPORTED_OUTPUT_TYPES on.
pub data OutputType : Type 0 where
  buffered_file_output realtime_socket : OutputType
  unsupported : ℕ → OutputType

abbrev pub is_buffered : OutputType → Bool
is_buffered buffered_file_output = true
is_buffered _ = false

abbrev pub is_unsupported : OutputType → Bool
is_unsupported (unsupported n) = true
is_unsupported _ = false

abbrev pub acm_result_success : ℤ
acm_result_success = pos 0

abbrev pub acm_result_unsupported_api : ℤ
acm_result_unsupported_api = pos 1

abbrev pub acm_result_duration_out_of_bounds : ℤ
acm_result_duration_out_of_bounds = pos 3

abbrev pub acm_result_bad_session_id : ℤ
acm_result_bad_session_id = pos 4

abbrev pub acm_result_invalid_arguments : ℤ
acm_result_invalid_arguments = pos 5

abbrev pub acm_result_general_failure : ℤ
acm_result_general_failure = pos 6

pub record Session : Type 0 where
  pub session_id : ℕ
  pub client : ℕ
  pub source : ℕ
  pub enable : Bool
  pub output_type : OutputType

-- `sources` is `m_sources[0]`; `next_client` is the address of the next object. The counter and the ids
-- are `int`s, kept as their 32 bits: behind 2 ^ 31 - 1 an overflow of the counter is taken to wrap.
pub record SessionMgr : Type 0 where
  pub sessions : List Session
  pub sources : QMgr
  pub session_counter : ℕ
  pub next_client : ℕ

unfoldable pub acm_session_mgr : CaptureLibrary → Result SessionMgr
acm_session_mgr lib = do
  q ← q_mgr lib
  ok (record { sessions = []; sources = q; session_counter = 0; next_client = 0 })

-- The `int` with the bits n.
abbrev pub is_id : ℤ → ℕ → Bool
is_id (pos m) n = m == n
is_id (negsuc m) n = m + n + 1 == 2 ^ 32

-- The unsigned limit makes a negative source a large one.
abbrev pub is_bad_source : ℤ → Bool
is_bad_source (pos zero) = false
is_bad_source _ = true

unfoldable pub get_session : ℤ → List Session → Option Session
get_session id [] = none
get_session id (s ∷ ss) = if is_id id s.session_id then some s else get_session id ss

-- `erase` of the session found first.
unfoldable pub erase_session : ℤ → List Session → List Session
erase_session id [] = []
erase_session id (s ∷ ss) =
    let rest : List Session = erase_session id ss in if is_id id s.session_id then ss else s ∷ rest

-- An assignment to `ptr->enable`, where ptr is the session found.
unfoldable pub set_enable : ℤ → Bool → List Session → List Session
set_enable id b [] = []
set_enable id b (s ∷ ss) =
    let rest : List Session = set_enable id b ss in
    if is_id id s.session_id then record s { enable = b } ∷ ss else s ∷ rest

-- The search for another session of a music id client with the same source.
abbrev pub is_duplicate : ℕ → Session → Bool
is_duplicate source s = is_buffered s.output_type && s.source == source

unfoldable pub find_duplicate : ℕ → List Session → Option Session
find_duplicate source [] = none
find_duplicate source (s ∷ ss) = if is_duplicate source s then some s else find_duplicate source ss

unfoldable pub erase_duplicate : ℕ → List Session → List Session
erase_duplicate source [] = []
erase_duplicate source (s ∷ ss) =
    let rest : List Session = erase_duplicate source ss in
    if is_duplicate source s then ss else s ∷ rest

-- `duplicate_session->client->stop()` and the two deletions.
unfoldable pub destroy_duplicate : ℤ → Option Session → SessionMgr → SessionMgr
destroy_duplicate stop_ret none m = m
destroy_duplicate stop_ret (some s) m = record m {
  sources = (unregister_client stop_ret s.client m.sources).0;
}

-- The session created, which takes the place of the duplicate, if there is one. The result comes with
-- the session's id.
unfoldable pub open_handler : ℤ → ℤ → OutputType → SessionMgr → SessionMgr × ℤ × Option ℕ
unfolding destroy_duplicate find_duplicate erase_duplicate
open_handler stop_ret source output_type m =
    if is_bad_source source || is_unsupported output_type
    then (m, acm_result_invalid_arguments, none)
    else (let new_session : Session = record {
      session_id = m.session_counter;
      client = m.next_client;
      source = 0;
      enable = false;
      output_type = output_type;
    } in
        let music : Bool = is_buffered output_type in
        let kept : List Session = if music then erase_duplicate 0 m.sessions else m.sessions in
        (
          destroy_duplicate stop_ret (if music then find_duplicate 0 m.sessions else none)
              (record m {
                sessions = kept ++ (new_session ∷ []);
                session_counter = u32 (suc m.session_counter);
                next_client = suc m.next_client;
              }),
          acm_result_success,
          some m.session_counter,
        ))

unfoldable pub close_session : ℤ → Option Session → SessionMgr → SessionMgr × ℤ
close_session stop_ret none m = (m, acm_result_bad_session_id)
close_session stop_ret (some s) m = (
  if s.enable then record m { sources = (unregister_client stop_ret s.client m.sources).0 } else m,
  acm_result_success,
)

unfoldable pub close_handler : ℤ → ℤ → SessionMgr → SessionMgr × ℤ
unfolding close_session get_session erase_session
close_handler stop_ret id m =
    close_session stop_ret (get_session id m.sessions)
      (record m { sessions = erase_session id m.sessions })

unfoldable pub start_session : ℤ → ℤ → Option Session → SessionMgr → SessionMgr × ℤ
start_session start_ret id none m = (m, acm_result_bad_session_id)
start_session start_ret id (some s) m = (
  if s.enable then m else record m {
    sources = (register_client start_ret s.client m.sources).0;
    sessions = set_enable id true m.sessions;
  },
  acm_result_success,
)

unfoldable pub start_handler : ℤ → ℤ → SessionMgr → SessionMgr × ℤ
unfolding start_session get_session set_enable
start_handler start_ret id m = start_session start_ret id (get_session id m.sessions) m

unfoldable pub stop_session : ℤ → ℤ → Option Session → SessionMgr → SessionMgr × ℤ
stop_session stop_ret id none m = (m, acm_result_bad_session_id)
stop_session stop_ret id (some s) m = (
  if s.enable
      then record m {
        sources = (unregister_client stop_ret s.client m.sources).0;
        sessions = set_enable id false m.sessions;
      }
      else m,
  acm_result_success,
)

unfoldable pub stop_handler : ℤ → ℤ → SessionMgr → SessionMgr × ℤ
unfolding stop_session get_session set_enable
stop_handler stop_ret id m = stop_session stop_ret id (get_session id m.sessions) m
