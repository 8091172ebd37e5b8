-- ===== src/Socket.antt =====
-- include/socket_adaptor.h, src/socket_adaptor.cpp: the socket over which clips are delivered. The
-- results of the system calls are arguments. `opened` records the descriptors that the calls opened
-- and did not close again, without those of the control pipe, of which `control` is the content.
pub mod Worker
pub mod Descriptors
pub mod Start
pub mod Connections
pub mod Race
pub mod Tests
use rdk_audiocapturemgr.Prelude.{
  ℕ, zero, suc, ◌+◌, ◌-◌, ◌^◌, List, [], ◌∷◌, ◌++◌, Option, none, some, Bool, true, false, ◌==◌,
  ◌&&◌, not, if◌then◌else◌,
}
use rdk_audiocapturemgr.Prelude.Int.{ℤ, pos, negsuc, ltb_ℤ}
use rdk_audiocapturemgr.Audio.{u32}

pub data ControlCode : Type 0 where
  exit new_callback : ControlCode

-- A callback is the data that it is registered with.
pub record Adaptor : Type 0 where
  pub path : List ℕ
  pub listen_fd : ℤ
  pub write_fd : ℤ
  pub num_connections : ℕ
  pub callback : Option ℕ
  pub control : List ControlCode
  pub joinable : Bool
  pub opened : List ℕ

-- `socket_adaptor::socket_adaptor`.
unfoldable pub socket_adaptor : Adaptor
socket_adaptor = record {
  path = [];
  listen_fd = negsuc 0;
  write_fd = negsuc 0;
  num_connections = 0;
  callback = none;
  control = [];
  joinable = false;
  opened = [];
}

-- `0 < fd`.
abbrev pub is_open : ℤ → Bool
is_open (pos zero) = false
is_open (pos (suc n)) = true
is_open (negsuc n) = false

-- What `close` leaves of the open descriptors; one that is not open is an error without effect.
abbrev pub close_fd : ℤ → List ℕ → List ℕ
close_fd (negsuc n) fds = fds
close_fd (pos n) [] = []
close_fd (pos n) (fd ∷ fds) = let rest = close_fd (pos n) fds in if n == fd then fds else fd ∷ rest

abbrev pub open_fd : ℤ → List ℕ → List ℕ
open_fd (pos n) fds = n ∷ fds
open_fd (negsuc n) fds = fds

-- The connection is closed and forgotten, if there is one: `terminate_current_connection`.
unfoldable pub terminate_current_connection : Adaptor → Adaptor
terminate_current_connection a =
    if is_open a.write_fd
    then record a {
      opened = close_fd a.write_fd a.opened;
      write_fd = negsuc 0;
      num_connections = u32 (a.num_connections + 2 ^ 32 - 1);
    }
    else a

-- `write_data` after a failed write: first `close` without the lock, then the rest under it.
unfoldable pub close_write_fd : Adaptor → Adaptor
close_write_fd a = record a { opened = close_fd a.write_fd a.opened }

unfoldable pub forget_write_fd : Adaptor → Adaptor
forget_write_fd a =
    if is_open a.write_fd
    then record a { write_fd = negsuc 0; num_connections = u32 (a.num_connections + 2 ^ 32 - 1) }
    else a

-- `written` is what `write` returns.
unfoldable pub write_data : ℤ → Adaptor → Adaptor × ℤ
unfolding close_write_fd forget_write_fd
write_data written a =
    (if ltb_ℤ written (pos 0) then forget_write_fd (close_write_fd a) else a, written)

-- The part of `process_new_connection` under the lock; `accepted` is what `accept` returns.
unfoldable pub accept_connection : ℤ → Adaptor → Adaptor
unfolding terminate_current_connection
accept_connection accepted a =
    let a' : Adaptor = terminate_current_connection a in
    record a' {
      write_fd = accepted;
      opened = open_fd accepted a'.opened;
      num_connections =
          if ltb_ℤ accepted (pos 0) then a'.num_connections else u32 (suc a'.num_connections);
    }

unfoldable pub register_data_ready_callback : Option ℕ → Adaptor → Adaptor
register_data_ready_callback none a = record a { callback = none }
register_data_ready_callback (some d) a = record a {
  callback = some d;
  control = a.control ++ (new_callback ∷ []);
}

unfoldable pub get_active_connections : Adaptor → ℕ
get_active_connections a = a.num_connections

-- What `bind` answers: bound, EADDRINUSE or another error.
pub data Bind : Type 0 where
  bound in_use refused : Bind

-- The loop of `start_listening`, over the answers to the attempts that are left. The result is that of
-- the last `bind`.
unfoldable pub bind_loop : List Bind → ℤ → Adaptor → Adaptor × ℤ
bind_loop [] ret a = (a, ret)
bind_loop (bound ∷ answers) ret a = (record a { joinable = true }, pos 0)
bind_loop (in_use ∷ answers) ret a = bind_loop answers (negsuc 0) a
bind_loop (refused ∷ answers) ret a =
    (record a { opened = close_fd a.listen_fd a.opened; listen_fd = negsuc 0 }, negsuc 0)

-- `fd` is what `socket` returns, `first` and `second` are the answers to two attempts to bind; the
-- second is made behind an `unlink` of the path.
unfoldable pub start_listening : List ℕ → ℤ → Bind → Bind → Adaptor → Adaptor × ℤ
unfolding bind_loop
start_listening path fd first second a =
    let a' : Adaptor = record a { path = path; listen_fd = fd; opened = open_fd fd a.opened } in
    if is_open fd then bind_loop (first ∷ second ∷ []) (pos 0) a' else (a', negsuc 0)

abbrev pub is_empty_path : List ℕ → Bool
is_empty_path [] = true
is_empty_path (x ∷ xs) = false

-- The second half of `stop_listening`, after the worker thread.
unfoldable pub close_socket : Adaptor → Adaptor
unfolding terminate_current_connection
close_socket a =
    if is_empty_path a.path then a else record (terminate_current_connection a) { path = [] }

-- `stop_listening`, where `sent` says that the EXIT message was written. Up to that message the worker
-- has emptied the pipe when it is joined; what it does until then are its own calls.
unfoldable pub stop_listening : Bool → Adaptor → Adaptor
unfolding close_socket
stop_listening sent a =
    close_socket (if a.joinable && sent then record a { joinable = false; control = [] } else a)
