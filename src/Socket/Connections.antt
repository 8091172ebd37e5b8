-- ===== src/Socket/Connections.antt =====
-- The connections of the socket adaptor from its start to its stop, if the calls do not overlap.
use rdk_audiocapturemgr.Prelude.{
  Bool, ℕ, ◌≡◌, refl, List, [], ◌∷◌, Option, none, some, true, false, arith, sym,
}
use rdk_audiocapturemgr.Prelude.Int.{ℤ}
use rdk_audiocapturemgr.Socket.{
  Adaptor, socket_adaptor, Bind, is_open, terminate_current_connection, write_data,
  accept_connection, register_data_ready_callback, start_listening, stop_listening, is_empty_path,
}
use rdk_audiocapturemgr.Socket.Descriptors.{
  count, at, is_new, IsValid, terminate-IsValid, accept-IsValid, write-IsValid,
  stop_listening-opened,
}
use rdk_audiocapturemgr.Socket.Start.{listen_after, start_listening-IsValid}

-- The calls of other threads and of the worker, as one after the other.
pub data Call : Type 0 where
  accepts : ℤ → Call
  writes : ℤ → Call
  terminates : Call
  registers : Option ℕ → Call

unfoldable pub call : Call → Adaptor → Adaptor
call (accepts fd) a = accept_connection fd a
call (writes written) a = (write_data written a).0
call terminates a = terminate_current_connection a
call (registers cb) a = register_data_ready_callback cb a

unfoldable pub calls : List Call → Adaptor → Adaptor
calls [] a = a
calls (c ∷ cs) a = calls cs (call c a)

-- `accept` never returns descriptor 0.
abbrev pub AllNew : List Call → Type 0
AllNew [] = Unit {0}
AllNew (accepts fd ∷ cs) = (is_new fd ≡ true) × AllNew cs
AllNew (c ∷ cs) = AllNew cs

call-IsValid :
    (c : Call) (cs : List Call) (a : Adaptor) → AllNew (c ∷ cs) → IsValid a → IsValid (call c a)
unfolding call register_data_ready_callback
call-IsValid (accepts fd) cs a new v = accept-IsValid fd a new.0 v
call-IsValid (writes written) cs a new v = write-IsValid written a v
call-IsValid terminates cs a new v = terminate-IsValid a v
call-IsValid (registers none) cs a new v = ground (arith, v)
call-IsValid (registers (some d)) cs a new v = ground (arith, v)

AllNew-tail : (c : Call) (cs : List Call) → AllNew (c ∷ cs) → AllNew cs
AllNew-tail (accepts fd) cs new = new.1
AllNew-tail (writes written) cs new = new
AllNew-tail terminates cs new = new
AllNew-tail (registers cb) cs new = new

pub calls-IsValid : (cs : List Call) (a : Adaptor) → AllNew cs → IsValid a → IsValid (calls cs a)
unfolding calls
calls-IsValid [] a new v = v
calls-IsValid (c ∷ cs) a new v =
    calls-IsValid cs (call c a) (AllNew-tail c cs new) (call-IsValid c cs a new v)

call-path :
    (c : Call) (a : Adaptor) → ((call c a).path ≡ a.path) × ((call c a).listen_fd ≡ a.listen_fd)
unfolding call accept_connection terminate_current_connection write_data
    register_data_ready_callback
call-path (accepts fd) a = ground arith
call-path (writes written) a = ground arith
call-path terminates a = ground arith
call-path (registers none) a = ground arith
call-path (registers (some d)) a = ground arith

calls-path :
    (cs : List Call) (a : Adaptor)
    → ((calls cs a).path ≡ a.path) × ((calls cs a).listen_fd ≡ a.listen_fd)
unfolding calls
calls-path [] a = (refl, refl)
calls-path (c ∷ cs) a = ground (arith, calls-path cs (call c a), call-path c a)

-- From the start of a socket adaptor on a path, with a socket under a descriptor above 0, through
-- any calls that do not overlap and in which accept never returns 0: the one connection is counted,
-- and exactly its descriptor and that of the socket are open. Once the adaptor is stopped, no
-- connection is counted or open. The descriptor of the socket, which stop_listening does not close,
-- still is, unless bind failed with another error than EADDRINUSE, where start_listening closed it.
pub stop_listening-calls :
    (path : List ℕ) (fd : ℤ) (first second : Bind) (cs : List Call) (sent : Bool)
    → is_open fd ≡ true
    → is_empty_path path ≡ false
    → AllNew cs
    → (let a = calls cs (start_listening path fd first second socket_adaptor).0 in
        let a' = stop_listening sent a in
        IsValid a
        × (is_open a'.write_fd ≡ false)
        × (a'.num_connections ≡ 0)
        × ((p : ℕ) → count p a'.opened ≡ at p (listen_after fd first second)))
stop_listening-calls path fd first second cs sent good named new =
    let (v, same_path, same_fd) = start_listening-IsValid path fd first second good in
    let (kept_path, kept_fd) =
      calls-path cs (start_listening path fd first second socket_adaptor).0 in
    let v' = calls-IsValid cs (start_listening path fd first second socket_adaptor).0 new v in
    let (closed, none_counted, left) =
      stop_listening-opened sent _ v' (rw (kept_path, same_path) named) in
    (v', closed, none_counted, rw (sym same_fd, sym kept_fd) left)
