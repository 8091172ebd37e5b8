-- ===== src/IpOut/Connections.antt =====
-- src/ip_out.cpp: the connection that is counted, whatever calls are made.
use rdk_audiocapturemgr.Prelude.{
  ℕ, ◌+◌, ◌==◌, ◌≡◌, refl, List, [], ◌∷◌, Bool, true, false, arith, if◌then◌else◌,
}
use rdk_audiocapturemgr.Prelude.Int.{ℤ, pos}
use rdk_audiocapturemgr.Socket.{is_open, is_empty_path}
use rdk_audiocapturemgr.Socket.Worker.{Selected}
use rdk_audiocapturemgr.Socket.Descriptors.{count, at, is_new, count-close_fd, count-open_fd}
use rdk_audiocapturemgr.IpOut.{ltb_ℤ, IpOutClient, drop_connection, close_socket}
use rdk_audiocapturemgr.IpOut.Worker.{process_new_connection, round, worker_thread}

-- The one connection is counted, and the descriptors open are that of the socket and that of the
-- connection, of which none is 0.
pub record IsValid (o : IpOutClient) : Type 0 where
  pub opened : (p : ℕ) → count p o.opened ≡ at p o.listen_fd + at p o.write_fd
  pub counted : o.num_connections ≡ (if is_open o.write_fd then 1 else 0)
  pub new_listen : is_new o.listen_fd ≡ true
  pub new_write : is_new o.write_fd ≡ true

pub drop-IsValid :
    (o : IpOutClient) → IsValid o → is_open o.write_fd ≡ true → IsValid (drop_connection o)
unfolding drop_connection
drop-IsValid o v connected = record {
  opened = λ p. ground (arith, count-close_fd p o.write_fd o.opened, v.opened p);
  counted = ground (arith, v.counted);
  new_listen = ground (arith, v.new_listen);
  new_write = refl;
}

accepted-IsValid :
    (fd : ℤ) (o : IpOutClient)
    → is_new fd ≡ true
    → IsValid o
    → IsValid (process_new_connection fd o)
unfolding process_new_connection drop_connection
accepted-IsValid fd o new v = record {
  opened = λ p. ground (
    arith,
    count-open_fd p fd o.opened,
    count-open_fd p fd (drop_connection o).opened,
    count-close_fd p o.write_fd o.opened,
    v.opened p,
  );
  counted = ground (arith, v.counted);
  new_listen = ground (arith, v.new_listen);
  new_write = new;
}

-- `accept` never returns descriptor 0.
abbrev pub AllNew : List Selected → Type 0
AllNew [] = Unit {0}
AllNew (e ∷ es) = (is_new e.accepted ≡ true) × AllNew es

pub if_either :
    {X : Type 0} (P : X → Type 0) (b : Bool) (x y : X) → P x → P y → P (if b then x else y)
if_either P true x y this that = this
if_either P false x y this that = that

-- What the thread leaves is valid, whether it goes on or not.
abbrev pub NextValid : IpOutClient × Bool → Type 0
NextValid next = IsValid next.0

round-IsValid :
    (e : Selected) (o : IpOutClient) → is_new e.accepted ≡ true → IsValid o → IsValid (round e o).0
unfolding round
round-IsValid e o new v =
    let connected = process_new_connection e.accepted o in
    let served : IpOutClient = if e.connects then connected else o in
    let listened : IpOutClient × Bool = if o.exits == 0 then (served, true) else (o, false) in
    let selected : IpOutClient × Bool = if ltb_ℤ (pos 0) e.ret then listened else (o, true) in
    let served-IsValid =
      if_either IsValid e.connects connected o (accepted-IsValid e.accepted o new v) v in
    if_either NextValid (ltb_ℤ e.ret (pos 0)) (o, false) selected v
      (if_either NextValid (ltb_ℤ (pos 0) e.ret) listened (o, true)
        (if_either NextValid (o.exits == 0) (served, true) (o, false) served-IsValid v) v)

pub worker_thread-IsValid :
    (es : List Selected) (o : IpOutClient) → AllNew es → IsValid o → IsValid (worker_thread es o).0
unfolding worker_thread
worker_thread-IsValid [] o new v = v
worker_thread-IsValid (e ∷ es) o (new, more) v =
    let next = round-IsValid e o new v in
    if_either NextValid (round e o).1 _ (round e o)
      (worker_thread-IsValid es (round e o).0 more next) next

pub closed-opened :
    (o : IpOutClient)
    → IsValid o
    → is_empty_path o.data_path ≡ false
    → (is_open (close_socket o).write_fd ≡ false)
      × ((close_socket o).num_connections ≡ 0)
      × ((p : ℕ) → count p (close_socket o).opened ≡ at p o.listen_fd)
unfolding close_socket drop_connection
closed-opened o v named = (
  ground arith,
  ground (arith, v.counted),
  λ p. ground (arith, count-close_fd p o.write_fd o.opened, v.opened p, v.new_write),
)
