-- ===== src/IpOut.antt =====
-- include/ip_out.h, src/ip_out.cpp: the client that writes the audio into a UNIX socket. The results of
-- the system calls are arguments; the code under one lock is one step. `opened` records the
-- descriptors that the calls opened and did not close again, without the control pipe's.
pub mod Worker
pub mod Opening
pub mod Connections
pub mod Contract
pub mod Reopened
pub mod Tests
use rdk_audiocapturemgr.Prelude.{
  ℕ, zero, suc, ◌+◌, ◌-◌, ◌^◌, List, [], ◌∷◌, ◌++◌, Bool, true, false, Result, ok, err, no_thread,
  ◌>>=◌, if◌then◌else◌,
}
use rdk_audiocapturemgr.Prelude.Int.{ℤ, pos, negsuc, ltb_ℤ}
use rdk_audiocapturemgr.Audio.{u32, get_suffix}
use rdk_audiocapturemgr.Buffer.{Heap, load}
use rdk_audiocapturemgr.QMgr.BaseClient.{release_buffer}
use rdk_audiocapturemgr.Socket.{
  Bind, bound, in_use, refused, is_open, close_fd, open_fd, is_empty_path,
}

-- `exits` counts the EXIT messages in the control pipe. `joinable` says that `m_thread` is a thread that
-- was created and not joined.
pub record IpOutClient : Type 0 where
  pub data_path : List ℕ
  pub listen_fd : ℤ
  pub write_fd : ℤ
  pub num_connections : ℕ
  pub exits : ℕ
  pub joinable : Bool
  pub opened : List ℕ

-- "/tmp/acm_ip_out_".
abbrev pub sockname_prefix : List ℕ
sockname_prefix =
    47 ∷ 116 ∷ 109 ∷ 112 ∷ 47 ∷ 97 ∷ 99 ∷ 109 ∷ 95 ∷ 105 ∷ 112 ∷ 95 ∷ 111 ∷ 117 ∷ 116 ∷ 95 ∷ []

-- The members before the constructor's body.
abbrev pub initial : IpOutClient
initial = record {
  data_path = [];
  listen_fd = negsuc 0;
  write_fd = negsuc 0;
  num_connections = 0;
  exits = 0;
  joinable = false;
  opened = [];
}

-- The connection is closed and forgotten.
unfoldable pub drop_connection : IpOutClient → IpOutClient
drop_connection o = record o {
  opened = close_fd o.write_fd o.opened;
  write_fd = negsuc 0;
  num_connections = u32 (o.num_connections + 2 ^ 32 - 1);
}

-- `written` is what `write` returns for the buffer at p.
unfoldable pub data_callback : ℤ → ℕ → Heap → IpOutClient → Result (Heap × IpOutClient)
unfolding drop_connection
data_callback written p h o = do
  o' ←
      if is_open o.write_fd
      then (load p h >>= λ b. ok (if ltb_ℤ written (pos 0) then drop_connection o else o))
      else ok o
  h' ← release_buffer p h
  ok (h', o')

unfoldable pub get_data_path : IpOutClient → List ℕ
get_data_path o = o.data_path

-- The path that an attempt binds to.
abbrev pub sockpath : ℕ → List ℕ
sockpath ticker = sockname_prefix ++ get_suffix ticker

-- What an attempt does with the answer of `bind`; `retried` is what the attempts after it do.
abbrev pub bind_attempt : Bind → ℕ → IpOutClient → ℕ × IpOutClient → ℕ × IpOutClient
bind_attempt bound ticker o retried =
    (u32 (suc ticker), record o { data_path = sockpath ticker; joinable = true })
bind_attempt in_use ticker o retried = retried
bind_attempt refused ticker o retried =
    (u32 (suc ticker), record o { opened = close_fd o.listen_fd o.opened; listen_fd = negsuc 0 })

-- The loop of `open_output`; `bind` answers to a path, and the counter `ticker` belongs to all clients.
unfoldable pub retry_loop : (List ℕ → Bind) → ℕ → ℕ → IpOutClient → ℕ × IpOutClient
retry_loop bind zero ticker o = (ticker, o)
retry_loop bind (suc num_retries) ticker o =
    bind_attempt (bind (sockpath ticker)) ticker o
      (retry_loop bind num_retries (u32 (suc ticker)) o)

-- `fd` is what `socket` returns.
unfoldable pub open_output : (List ℕ → Bind) → ℤ → ℕ → IpOutClient → ℕ × IpOutClient
unfolding retry_loop
open_output bind fd ticker o =
    let o' : IpOutClient = record o { listen_fd = fd; opened = open_fd fd o.opened } in
    if is_empty_path o.data_path
    then (if ltb_ℤ fd (pos 0) then (ticker, o') else retry_loop bind 6 ticker o')
    else (ticker, o)

-- `ip_out_client::ip_out_client`.
unfoldable pub ip_out_client : (List ℕ → Bind) → ℤ → ℕ → ℕ × IpOutClient
unfolding open_output
ip_out_client bind fd ticker = open_output bind fd ticker initial

-- The part of `close_output` behind the worker thread.
unfoldable pub close_socket : IpOutClient → IpOutClient
unfolding drop_connection
close_socket o =
    if is_empty_path o.data_path
    then o
    else (let o' : IpOutClient = if is_open o.write_fd then drop_connection o else o in
        record o' { data_path = [] })

-- `sent` says that the EXIT message was written. The thread does not take it out of the pipe.
unfoldable pub close_output : Bool → IpOutClient → Result IpOutClient
unfolding close_socket
close_output false o = ok (close_socket o)
close_output true o =
    if o.joinable
    then ok (close_socket (record o { exits = suc o.exits; joinable = false }))
    else err no_thread
