-- ===== src/IpOut/Reopened.antt =====
-- src/ip_out.cpp: `close_output` and what becomes of an output that is opened again.
use rdk_audiocapturemgr.Prelude.{
  ==_neg, Bool-cases, ℕ, zero, suc, ◌≡◌, inl, inr, ◌==◌, refl, List, [], ◌∷◌, true, false, ok,
  arith,
}
use rdk_audiocapturemgr.Prelude.Int.{ℤ}
use rdk_audiocapturemgr.Socket.{Bind, bound, in_use, refused, is_open, is_empty_path}
use rdk_audiocapturemgr.Socket.Worker.{Selected}
use rdk_audiocapturemgr.IpOut.{
  u32, open_fd, IpOutClient, sockpath, bind_attempt, retry_loop, open_output, close_socket,
  close_output, drop_connection,
}
use rdk_audiocapturemgr.IpOut.Worker.{round, worker_thread}
use rdk_audiocapturemgr.IpOut.Connections.{IsValid, closed-opened}
use rdk_audiocapturemgr.Socket.Descriptors.{count, at}

-- A field that no attempt changes.
bind_attempt-exits :
    (b : Bind) (ticker : ℕ) (o : IpOutClient) (x : ℕ × IpOutClient)
    → x.1.exits ≡ o.exits
    → x.1.write_fd ≡ o.write_fd
    → ((bind_attempt b ticker o x).1.exits ≡ o.exits)
      × ((bind_attempt b ticker o x).1.write_fd ≡ o.write_fd)
bind_attempt-exits bound ticker o x e w = (refl, refl)
bind_attempt-exits in_use ticker o x e w = (e, w)
bind_attempt-exits refused ticker o x e w = (refl, refl)

retry_loop-exits :
    (bind : List ℕ → Bind) (n ticker : ℕ) (o : IpOutClient)
    → ((retry_loop bind n ticker o).1.exits ≡ o.exits)
      × ((retry_loop bind n ticker o).1.write_fd ≡ o.write_fd)
unfolding retry_loop
retry_loop-exits bind zero ticker o = (refl, refl)
retry_loop-exits bind (suc n) ticker o =
    let (e, w) = retry_loop-exits bind n (u32 (suc ticker)) o in
    bind_attempt-exits (bind (sockpath ticker)) ticker o _ e w

open_output-exits :
    (bind : List ℕ → Bind) (fd : ℤ) (ticker : ℕ) (o : IpOutClient)
    → ((open_output bind fd ticker o).1.exits ≡ o.exits)
      × ((open_output bind fd ticker o).1.write_fd ≡ o.write_fd)
unfolding open_output
open_output-exits bind fd ticker o = ground (
  arith,
  retry_loop-exits bind 6 ticker (record o { listen_fd = fd; opened = open_fd fd o.opened }),
)

close_socket-exits : (o : IpOutClient) → (close_socket o).exits ≡ o.exits
unfolding close_socket drop_connection
close_socket-exits o = ground arith

round-told : (e : Selected) (o : IpOutClient) → (o.exits == 0) ≡ false → (round e o).0 ≡ o
unfolding round
round-told e o told = ground (arith, told)

told_serves_nobody :
    (es : List Selected) (o : IpOutClient) → (o.exits == 0) ≡ false → (worker_thread es o).0 ≡ o
unfolding worker_thread
told_serves_nobody [] o told = refl
told_serves_nobody (e ∷ es) o told = elim (Bool-cases (round e o).1) [
  | inl goes_on ↦ rw (goes_on, round-told e o told) (told_serves_nobody es o told)
  | inr ends ↦ rw ends (round-told e o told)
]

no_path : (path : List ℕ) → is_empty_path path ≡ true → path ≡ []
no_path [] empty = refl
no_path (x ∷ xs) empty = cc

close_socket-path : (o : IpOutClient) → (close_socket o).data_path ≡ []
unfolding close_socket
close_socket-path o = elim (Bool-cases (is_empty_path o.data_path)) [
  | inl empty ↦ rw empty (no_path o.data_path empty)
  | inr named ↦ rw named refl
]

stopped-IsValid :
    (o : IpOutClient) → IsValid o → IsValid (record o { exits = suc o.exits; joinable = false })
stopped-IsValid o v = record {
  opened = v.opened;
  counted = v.counted;
  new_listen = v.new_listen;
  new_write = v.new_write;
}

-- close_output on a valid client with a path and a thread returns with no connection and no path
-- and with its socket open. If the client is then opened again, the EXIT message is still in the
-- pipe: whatever select returns, the new thread accepts no connection and leaves the client as it
-- is.
pub reopened_serves_nobody :
    (o : IpOutClient) (bind : List ℕ → Bind) (fd : ℤ) (ticker : ℕ) (es : List Selected)
    → IsValid o
    → o.joinable ≡ true
    → is_empty_path o.data_path ≡ false
    → (o' : IpOutClient) × (close_output true o ≡ ok o')
      × (o'.data_path ≡ [])
      × (o'.num_connections ≡ 0)
      × ((p : ℕ) → count p o'.opened ≡ at p o.listen_fd)
      × (let again = (open_output bind fd ticker o').1 in
          (is_open again.write_fd ≡ false) × ((worker_thread es again).0 ≡ again))
unfolding close_output
reopened_serves_nobody o bind fd ticker es v joinable named =
    let stopped : IpOutClient = record o { exits = suc o.exits; joinable = false } in
    let (closed, none_counted, left) = closed-opened stopped (stopped-IsValid o v) named in
    let (exits, write_fd) = open_output-exits bind fd ticker (close_socket stopped) in
    (
      close_socket stopped,
      rw joinable refl,
      close_socket-path stopped,
      none_counted,
      left,
      (
        rw write_fd closed,
        told_serves_nobody es _
            (rw (exits, close_socket-exits stopped) (==_neg (λ e. omega (arith, e)))),
      ),
    )
