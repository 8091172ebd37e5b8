-- ===== src/IpOut/Contract.antt =====
-- The IP output client as a client of the queue manager: it writes a buffer out and gives it up.
use rdk_audiocapturemgr.Prelude.{
  if◌then◌else◌, inr, inl, Bool-cases, ℕ, ◌<◌, ◌^◌, ◌≡◌, refl, some, true, false, ok, arith,
}
use rdk_audiocapturemgr.Prelude.Int.{ℤ, pos, ltb_ℤ}
use rdk_audiocapturemgr.Buffer.{Buffer, Heap}
use rdk_audiocapturemgr.QMgr.BaseClient.{release_buffer, release_buffer-Took}
use rdk_audiocapturemgr.QMgr.Delivery.{ClientLaws, ClientOps, Took}
use rdk_audiocapturemgr.Music.Held.{load-some}
use rdk_audiocapturemgr.Socket.{is_open}
use rdk_audiocapturemgr.IpOut.{IpOutClient, drop_connection, data_callback}
use rdk_audiocapturemgr.IpOut.Connections.{if_either, IsValid, drop-IsValid}

-- All clients of the class in one state: the one client there is. `write` is what the system call returns.
abbrev pub ip_out_ops : (ℕ → IpOutClient → ℤ) → ClientOps IpOutClient
ip_out_ops write = record { data_callback = λ c p h o. data_callback (write p o) p h o }

abbrev pub after_write : ℤ → IpOutClient → IpOutClient
after_write written o =
    if is_open o.write_fd then (if ltb_ℤ written (pos 0) then drop_connection o else o) else o

-- The callback comes to the release of the buffer, and to what a failed write does to the client.
pub data_callback-releases :
    (written : ℤ) (p : ℕ) (h h' : Heap) (o : IpOutClient) (b : Buffer)
    → h.cell p ≡ some b
    → release_buffer p h ≡ ok h'
    → data_callback written p h o ≡ ok (h', after_write written o)
unfolding data_callback
data_callback-releases written p h h' o b e released = elim (Bool-cases (is_open o.write_fd)) [
  | inl connected ↦ rw (connected, load-some p h b e, released) refl
  | inr alone ↦ rw (alone, released) refl
]

pub data_callback-Took :
    (written : ℤ) (p : ℕ) (h : Heap) (o : IpOutClient) (b : Buffer)
    → h.cell p ≡ some b
    → 0 < b.refcount
    → b.refcount < 2 ^ 32
    → (h' : Heap) × (data_callback written p h o ≡ ok (h', after_write written o))
      × Took (λ q. 0) (λ q. 0) p h h'
data_callback-Took written p h o b e held fits =
    let (h', released, took) = release_buffer-Took p h b e held fits in
    (h', data_callback-releases written p h h' o b e released, took)

after_write-IsValid : (written : ℤ) (o : IpOutClient) → IsValid o → IsValid (after_write written o)
after_write-IsValid written o v = elim (Bool-cases (is_open o.write_fd)) [
  | inl connected ↦ rw connected (
      if_either IsValid (ltb_ℤ written (pos 0)) (drop_connection o) o (drop-IsValid o v connected)
        v)
  | inr alone ↦ rw alone v
]

failed_write :
    (written : ℤ) (o : IpOutClient)
    → ltb_ℤ written (pos 0) ≡ true
    → is_open (after_write written o).write_fd ≡ false
unfolding drop_connection
failed_write written o fails = ground arith

-- For a buffer with one or more references to it, fewer than 2 ^ 32, and a valid client, whatever
-- write returns: the callback returns, has given up the one reference it was given, and keeps the
-- client valid; after a failed write no connection is left.
pub data_callback-writes :
    (written : ℤ) (p : ℕ) (h : Heap) (o : IpOutClient) (b : Buffer)
    → h.cell p ≡ some b
    → 0 < b.refcount
    → b.refcount < 2 ^ 32
    → IsValid o
    → (h' : Heap) × (o' : IpOutClient) × (data_callback written p h o ≡ ok (h', o'))
      × Took (λ q. 0) (λ q. 0) p h h'
      × IsValid o'
      × (ltb_ℤ written (pos 0) ≡ true → is_open o'.write_fd ≡ false)
data_callback-writes written p h o b e held fits v =
    let (h', returns, took) = data_callback-Took written p h o b e held fits in
    (
      h',
      after_write written o,
      returns,
      took,
      after_write-IsValid written o v,
      λ fails. failed_write written o fails,
    )

-- The class keeps the contract of the queue manager's clients.
abbrev pub ip_out_laws : (write : ℕ → IpOutClient → ℤ) → ClientLaws IpOutClient (ip_out_ops write)
ip_out_laws write = record {
  held = λ o p. 0;
  takes_one = λ c p h o b e held fits.
      let (h', returns, took) = data_callback-Took (write p o) p h o b e held fits in
      (h', after_write (write p o) o, returns, took);
}
