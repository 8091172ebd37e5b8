-- ===== src/Socket/Race.antt =====
-- src/socket_adaptor.cpp: `write_data` closes the connection without the lock.
use rdk_audiocapturemgr.Prelude.{ℕ, ◌+◌, ◌≤◌, ◌≡◌, ◌≢◌, true, arith, ==_iff}
use rdk_audiocapturemgr.Prelude.Int.{ℤ, pos, negsuc}
use rdk_audiocapturemgr.Socket.{
  Adaptor, is_open, close_fd, terminate_current_connection, close_write_fd, forget_write_fd,
  accept_connection,
}
use rdk_audiocapturemgr.Socket.Descriptors.{count, at, IsValid, count-close_fd, count-open_fd}

at_one : (p : ℕ) (a b : ℤ) → a ≢ b → at p a + at p b ≤ 1
at_one p (negsuc m) b apart = ground arith
at_one p (pos m) (negsuc n) apart = ground arith
at_one p (pos m) (pos n) apart = ground (arith, ==_iff p m, ==_iff p n)

-- If a write fails on the connection of a valid adaptor, and before the writing thread takes the
-- lock to forget the connection the worker accepts a new one under a descriptor above 0, it is the
-- new connection that is forgotten: its descriptor stays open, in no field, and no connection is
-- counted.
pub forget_write_fd-leaks :
    (a : Adaptor) (fd : ℤ)
    → IsValid a
    → is_open a.write_fd ≡ true
    → is_open fd ≡ true
    → a.listen_fd ≢ a.write_fd
    → (let a' = forget_write_fd (accept_connection fd (close_write_fd a)) in
        (a'.write_fd ≡ negsuc 0)
        × (a'.num_connections ≡ 0)
        × ((p : ℕ) → count p a'.opened ≡ at p a'.listen_fd + at p fd))
unfolding forget_write_fd accept_connection close_write_fd terminate_current_connection
forget_write_fd-leaks a fd v connected good apart = (
  ground arith,
  ground (arith, v.counted),
  λ p.
      rw (connected, good)
        (omega (
          arith,
          count-open_fd p fd (close_fd a.write_fd (close_fd a.write_fd a.opened)),
          count-close_fd p a.write_fd (close_fd a.write_fd a.opened),
          count-close_fd p a.write_fd a.opened,
          v.opened p,
          at_one p a.listen_fd a.write_fd apart,
        )),
)
