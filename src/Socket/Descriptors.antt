-- ===== src/Socket/Descriptors.antt =====
-- The descriptors that are open and the connection that is counted, and the parts of the socket adaptor
-- that keep both right.
use rdk_audiocapturemgr.Prelude.{
  ℕ, zero, ◌+◌, ◌-◌, ◌≡◌, List, [], ◌∷◌, Bool, true, false, ◌==◌, if◌then◌else◌, arith, ==_iff,
}
use rdk_audiocapturemgr.Prelude.Int.{ℤ, pos, negsuc}
use rdk_audiocapturemgr.Socket.{
  Adaptor, is_open, close_fd, open_fd, terminate_current_connection, write_data, accept_connection,
  stop_listening, is_empty_path,
}

-- How often the descriptor p is in a list, and whether it is the one in a field.
abbrev pub count : ℕ → List ℕ → ℕ
count p [] = 0
count p (q ∷ qs) = (if p == q then 1 else 0) + count p qs

abbrev pub at : ℕ → ℤ → ℕ
at p (negsuc n) = 0
at p (pos n) = if p == n then 1 else 0

-- Descriptor 0 is standard input, which the process has from the start.
abbrev pub is_new : ℤ → Bool
is_new (pos zero) = false
is_new _ = true

-- The descriptors open are that of the socket and that of the connection, the one connection is
-- counted, and no descriptor is 0.
pub record IsValid (a : Adaptor) : Type 0 where
  pub opened : (p : ℕ) → count p a.opened ≡ at p a.listen_fd + at p a.write_fd
  pub counted : a.num_connections ≡ (if is_open a.write_fd then 1 else 0)
  pub new_listen : is_new a.listen_fd ≡ true
  pub new_write : is_new a.write_fd ≡ true

pub count-close_fd :
    (p : ℕ) (fd : ℤ) (fds : List ℕ) → count p (close_fd fd fds) ≡ count p fds - at p fd
count-close_fd p (negsuc n) fds = omega arith
count-close_fd p (pos n) [] = ground arith
count-close_fd p (pos n) (q ∷ fds) =
    ground (arith, count-close_fd p (pos n) fds, ==_iff p n, ==_iff p q, ==_iff n q)

pub count-open_fd :
    (p : ℕ) (fd : ℤ) (fds : List ℕ) → count p (open_fd fd fds) ≡ count p fds + at p fd
count-open_fd p (negsuc n) fds = omega arith
count-open_fd p (pos n) fds = omega arith

pub terminate-IsValid : (a : Adaptor) → IsValid a → IsValid (terminate_current_connection a)
unfolding terminate_current_connection
terminate-IsValid a v = record {
  opened = λ p. ground (arith, count-close_fd p a.write_fd a.opened, v.opened p);
  counted = ground (arith, v.counted);
  new_listen = ground (arith, v.new_listen);
  new_write = ground (arith, v.new_write);
}

pub accept-IsValid :
    (fd : ℤ) (a : Adaptor) → is_new fd ≡ true → IsValid a → IsValid (accept_connection fd a)
unfolding accept_connection terminate_current_connection
accept-IsValid fd a new v = record {
  opened = λ p. ground (
    arith,
    count-open_fd p fd (terminate_current_connection a).opened,
    count-close_fd p a.write_fd a.opened,
    v.opened p,
  );
  counted = ground (arith, v.counted);
  new_listen = ground (arith, v.new_listen);
  new_write = new;
}

pub write-IsValid : (written : ℤ) (a : Adaptor) → IsValid a → IsValid (write_data written a).0
unfolding write_data
write-IsValid written a v = record {
  opened = λ p. ground (arith, count-close_fd p a.write_fd a.opened, v.opened p);
  counted = ground (arith, v.counted);
  new_listen = ground (arith, v.new_listen);
  new_write = ground (arith, v.new_write);
}

-- The thread and the control pipe are joined and emptied before the descriptors are closed.
pub stop_listening-opened :
    (sent : Bool) (a : Adaptor)
    → IsValid a
    → is_empty_path a.path ≡ false
    → (is_open (stop_listening sent a).write_fd ≡ false)
      × ((stop_listening sent a).num_connections ≡ 0)
      × ((p : ℕ) → count p (stop_listening sent a).opened ≡ at p a.listen_fd)
unfolding stop_listening terminate_current_connection
stop_listening-opened sent a v named = (
  ground arith,
  ground (arith, v.counted),
  λ p. ground (arith, count-close_fd p a.write_fd a.opened, v.opened p, v.new_write),
)
