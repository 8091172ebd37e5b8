-- ===== src/Socket/Start.antt =====
-- src/socket_adaptor.cpp: `start_listening`, for each answer of `bind`.
use rdk_audiocapturemgr.Prelude.{ℕ, ◌≡◌, refl, List, [], true, arith}
use rdk_audiocapturemgr.Prelude.Int.{ℤ, negsuc}
use rdk_audiocapturemgr.Socket.{
  Adaptor, socket_adaptor, Bind, bound, in_use, refused, is_open, close_fd, open_fd,
  start_listening,
}
use rdk_audiocapturemgr.Socket.Descriptors.{IsValid, count-close_fd, count-open_fd}

-- The adaptor listens on its socket except where binding failed with another error than EADDRINUSE.
abbrev pub listen_after : ℤ → Bind → Bind → ℤ
listen_after fd bound second = fd
listen_after fd in_use refused = negsuc 0
listen_after fd in_use _ = fd
listen_after fd refused second = negsuc 0

-- An adaptor with a socket of its own and no connection.
bound-IsValid :
    (a : Adaptor) (fd : ℤ)
    → is_open fd ≡ true
    → a.listen_fd ≡ fd
    → a.write_fd ≡ negsuc 0
    → a.num_connections ≡ 0
    → a.opened ≡ open_fd fd []
    → IsValid a
bound-IsValid a fd good listens alone none_counted own = record {
  opened = λ p. ground (arith, count-open_fd p fd []);
  counted = ground arith;
  new_listen = ground arith;
  new_write = ground arith;
}

-- An adaptor that gave its socket up.
refused-IsValid :
    (a : Adaptor) (fd : ℤ)
    → a.listen_fd ≡ negsuc 0
    → a.write_fd ≡ negsuc 0
    → a.num_connections ≡ 0
    → a.opened ≡ close_fd fd (open_fd fd [])
    → IsValid a
refused-IsValid a fd deaf alone none_counted own = record {
  opened = λ p. ground (arith, count-open_fd p fd [], count-close_fd p fd (open_fd fd []));
  counted = ground arith;
  new_listen = ground arith;
  new_write = ground arith;
}

pub start_listening-IsValid :
    (path : List ℕ) (fd : ℤ) (first second : Bind)
    → is_open fd ≡ true
    → (let a = (start_listening path fd first second socket_adaptor).0 in
        IsValid a × (a.path ≡ path) × (a.listen_fd ≡ listen_after fd first second))
unfolding start_listening socket_adaptor
start_listening-IsValid path fd bound second good =
    rw good (bound-IsValid _ fd good refl refl refl refl, refl, refl)
start_listening-IsValid path fd refused second good =
    rw good (refused-IsValid _ fd refl refl refl refl, refl, refl)
start_listening-IsValid path fd in_use bound good =
    rw good (bound-IsValid _ fd good refl refl refl refl, refl, refl)
start_listening-IsValid path fd in_use in_use good =
    rw good (bound-IsValid _ fd good refl refl refl refl, refl, refl)
start_listening-IsValid path fd in_use refused good =
    rw good (refused-IsValid _ fd refl refl refl refl, refl, refl)
