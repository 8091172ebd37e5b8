-- ===== src/Socket/Tests.antt =====
-- A socket adaptor with one connection, and the theorems about it at concrete inputs.
use rdk_audiocapturemgr.Prelude.{ℕ, ◌≡◌, refl, some, [], ◌∷◌, List, true, arith}
use rdk_audiocapturemgr.Prelude.Int.{pos, negsuc}
use rdk_audiocapturemgr.Socket.{
  Adaptor, socket_adaptor, bound, in_use, start_listening, stop_listening, accept_connection,
  close_write_fd, forget_write_fd,
}
use rdk_audiocapturemgr.Socket.Descriptors.{IsValid}
use rdk_audiocapturemgr.Socket.Connections.{
  Call, accepts, writes, registers, calls, stop_listening-calls,
}
use rdk_audiocapturemgr.Socket.Race.{forget_write_fd-leaks}

abbrev path : List ℕ
path = 47 ∷ 115 ∷ []

-- A second connection replaces the first, and its write fails.
abbrev two_connections : List Call
two_connections =
    registers (some 1)
    ∷ accepts (pos 5)
    ∷ accepts (pos 6)
    ∷ writes (negsuc 0)
    ∷ accepts (pos 5)
    ∷ []

stop_listening-calls_example :
    (let a = calls two_connections (start_listening path (pos 4) in_use bound socket_adaptor).0 in
      (stop_listening true a).num_connections ≡ 0)
stop_listening-calls_example =
    (stop_listening-calls path (pos 4) in_use bound two_connections true refl refl
      (refl, (refl, (refl, tt)))).2

abbrev pub connected : Adaptor
connected = record {
  path = path;
  listen_fd = pos 4;
  write_fd = pos 5;
  num_connections = 1;
  callback = some 1;
  control = [];
  joinable = true;
  opened = 5 ∷ 4 ∷ [];
}

pub connected_valid : IsValid connected
connected_valid = record {
  opened = λ p. omega arith;
  counted = refl;
  new_listen = refl;
  new_write = refl;
}

forget_write_fd-leaks_example :
    (forget_write_fd (accept_connection (pos 6) (close_write_fd connected))).num_connections ≡ 0
forget_write_fd-leaks_example =
    (forget_write_fd-leaks connected (pos 6) connected_valid refl refl (λ e. cc)).1
