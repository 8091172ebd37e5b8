-- ===== src/IpOut/Tests.antt =====
-- An IP output client with a connection, and the theorems about it at concrete inputs.
use rdk_audiocapturemgr.Prelude.{
  ℕ, ◌≡◌, ◌⊎◌, refl, some, none, [], ◌∷◌, List, true, false, ok, arith, if◌then◌else◌, ◌==◌,
}
use rdk_audiocapturemgr.Prelude.Int.{pos, negsuc, ltb_ℤ}
use rdk_audiocapturemgr.Buffer.{Buffer, Heap}
use rdk_audiocapturemgr.QMgr.Delivery.{Took}
use rdk_audiocapturemgr.Socket.{Bind, bound, is_open, is_empty_path, open_fd}
use rdk_audiocapturemgr.Socket.Worker.{Selected}
use rdk_audiocapturemgr.Socket.Descriptors.{count, at}
use rdk_audiocapturemgr.IpOut.{
  IpOutClient, initial, sockpath, open_output, close_output, data_callback,
}
use rdk_audiocapturemgr.IpOut.Worker.{worker_thread}
use rdk_audiocapturemgr.IpOut.Connections.{IsValid}
use rdk_audiocapturemgr.IpOut.Opening.{Outcome, open_output-Outcome}
use rdk_audiocapturemgr.IpOut.Contract.{data_callback-writes}
use rdk_audiocapturemgr.IpOut.Reopened.{reopened_serves_nobody}

-- Every path is free.
abbrev all_free : List ℕ → Bind
all_free path = bound

abbrev pub streaming : IpOutClient
streaming = record {
  data_path = sockpath 3;
  listen_fd = pos 4;
  write_fd = pos 5;
  num_connections = 1;
  exits = 0;
  joinable = true;
  opened = 5 ∷ 4 ∷ [];
}

streaming-IsValid : IsValid streaming
streaming-IsValid = record {
  opened = λ p. omega arith;
  counted = refl;
  new_listen = refl;
  new_write = refl;
}

abbrev four_bytes : Buffer
four_bytes = record { bytes = 1 ∷ 2 ∷ 3 ∷ 4 ∷ []; size = 4; refcount = 2; clip_length = 0 }

abbrev heap : Heap
heap = record { cell = λ p. if p == 7 then some four_bytes else none; next = 8 }

open_output-Outcome_example :
    ((is_empty_path initial.data_path ≡ true)
      × Outcome all_free 6 0
          (record initial { listen_fd = pos 4; opened = open_fd (pos 4) [] })
          (open_output all_free (pos 4) 0 initial))
    ⊎ ((is_empty_path initial.data_path ≡ false)
        × (open_output all_free (pos 4) 0 initial ≡ (0, initial)))
open_output-Outcome_example = open_output-Outcome all_free (pos 4) 0 initial refl (omega arith)

data_callback-writes_example :
    (h' : Heap) × (o' : IpOutClient) × (data_callback (negsuc 0) 7 heap streaming ≡ ok (h', o'))
    × Took (λ q. 0) (λ q. 0) 7 heap h'
    × IsValid o'
    × (ltb_ℤ (negsuc 0) (pos 0) ≡ true → is_open o'.write_fd ≡ false)
data_callback-writes_example =
    data_callback-writes (negsuc 0) 7 heap streaming four_bytes refl (omega arith) (omega arith)
      streaming-IsValid

abbrev connecting : List Selected
connecting = record { ret = pos 1; connects = true; accepted = pos 6 } ∷ []

reopened_serves_nobody_example :
    (o' : IpOutClient) × (close_output true streaming ≡ ok o')
    × (o'.data_path ≡ [])
    × (o'.num_connections ≡ 0)
    × ((p : ℕ) → count p o'.opened ≡ at p (pos 4))
    × (let again = (open_output all_free (pos 8) 4 o').1 in
        (is_open again.write_fd ≡ false) × ((worker_thread connecting again).0 ≡ again))
reopened_serves_nobody_example =
    reopened_serves_nobody streaming all_free (pos 8) 4 connecting streaming-IsValid refl refl
