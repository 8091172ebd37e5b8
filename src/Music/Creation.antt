-- ===== src/Music/Creation.antt =====
-- include/music_id.h, src/music_id.cpp: the constructor of the music id client, with its socket adaptor.
use rdk_audiocapturemgr.Prelude.{
  sym, ◌∷◌, ◌++◌, ℕ, ◌≤◌, ◌≡◌, refl, List, [], some, false, Result, ok, arith,
}
use rdk_audiocapturemgr.Prelude.Int.{ℤ}
use rdk_audiocapturemgr.Audio.{mono16, f48000}
use rdk_audiocapturemgr.Buffer.{Heap}
use rdk_audiocapturemgr.Socket.{
  Adaptor, Bind, socket_adaptor, start_listening, register_data_ready_callback,
}
use rdk_audiocapturemgr.Music.{DeliveryMethod, MusicIdClient, set_precapture_duration}
use rdk_audiocapturemgr.Music.Freed.{Freed}
use rdk_audiocapturemgr.Music.Owner.{IsOwner, set_precapture_duration-IsOwner}

abbrev default_precapture_duration_sec : ℕ
default_precapture_duration_sec = 6

-- The members before the constructor's body. It sets the two of the precapture, which are not
-- initialised, before it reads them.
abbrev pub initial : DeliveryMethod → MusicIdClient
initial mode = record {
  queue = [];
  requests = [];
  outbox = [];
  total_size = 0;
  precapture_duration_seconds = 0;
  precapture_size_bytes = 0;
  queue_upper_limit_bytes = 0;
  request_counter = 0;
  enable_wav_header_output = false;
  output_properties = record {
    format = mono16;
    sampling_frequency = f48000;
    fifo_size = 0;
    threshold = 0;
    delay_compensation_ms = 0;
  };
  convert_output = false;
  delivery_method = mode;
}

-- `music_id_client::music_id_client`, but for the adaptor.
unfoldable pub music_id_client : ℕ → DeliveryMethod → Heap → Result (MusicIdClient × Heap)
music_id_client data_rate mode h =
    set_precapture_duration data_rate default_precapture_duration_sec (initial mode) h

-- The adaptor of a client that delivers by socket; `address` is the client, the callback's data.
unfoldable pub listen_for_requests : List ℕ → ℤ → Bind → Bind → ℕ → Adaptor
listen_for_requests path fd first second address =
    register_data_ready_callback (some address)
      (start_listening path fd first second socket_adaptor).0

initial-IsOwner : (mode : DeliveryMethod) (h : Heap) → IsOwner h (initial mode)
initial-IsOwner mode h = record {
  valid = record { holds = tt; counted = refl; small = omega arith };
  short = record { precapture = omega arith; requests = tt; limit = omega arith };
  sole = tt;
}

nothing_dropped :
    (dropped queue : List ℕ) (h h' : Heap)
    → [] ≡ dropped ++ queue
    → Freed dropped h h'
    → (queue ≡ []) × ((p : ℕ) → h'.cell p ≡ h.cell p)
nothing_dropped [] queue h h' split freed = (sym split, λ p. freed.kept p refl)
nothing_dropped (x ∷ dropped) queue h h' split freed = cc

-- A new client has an empty queue, and the heap is as before.
pub music_id_client-IsOwner :
    (data_rate : ℕ) (mode : DeliveryMethod) (h : Heap)
    → data_rate ≤ 864000
    → (m : MusicIdClient) × (h' : Heap) × (music_id_client data_rate mode h ≡ ok (m, h'))
      × (m.queue ≡ [])
      × ((p : ℕ) → h'.cell p ≡ h.cell p)
      × IsOwner h' m
unfolding music_id_client
music_id_client-IsOwner data_rate mode h rate =
    let (m, h', dropped, runs, split, freed, owner) =
      set_precapture_duration-IsOwner data_rate 6 (initial mode) h rate (omega arith)
        (initial-IsOwner mode h) in
    let (empty, same) = nothing_dropped dropped m.queue h h' split freed in
    (m, h', runs, empty, same, owner)
