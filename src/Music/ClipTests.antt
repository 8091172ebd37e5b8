-- ===== src/Music/ClipTests.antt =====
-- Clips of a short and of a long queue, and the theorems about them at concrete inputs.
use rdk_audiocapturemgr.Prelude.{
  ◌+◌, length-append, ◌/◌, ◌<◌, ℕ, zero, suc, ◌*◌, ◌≡◌, refl, none, some, List, [], ◌∷◌, true,
  false, ok, err, out_of_bounds, arith, if◌then◌else◌, ◌==◌, length,
}
use rdk_audiocapturemgr.Prelude.Int.{pos, negsuc}
use rdk_audiocapturemgr.Socket.Tests.{connected, connected_valid}
use rdk_audiocapturemgr.Socket.Worker.{process_new_connection}
use rdk_audiocapturemgr.Buffer.Refs.{refs}
use rdk_audiocapturemgr.Music.Ending.{released_of, destroy-releases}
use rdk_audiocapturemgr.Music.Sending.{connected_callback, process_new_connection-sends}
use rdk_audiocapturemgr.Converter.{memory_sink}
use rdk_audiocapturemgr.Audio.{u32, AudioProperties, mono16, stereo16, f16000, calculate_data_rate}
use rdk_audiocapturemgr.Buffer.{load, Buffer, Heap}
use rdk_audiocapturemgr.Converter.Decimate.{joined}
use rdk_audiocapturemgr.Converter.Passthrough.{covering, AllShort}
use rdk_audiocapturemgr.Music.{Request, MusicIdClient, socket_output}
use rdk_audiocapturemgr.Music.Held.{IsValid}
use rdk_audiocapturemgr.Music.Clips.{load_all, grab_to_outbox, grab_to_file}
use rdk_audiocapturemgr.Music.Grab.{grab-covering}
use rdk_audiocapturemgr.Music.Ready.{IsReady}
use rdk_audiocapturemgr.Music.Ticks.{IsShort, waiting, worker_tick-returns}
use rdk_audiocapturemgr.Music.Overrun.{grab_to_outbox-overruns}

abbrev pub slow_stereo : AudioProperties
slow_stereo = record {
  format = stereo16;
  sampling_frequency = f16000;
  fifo_size = 0;
  threshold = 0;
  delay_compensation_ms = 0;
}

abbrev slow_mono : AudioProperties
slow_mono = record slow_stereo { format = mono16 }

abbrev pub frame : Buffer
frame = record { bytes = 1 ∷ 2 ∷ 3 ∷ 4 ∷ []; size = 4; clip_length = 0; refcount = 1 }

abbrev pub two_frames : Heap
two_frames = record { next = 2; cell = λ p. if p == 2 then none else some frame }

abbrev clip_of_one : Request
clip_of_one = record {
  id = 0;
  filename = [];
  length = 1;
  time_remaining = 0;
  callback = none;
  callback_data = 0;
}

abbrev pub client : MusicIdClient
client = record {
  queue = 0 ∷ 1 ∷ [];
  requests = clip_of_one ∷ record clip_of_one { time_remaining = 1 } ∷ [];
  outbox = [];
  total_size = 8;
  precapture_duration_seconds = 6;
  precapture_size_bytes = 0;
  queue_upper_limit_bytes = 384000;
  request_counter = 2;
  enable_wav_header_output = false;
  output_properties = slow_mono;
  convert_output = false;
  delivery_method = socket_output;
}

client-IsReady : IsReady slow_stereo client two_frames
unfolding load_all calculate_data_rate load
client-IsReady = record {
  plain = refl;
  known = refl;
  loaded = (frame ∷ frame ∷ [], refl, (refl, (refl, tt)), (omega arith, (omega arith, tt)));
}

client-IsValid : IsValid two_frames client
client-IsValid = record {
  holds = (refl, omega arith, omega arith, (refl, omega arith, omega arith, tt));
  counted = refl;
  small = omega arith;
}

client-IsShort : IsShort client
client-IsShort = record {
  precapture = omega arith;
  requests = (omega arith, (omega arith, tt));
  limit = omega arith;
}

worker_tick-returns_example :
    (let r =
        worker_tick-returns slow_stereo
          (λ path. true)
          client
          two_frames
          client-IsReady
          client-IsShort
          client-IsValid in
      r.0.requests ≡ waiting client.requests)
worker_tick-returns_example =
    (worker_tick-returns slow_stereo (λ path. true) client two_frames client-IsReady client-IsShort
      client-IsValid).4

pub two_frames-load_all : load_all client.queue two_frames ≡ ok (frame ∷ frame ∷ [])
unfolding load_all load
two_frames-load_all = refl

pub two_frames-AllShort : AllShort (calculate_data_rate slow_stereo) (frame ∷ frame ∷ [])
unfolding calculate_data_rate
two_frames-AllShort = (omega arith, (omega arith, tt))

grab-covering_example :
    (let clip =
        joined (covering (frame ∷ frame ∷ []) (pos (0 * calculate_data_rate slow_stereo))) in
      grab_to_file slow_stereo (calculate_data_rate slow_stereo) true 0 client two_frames
      ≡ ok (some clip, pos 0))
grab-covering_example =
    (grab-covering slow_stereo 0 client two_frames frame (frame ∷ []) refl refl refl
      two_frames-load_all (refl, (refl, tt)) two_frames-AllShort (omega arith)).1

-- More than a second of silence.
silence : ℕ → List ℕ
silence zero = []
silence (suc n) = 0 ∷ silence n

length-silence : (n : ℕ) → length (silence n) ≡ n
unfolding silence
length-silence zero = refl
length-silence (suc n) = omega (arith, length-silence n)

abbrev long_buffer : Buffer
long_buffer = record { bytes = silence 70000; size = 70000; clip_length = 0; refcount = 1 }

abbrev long_heap : Heap
long_heap = record { next = 1; cell = λ p. if p == 1 then none else some long_buffer }

abbrev long_client : MusicIdClient
long_client = record client {
  queue = 0 ∷ [];
  convert_output = true;
  precapture_duration_seconds = 0;
}

long_heap-load_all : load_all long_client.queue long_heap ≡ ok (long_buffer ∷ [])
unfolding load_all load
long_heap-load_all = refl

long_buffer-overruns :
    u32 (calculate_data_rate slow_mono * u32 (suc 0)) < length (joined (long_buffer ∷ [])) / 4 * 2
unfolding calculate_data_rate joined
long_buffer-overruns = omega (arith, length-silence 70000, length-append (silence 70000) [])

grab_to_outbox-overruns_example :
    grab_to_outbox slow_stereo 64000 0 long_client long_heap ≡ err out_of_bounds
grab_to_outbox-overruns_example =
    grab_to_outbox-overruns slow_stereo 64000 0 long_client long_heap (long_buffer ∷ []) refl refl
      refl refl long_heap-load_all (length-silence 70000, refl, tt) (omega arith, tt)
      long_buffer-overruns

-- A clip in the outbox and a connection to the socket.
abbrev clip_ready : MusicIdClient
clip_ready = record client { outbox = memory_sink 4 (1 ∷ 2 ∷ []) ∷ memory_sink 4 (3 ∷ []) ∷ [] }

process_new_connection-sends_example :
    (let x =
        process_new_connection (connected_callback (negsuc 0)) (pos 6) (connected, clip_ready) in
      x.1.outbox ≡ memory_sink 4 (3 ∷ []) ∷ [])
process_new_connection-sends_example =
    (process_new_connection-sends (pos 6) (negsuc 0) 1 connected clip_ready connected_valid refl
      refl).3

client-destroyed :
    (h' : Heap) × ((q : ℕ) → refs h' q + released_of q client.queue ≡ refs two_frames q)
client-destroyed =
    let (m', h', runs, none_left, counted) = destroy-releases client two_frames client-IsValid in
    (h', counted)
