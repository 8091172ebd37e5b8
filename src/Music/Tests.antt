-- ===== src/Music/Tests.antt =====
-- A music id client with two buffers, and the theorems about it at concrete inputs.
use rdk_audiocapturemgr.Prelude.{
  ◌≡◌, refl, none, some, [], ◌∷◌, ◌++◌, false, ok, arith, if◌then◌else◌, ◌==◌, drop,
}
use rdk_audiocapturemgr.Audio.{Parameters}
use rdk_audiocapturemgr.Audio.Tests.{cd_stereo}
use rdk_audiocapturemgr.Buffer.{Buffer, Heap}
use rdk_audiocapturemgr.Music.{MusicIdClient, file_output, trim_queue}
use rdk_audiocapturemgr.Music.Held.{IsValid}
use rdk_audiocapturemgr.Music.Trim.{trim_queue-Trimmed}
use rdk_audiocapturemgr.Music.Wav.{
  update_file_header_size, header_bytes, read-update_file_header_size,
}

abbrev kilobyte : Buffer
kilobyte = record { bytes = []; size = 1024; clip_length = 0; refcount = 1 }

abbrev pub three_buffers : Heap
three_buffers = record { next = 3; cell = λ p. if p == 3 then none else some kilobyte }

abbrev pub two_held : MusicIdClient
two_held = record {
  queue = 0 ∷ 1 ∷ [];
  requests = [];
  outbox = [];
  total_size = 2048;
  precapture_duration_seconds = 6;
  precapture_size_bytes = 1000;
  queue_upper_limit_bytes = 1000;
  request_counter = 0;
  enable_wav_header_output = false;
  output_properties = cd_stereo;
  convert_output = false;
  delivery_method = file_output;
}

abbrev pub two_held_valid : IsValid three_buffers two_held
two_held_valid = record {
  holds = (refl, omega arith, omega arith, (refl, omega arith, omega arith, tt));
  counted = refl;
  small = omega arith;
}

trim_queue-Trimmed_example :
    (let t = (trim_queue-Trimmed two_held three_buffers two_held_valid (omega arith)).0 in
      trim_queue two_held three_buffers
      ≡ ok (record two_held { queue = t.rest; total_size = t.left }, t.heap))
trim_queue-Trimmed_example =
    (trim_queue-Trimmed two_held three_buffers two_held_valid (omega arith)).1.0

abbrev cd_parameters : Parameters
cd_parameters = record { sampling_rate = 48000; bits_per_sample = 16; num_channels = 2 }

read-update_file_header_size_example :
    drop 44 (update_file_header_size (header_bytes cd_parameters 192000 ++ (7 ∷ 8 ∷ [])) 2)
    ≡ 7 ∷ 8 ∷ []
read-update_file_header_size_example =
    (read-update_file_header_size cd_parameters 192000 (7 ∷ 8 ∷ []) (omega arith) (omega arith)
      (omega arith) (omega arith) (omega arith)).0
