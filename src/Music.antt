-- ===== src/Music.antt =====
-- include/music_id.h, src/music_id.cpp: the client that keeps the last seconds of audio and hands out
-- clips of it. A method takes the object and returns it changed; the data rate of the queue manager,
-- `m_manager->get_data_rate()`, is an argument. The code between a lock and its unlock is one step.
pub mod Held
pub mod Trim
pub mod Callback
pub mod Wav
pub mod Limit
pub mod Clips
pub mod Grab
pub mod Ready
pub mod Ticks
pub mod Overrun
pub mod Sending
pub mod Ending
pub mod Creation
pub mod Freed
pub mod Owner
pub mod Tests
pub mod ClipTests
use rdk_audiocapturemgr.Prelude.{
  ℕ, suc, ◌+◌, ◌-◌, ◌*◌, ◌^◌, Option, List, [], ◌∷◌, ◌++◌, Bool, Result, ok, err, out_of_bounds,
  ◌>>=◌, ltb, if◌then◌else◌,
}
use rdk_audiocapturemgr.Prelude.Int.{ℤ, pos, negsuc, ltb_ℤ, ◌-ℤ◌}
use rdk_audiocapturemgr.Audio.{AudioProperties, u32}
use rdk_audiocapturemgr.Buffer.{Heap, load}
use rdk_audiocapturemgr.QMgr.BaseClient.{release_buffer}
use rdk_audiocapturemgr.Converter.{Sink}
use rdk_audiocapturemgr.Converter.Loops.{to_int}

pub data DeliveryMethod : Type 0 where
  file_output socket_output : DeliveryMethod

-- A callback is a function's address, and `none` is `nullptr`.
pub record Request : Type 0 where
  pub id : ℕ
  pub filename : List ℕ
  pub length : ℕ
  pub time_remaining : ℕ
  pub callback : Option ℕ
  pub callback_data : ℕ

-- The queue holds buffers by their addresses. The thread, the adaptor and the socket's path are not
-- part of the state.
pub record MusicIdClient : Type 0 where
  pub queue : List ℕ
  pub requests : List Request
  pub outbox : List Sink
  pub total_size : ℕ
  pub precapture_duration_seconds : ℕ
  pub precapture_size_bytes : ℕ
  pub queue_upper_limit_bytes : ℕ
  pub request_counter : ℕ
  pub enable_wav_header_output : Bool
  pub output_properties : AudioProperties
  pub convert_output : Bool
  pub delivery_method : DeliveryMethod

unfoldable pub data_callback : ℕ → Heap → MusicIdClient → Result (Heap × MusicIdClient)
data_callback p h m = do
  b ← load p h
  ok (h, record m { queue = m.queue ++ (p ∷ []); total_size = u32 (m.total_size + b.size) })

-- The loop of `trim_queue`; `front()` of an empty list is outside the list.
unfoldable pub trim_loop : List ℕ → ℤ → ℕ → Heap → Result (List ℕ × ℕ × Heap)
trim_loop [] excess_bytes total_size h =
    if ltb_ℤ (pos 0) excess_bytes then err out_of_bounds else ok ([], total_size, h)
trim_loop (p ∷ ps) excess_bytes total_size h =
    if ltb_ℤ (pos 0) excess_bytes
    then (do
      b ← load p h
      if ltb_ℤ excess_bytes (pos b.size) then ok (p ∷ ps, total_size, h) else (do
        h' ← release_buffer p h
        trim_loop ps (excess_bytes -ℤ pos b.size) (u32 (total_size + 2 ^ 32 - b.size)) h'))
    else ok (p ∷ ps, total_size, h)

unfoldable pub trim_queue : MusicIdClient → Heap → Result (MusicIdClient × Heap)
trim_queue m h = do
  (queue', total_size', h') ←
      trim_loop m.queue (to_int (u32 (m.total_size + 2 ^ 32 - m.queue_upper_limit_bytes)))
        m.total_size h
  ok (record m { queue = queue'; total_size = total_size' }, h')

-- The loop of `compute_queue_size`.
unfoldable pub max_length_of : ℕ → List Request → ℕ
max_length_of max_length [] = max_length
max_length_of max_length (r ∷ rs) =
    max_length_of (if ltb max_length r.length then r.length else max_length) rs

unfoldable pub compute_queue_size : ℕ → MusicIdClient → MusicIdClient
compute_queue_size data_rate m = record m {
  queue_upper_limit_bytes =
      u32 (max_length_of m.precapture_duration_seconds m.requests * data_rate);
}

unfoldable pub set_precapture_duration :
    ℕ → ℕ → MusicIdClient → Heap → Result (MusicIdClient × Heap)
set_precapture_duration data_rate seconds m h =
    let size : ℕ = u32 (seconds * data_rate) in
    let m' : MusicIdClient = record m {
      precapture_duration_seconds = seconds;
      precapture_size_bytes = size;
      queue_upper_limit_bytes =
          if ltb m.queue_upper_limit_bytes size then size else m.queue_upper_limit_bytes;
    } in
    trim_queue (compute_queue_size data_rate m') h

-- The id that is given to the request is not the one returned: `id` keeps its initial value.
unfoldable pub grab_fresh_sample : ℕ → ℕ → List ℕ → Option ℕ → ℕ → MusicIdClient → MusicIdClient × ℤ
grab_fresh_sample data_rate seconds filename cb cb_data m =
    let req : Request = record {
      id = m.request_counter;
      filename = filename;
      length = seconds;
      time_remaining = seconds;
      callback = cb;
      callback_data = cb_data;
    } in
    (
      compute_queue_size data_rate (record m {
        requests = m.requests ++ (req ∷ []);
        request_counter = u32 (suc m.request_counter);
      }),
      negsuc 0,
    )

abbrev pub max_precapture_length_sec : ℕ
max_precapture_length_sec = 120

unfoldable pub get_max_supported_duration : ℕ
get_max_supported_duration = max_precapture_length_sec

unfoldable pub enable_wav_header : Bool → MusicIdClient → MusicIdClient × ℕ
enable_wav_header is_enabled m = (record m { enable_wav_header_output = is_enabled }, 0)

unfoldable pub enable_output_conversion : Bool → MusicIdClient → MusicIdClient
enable_output_conversion is_enabled m = record m { convert_output = is_enabled }

-- `get_audio_properties`, where `properties` are those of the queue manager.
unfoldable pub get_audio_properties : AudioProperties → MusicIdClient → AudioProperties
get_audio_properties properties m =
    if m.convert_output
    then record properties {
      format = m.output_properties.format;
      sampling_frequency = m.output_properties.sampling_frequency;
    }
    else properties
