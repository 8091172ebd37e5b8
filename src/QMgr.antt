-- ===== src/QMgr.antt =====
-- src/audio_capture_manager.cpp: the queue manager. A method takes the object and returns it changed.
-- The code between a lock and its unlock is one step.
pub mod Clients
pub mod Registry
pub mod Queues
pub mod Flush
pub mod Ownership
pub mod Delivery
pub mod Counted
pub mod References
pub mod Thread
pub mod Wakeup
pub mod Fifo
pub mod Tests
mod ThreadTests
pub mod Settings
pub mod BaseClient
pub mod Managed
pub mod Destructor
pub mod Exits
pub mod ExitTests
pub mod Monitor
use native.Mathlib.Decide.{ℕ_discrete}
use mathlib.Core.Logic.{ite}
use rdk_audiocapturemgr.Prelude.{
  ℕ, ◌+◌, ◌*◌, ◌/◌, Option, none, some, List, [], ◌∷◌, ◌++◌, Bool, true, false, Result, ok, err,
  div_by_zero, ◌>>=◌, ltb, ◌==◌, ◌||◌, if◌then◌else◌, length,
}
use rdk_audiocapturemgr.Prelude.Int.{ℤ, pos, negsuc}
use rdk_audiocapturemgr.Audio.{
  AudioProperties, CaptureLibrary, Format, Freq, u32, calculate_data_rate,
}
use rdk_audiocapturemgr.Buffer.{Heap, create_new_audio_buffer, free_audio_buffer}

abbrev pub default_fifo_size : ℕ
default_fifo_size = 64 * 1024

abbrev pub default_threshold : ℕ
default_threshold = 8 * 1024

abbrev pub max_qmgr_buffer_duration_s : ℕ
max_qmgr_buffer_duration_s = 30

-- Queues hold buffers and clients by their addresses. `sem` is the semaphore's value. `monitoring`
-- says that the data monitor thread runs. `asked_settings` and `events` record calls made to the
-- outside: the settings of an RMF_AudioCapture_Start with no Stop after it, whatever it returned, and
-- the clients that were sent an AUDIO_SETTINGS_CHANGE_EVENT.
pub record QMgr : Type 0 where
  pub incoming : List ℕ
  pub outgoing : List ℕ
  pub clients : List ℕ
  pub audio_properties : AudioProperties
  pub bytes_per_second : ℕ
  pub inflow_byte_counter : ℕ
  pub num_clients : ℕ
  pub sem : ℕ
  pub processing_thread_alive : Bool
  pub notify_new_data : Bool
  pub started : Bool
  pub max_queue_size : ℕ
  pub stop_data_monitor : Bool
  pub monitoring : Bool
  pub asked_settings : Option AudioProperties
  pub events : List ℕ

-- `(MAX_QMGR_BUFFER_DURATION_S * m_bytes_per_second) / m_audio_properties.threshold`, where the
-- threshold is a `size_t` and the quotient is stored in an `unsigned int`.
unfoldable pub max_queue_size_of : AudioProperties → ℕ → Result ℕ
max_queue_size_of props rate =
    if props.threshold == 0
    then err div_by_zero
    else ok (u32 (u32 (max_qmgr_buffer_duration_s * rate) / props.threshold))

-- The constructor. The processing thread is created; it has not run yet.
unfoldable pub q_mgr : CaptureLibrary → Result QMgr
unfolding max_queue_size_of
q_mgr lib = do
  let props : AudioProperties = record {
    format = lib.default_settings.format;
    sampling_frequency = lib.default_settings.sampling_frequency;
    fifo_size = default_fifo_size;
    threshold = default_threshold;
    delay_compensation_ms = 0;
  }
  let rate : ℕ = calculate_data_rate props
  max_size ← max_queue_size_of props rate
  ok (record {
    incoming = [];
    outgoing = [];
    clients = [];
    audio_properties = props;
    bytes_per_second = rate;
    inflow_byte_counter = 0;
    num_clients = 0;
    sem = 0;
    processing_thread_alive = false;
    notify_new_data = false;
    started = false;
    max_queue_size = max_size;
    stop_data_monitor = true;
    monitoring = false;
    asked_settings = none;
    events = [];
  })

unfoldable pub notify_data_ready : QMgr → QMgr
notify_data_ready q =
    if q.notify_new_data then record q { sem = q.sem + 1; notify_new_data = false } else q

-- The loop of `flush_queue`; the caller's queue is then empty.
unfoldable pub flush_queue : List ℕ → Heap → Result Heap
flush_queue [] h = ok h
flush_queue (p ∷ ps) h = do h' ← free_audio_buffer p h; flush_queue ps h'

unfoldable pub swap_queues : QMgr → Heap → Result (QMgr × Heap)
swap_queues q h = do
  h' ← flush_queue q.outgoing h
  ok (record q { incoming = []; outgoing = q.incoming }, h')

-- `flush_queue` on the incoming queue, where it is over the limit.
unfoldable pub limit_incoming : QMgr → Heap → Result (QMgr × Heap)
limit_incoming q h =
    if ltb q.max_queue_size (length q.incoming)
    then (do h' ← flush_queue q.incoming h; ok (record q { incoming = [] }, h'))
    else ok (q, h)

unfoldable pub add_data : List ℕ → ℕ → QMgr → Heap → Result (QMgr × Heap)
add_data buf size q h = do
  (temp, h₁) ← create_new_audio_buffer buf size 0 q.num_clients h
  (q₂, h₂) ← limit_incoming q h₁
  let q₃ : QMgr = notify_data_ready (record q₂ { incoming = q₂.incoming ++ temp ∷ [] })
  ok (record q₃ { inflow_byte_counter = u32 (q₃.inflow_byte_counter + size) }, h₂)
