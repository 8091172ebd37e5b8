-- ===== src/QMgr/Tests.antt =====
-- A queue manager with two clients, and the theorems about it at concrete inputs.
use rdk_audiocapturemgr.Buffer.Refs.{refs}
use rdk_audiocapturemgr.QMgr.Settings.{
  Applied, set_audio_properties_applies, set_audio_properties_divides_by_zero, is_same-new,
}
use rdk_audiocapturemgr.QMgr.BaseClient.{base_client, base_client_laws, process_data_leaks}
use rdk_audiocapturemgr.QMgr.Delivery.{process_data}
use rdk_audiocapturemgr.QMgr.References.{AllSettled, process_data-AllSettled}
use rdk_audiocapturemgr.Prelude.{
  ap, ℕ, ◌≡◌, refl, none, some, List, [], ◌∷◌, Bool, true, false, ok, err, div_by_zero, arith, ◌==◌,
  if◌then◌else◌,
}
use rdk_audiocapturemgr.Prelude.Int.{pos}
use rdk_audiocapturemgr.Audio.{
  AudioProperties, CaptureLibrary, Format, Freq, stereo16, mono16, f48000, f16000,
  calculate_data_rate,
}
use rdk_audiocapturemgr.Buffer.{Buffer, Heap}
use rdk_audiocapturemgr.QMgr.{QMgr, q_mgr, add_data}
use rdk_audiocapturemgr.QMgr.Clients.{
  mem, register_client, unregister_client, set_audio_properties, AudioProperties-discrete, is_same,
}
use rdk_audiocapturemgr.QMgr.Registry.{
  Call, registers, unregisters, sets, call, calls, IsConsistent, run-IsConsistent,
}
use rdk_audiocapturemgr.QMgr.Flush.{is_live}
use rdk_audiocapturemgr.QMgr.Ownership.{Owns, Added, add_data-Added}

abbrev format_limit : Format → Bool
format_limit Format.max = true
format_limit (Format.other n) = true
format_limit _ = false

abbrev freq_limit : Freq → Bool
freq_limit Freq.max = true
freq_limit (Freq.other n) = true
freq_limit _ = false

abbrev pub settings : AudioProperties
settings = record {
  format = stereo16;
  sampling_frequency = f48000;
  fifo_size = 65536;
  threshold = 8192;
  delay_compensation_ms = 0;
}

abbrev voice : AudioProperties
voice = record settings { format = mono16; sampling_frequency = f16000 }

abbrev pub library : CaptureLibrary
library = record {
  format_max_le = format_limit;
  freq_max_le = freq_limit;
  default_settings = settings;
  same_padding = true;
}

abbrev pub fresh : QMgr
fresh = record {
  incoming = [];
  outgoing = [];
  clients = [];
  audio_properties = settings;
  bytes_per_second = 192000;
  inflow_byte_counter = 0;
  num_clients = 0;
  sem = 0;
  processing_thread_alive = false;
  notify_new_data = false;
  started = false;
  max_queue_size = 703;
  stop_data_monitor = true;
  monitoring = false;
  asked_settings = none;
  events = [];
}

pub fresh_runs : q_mgr library ≡ ok fresh
unfolding q_mgr calculate_data_rate
fresh_runs = refl

abbrev history_of_calls : List Call
history_of_calls =
    registers (pos 0) 1
    ∷ registers (pos 0) 2
    ∷ sets (pos 0) (pos 0) voice
    ∷ unregisters (pos 0) 1
    ∷ []

abbrev with_client : QMgr
with_client = record fresh {
  clients = 2 ∷ [];
  num_clients = 1;
  audio_properties = voice;
  bytes_per_second = 32000;
  max_queue_size = 117;
  started = true;
  monitoring = true;
  stop_data_monitor = false;
  asked_settings = some voice;
  events = 1 ∷ 2 ∷ [];
}

calls_run : calls library history_of_calls fresh ≡ ok with_client
unfolding calls call AudioProperties-discrete is_same set_audio_properties register_client
    unregister_client calculate_data_rate
calls_run = refl

run-IsConsistent_example : IsConsistent with_client
run-IsConsistent_example =
    run-IsConsistent library history_of_calls fresh with_client fresh_runs (omega arith) calls_run

-- One buffer waits to be delivered, and one was captured behind it.
abbrev first : Buffer
first = record { bytes = 1 ∷ 2 ∷ 3 ∷ 4 ∷ []; size = 4; clip_length = 0; refcount = 1 }

abbrev pub heap : Heap
heap = record {
  next = 2;
  cell = λ p. if p == 0 then some first else (if p == 1 then some first else none);
}

abbrev pub busy : QMgr
busy = record with_client { outgoing = 0 ∷ []; incoming = 1 ∷ []; notify_new_data = true }

busy-Owns : Owns busy heap
busy-Owns = record {
  distinct = (refl, (refl, tt));
  live = (refl, (refl, tt));
  fresh = λ p above. ground arith;
}

add_data-Added_example :
    (q' : QMgr) × (h' : Heap) × (add_data (7 ∷ 8 ∷ []) 2 busy heap ≡ ok (q', h'))
    × Added busy heap q' h'
add_data-Added_example = add_data-Added (7 ∷ 8 ∷ []) 2 busy heap (omega arith) busy-Owns

process_data-AllSettled_example :
    (h' : Heap) × (s' : Unit {0}) × (process_data base_client busy heap tt
      ≡ ok (record busy { outgoing = [] }, h', s'))
    × AllSettled base_client base_client_laws (0 ∷ []) heap h' tt s'
process_data-AllSettled_example =
    process_data-AllSettled base_client base_client_laws busy heap tt (refl, tt) (refl, tt) refl
      (omega arith) (omega arith) (λ p m. refl)

abbrev abandoned : QMgr
abandoned = record busy { clients = []; num_clients = 0 }

process_data_leaks_example :
    (h' : Heap) × (process_data base_client abandoned heap tt
      ≡ ok (record abandoned { outgoing = [] }, h', tt))
    × ((p : ℕ) → mem p (0 ∷ []) ≡ true → (is_live (h'.cell p) ≡ true) × (refs h' p ≡ 0))
process_data_leaks_example =
    process_data_leaks base_client abandoned heap tt (refl, tt) (refl, tt) refl refl

set_audio_properties_applies_example :
    (q' : QMgr) × (set_audio_properties library (pos 0) (pos 0) settings with_client
      ≡ ok (q', pos 0))
    × Applied settings with_client q'
set_audio_properties_applies_example =
    set_audio_properties_applies library (pos 0) (pos 0) settings with_client
      (is_same-new library with_client.audio_properties settings
        (λ e. cc (ap (λ (p : AudioProperties). p.format) e)))
      refl (omega arith)

abbrev no_format : AudioProperties
no_format = record voice { format = Format.max }

abbrev no_threshold : AudioProperties
no_threshold = record voice { threshold = 0 }

set_audio_properties_divides_by_zero_example :
    set_audio_properties library (pos 0) (pos 0) no_threshold with_client ≡ err div_by_zero
set_audio_properties_divides_by_zero_example =
    (set_audio_properties_divides_by_zero library (pos 0) (pos 0) no_threshold with_client
        div_by_zero).1
      refl
      (is_same-new library with_client.audio_properties no_threshold
        (λ e. omega (arith, ap (λ (p : AudioProperties). p.threshold) e)))
      refl refl
