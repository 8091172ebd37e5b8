-- ===== src/QMgr/Clients.antt =====
-- src/audio_capture_manager.cpp: who listens to the queue manager, and what the device is told.
use native.Mathlib.Decide.{ℕ_discrete}
use mathlib.Core.Logic.{ite}
use rdk_audiocapturemgr.Prelude.{
  ℕ, none, some, List, [], ◌∷◌, ◌++◌, Bool, true, false, Result, ok, ◌>>=◌, ◌==◌, ◌||◌,
  if◌then◌else◌, length,
}
use rdk_audiocapturemgr.Prelude.Int.{ℤ, pos, negsuc}
use rdk_audiocapturemgr.Audio.{
  AudioProperties, CaptureLibrary, Format, Freq, u32, calculate_data_rate,
}
use rdk_audiocapturemgr.QMgr.{QMgr, max_queue_size_of}

-- `start_ret` is what RMF_AudioCapture_Start returns; nothing in the queue manager depends on it.
unfoldable pub start : ℤ → QMgr → QMgr × ℤ
start start_ret q = if q.started then (q, pos 0) else (
  record q {
    inflow_byte_counter = 0;
    asked_settings = some q.audio_properties;
    started = true;
    stop_data_monitor = false;
    monitoring = true;
  },
  start_ret,
)

-- `stop_ret` is what RMF_AudioCapture_Stop returns.
unfoldable pub stop : ℤ → QMgr → QMgr × ℤ
stop stop_ret q =
    if q.started
    then (
      record q {
        stop_data_monitor = true;
        monitoring = false;
        asked_settings = none;
        started = false;
      },
      stop_ret,
    )
    else (q, pos 0)

abbrev pub mem : ℕ → List ℕ → Bool
mem c [] = false
mem c (x ∷ xs) = c == x || mem c xs

abbrev pub remove : ℕ → List ℕ → List ℕ
remove c [] = []
remove c (x ∷ xs) = let rest = remove c xs in if c == x then rest else x ∷ rest

unfoldable pub register_client : ℤ → ℕ → QMgr → QMgr × ℤ
unfolding start
register_client start_ret client q =
    if mem client q.clients
    then (q, pos 0)
    else let cs : List ℕ = q.clients ++ client ∷ [] in
      let q' : QMgr = record q { clients = cs; num_clients = u32 (length cs) } in
      (if q'.num_clients == 1 then (start start_ret q').0 else q', pos 0)

unfoldable pub unregister_client : ℤ → ℕ → QMgr → QMgr × ℤ
unfolding stop
unregister_client stop_ret client q =
    let cs : List ℕ = remove client q.clients in
    let q' : QMgr = record q { clients = cs; num_clients = u32 (length cs) } in
    (if q'.num_clients == 0 then (stop stop_ret q').0 else q', pos 0)

Format-discrete : Discrete Format
Format-discrete = hlevel ℕ_discrete

Freq-discrete : Discrete Freq
Freq-discrete = hlevel ℕ_discrete

unfoldable pub AudioProperties-discrete : Discrete AudioProperties
AudioProperties-discrete = hlevel ℕ_discrete

-- The second half of `set_audio_properties`, under the client mutex: restart, and tell the clients.
unfoldable pub apply_settings : ℤ → ℤ → QMgr → QMgr
unfolding start stop
apply_settings start_ret stop_ret q =
    let q₁ : QMgr = if q.started then (stop stop_ret q).0 else q in
    let q₂ : QMgr = record q₁ { events = q₁.events ++ q₁.clients } in
    if q.started then (start start_ret q₂).0 else q₂

-- `memcmp` of the two structures, over the fields and the padding.
unfoldable pub is_same : CaptureLibrary → AudioProperties → AudioProperties → Bool
unfolding AudioProperties-discrete
is_same lib props props' = ite (AudioProperties-discrete props props') lib.same_padding false

unfoldable pub set_audio_properties :
    CaptureLibrary → ℤ → ℤ → AudioProperties → QMgr → Result (QMgr × ℤ)
unfolding max_queue_size_of apply_settings
set_audio_properties lib start_ret stop_ret props q =
    if is_same lib q.audio_properties props
    then ok (q, pos 0)
    else (if lib.format_max_le props.format || lib.freq_max_le props.sampling_frequency
        then ok (q, negsuc 0)
        else (do
          let rate : ℕ = calculate_data_rate props
          max_size ← max_queue_size_of props rate
          ok (
            apply_settings start_ret stop_ret (record q {
              audio_properties = props;
              bytes_per_second = rate;
              max_queue_size = max_size;
            }),
            pos 0,
          )))

unfoldable pub get_audio_properties : QMgr → AudioProperties
get_audio_properties q = q.audio_properties

unfoldable pub get_default_audio_properties : CaptureLibrary → AudioProperties
get_default_audio_properties lib = lib.default_settings

unfoldable pub get_data_rate : QMgr → ℕ
get_data_rate q = q.bytes_per_second
