-- ===== src/IarmInterface.antt =====
-- include/acm_iarm_interface.h, src/acm_iarm_interface.cpp: the interface before the sessions, with one
-- music id client. No build file compiles it any more. It calls grab_fresh_sample with the arguments
-- in an older order, which are taken here for what they mean. A duration is a `float`; what the
-- handlers are given here is the `unsigned int` that they convert it to.
pub mod Sessions
mod Tests
use rdk_audiocapturemgr.Prelude.{
  ℕ, suc, ◌==◌, Option, none, some, List, [], ◌∷◌, ◌++◌, Bool, true, false, ltb, leb, Result, ok,
  err, null_pointer, ◌>>=◌, if◌then◌else◌,
}
use rdk_audiocapturemgr.Prelude.Int.{ℤ, pos, negsuc, is_zero}
use rdk_audiocapturemgr.Audio.{u32, get_suffix}
use rdk_audiocapturemgr.Buffer.{Heap}
use rdk_audiocapturemgr.QMgr.{QMgr}
use rdk_audiocapturemgr.QMgr.Clients.{register_client, unregister_client, get_data_rate}
use rdk_audiocapturemgr.Music.{
  MusicIdClient, get_max_supported_duration, set_precapture_duration, grab_fresh_sample,
}
use rdk_audiocapturemgr.Music.Clips.{grab_precaptured_sample}
use rdk_audiocapturemgr.Sessions.{
  acm_result_success, acm_result_duration_out_of_bounds, acm_result_general_failure,
}
use rdk_audiocapturemgr.Sessions.Samples.{request_callback, request_callback_address}

-- The object with the variables of its file; `client` is an address, and `none` is NULL.
pub record AcmIarmInterface : Type 0 where
  pub enable_audio_input : Bool
  pub client : Option ℕ
  pub ticker : ℕ
  pub audio_filename_prefix : List ℕ

-- What the client's calls change: its queue manager, the client itself and the buffers.
pub record World : Type 0 where
  pub sources : QMgr
  pub music : MusicIdClient
  pub heap : Heap

-- "audio_sample".
abbrev default_prefix : List ℕ
default_prefix = 97 ∷ 117 ∷ 100 ∷ 105 ∷ 111 ∷ 95 ∷ 115 ∷ 97 ∷ 109 ∷ 112 ∷ 108 ∷ 101 ∷ []

-- `acm_iarm_interface::acm_iarm_interface`.
unfoldable pub acm_iarm_interface : AcmIarmInterface
acm_iarm_interface = record {
  enable_audio_input = false;
  client = none;
  ticker = 0;
  audio_filename_prefix = default_prefix;
}

unfoldable pub set_filename_prefix : List ℕ → AcmIarmInterface → AcmIarmInterface
set_filename_prefix prefix i = record i { audio_filename_prefix = prefix }

-- What the calls of IARM return, in their order.
pub record BusResults : Type 0 where
  pub init : ℤ
  pub connected : ℤ
  pub event : ℤ
  pub enable_call : ℤ
  pub request_call : ℤ

abbrev pub first_client : ℕ → Option ℕ → Option ℕ
first_client new none = some new
first_client new (some old) = some old

-- The result of each call takes the place of the one before, the -1 for a client that is refused too.
unfoldable pub activate : BusResults → ℕ → AcmIarmInterface → AcmIarmInterface × ℤ
activate bus client i = (record i { client = first_client client i.client }, bus.request_call)

-- The client whose method is called.
abbrev pub the_client : AcmIarmInterface → Result ℕ
the_client i = elim i.client [ none ↦ err null_pointer | some c ↦ ok c ]

-- `term_ret` is what IARM_Bus_Term returns.
unfoldable pub deactivate : ℤ → ℤ → AcmIarmInterface → World → Result (AcmIarmInterface × World × ℤ)
deactivate term_ret stop_ret i w =
    if i.enable_audio_input
    then (do
      c ← the_client i
      ok (
        record i { enable_audio_input = false; client = none },
        record w { sources = (unregister_client stop_ret c w.sources).0 },
        term_ret,
      ))
    else ok (record i { client = none }, w, term_ret)

-- What `enable_capture_handler` does behind the new precapture duration.
unfoldable pub switch_capture : ℤ → ℤ → ℕ → ℕ → AcmIarmInterface → QMgr → AcmIarmInterface × QMgr
switch_capture start_ret stop_ret duration c i q =
    if duration == 0
    then (if i.enable_audio_input
        then (record i { enable_audio_input = false }, (unregister_client stop_ret c q).0)
        else (i, q))
    else (if i.enable_audio_input
        then (i, q)
        else (record i { enable_audio_input = true }, (register_client start_ret c q).0))

-- The last component is `data->result`, which is the longest duration where the one given is too long.
unfoldable pub enable_capture_handler :
    ℤ → ℤ → ℕ → AcmIarmInterface → World → Result (AcmIarmInterface × World × ℤ)
unfolding switch_capture
enable_capture_handler start_ret stop_ret duration i w = do
  c ← the_client i
  if ltb get_max_supported_duration duration then ok (i, w, pos get_max_supported_duration) else (do
    (music, heap) ← set_precapture_duration (get_data_rate w.sources) duration w.music w.heap
    let (i', q) = switch_capture start_ret stop_ret duration c i w.sources
    ok (i', record { sources = q; music = music; heap = heap }, acm_result_success))

-- "/opt/", the prefix and the number of the sample.
abbrev filename : AcmIarmInterface → List ℕ
filename i = (47 ∷ 111 ∷ 112 ∷ 116 ∷ 47 ∷ []) ++ (i.audio_filename_prefix ++ get_suffix i.ticker)

abbrev result_of : ℤ → ℤ
result_of ret = if is_zero ret then acm_result_success else acm_result_general_failure

-- `opens` says whether the file can be opened. The event that is sent comes before the result.
unfoldable pub get_sample :
    Bool → Bool → ℕ → AcmIarmInterface → World → Result (World × Option (List ℕ) × ℤ)
unfolding request_callback
get_sample opens is_precapture duration i w =
    if is_precapture
    then (do
      (music, file, ret) ←
          grab_precaptured_sample w.sources.audio_properties (get_data_rate w.sources) opens w.music
            w.heap
      ok (
        record w { music = music },
        if is_zero ret then request_callback (filename i) (pos 0) else none,
        result_of ret,
      ))
    else (if leb duration get_max_supported_duration
        then (let (music, ret) =
              grab_fresh_sample (get_data_rate w.sources) duration (filename i)
                request_callback_address 0 w.music in
            ok (record w { music = music }, none, result_of ret))
        else ok (w, none, acm_result_duration_out_of_bounds))

-- The ticker is used whenever the capture is enabled.
unfoldable pub get_sample_handler :
    Bool
    → Bool
    → ℕ
    → AcmIarmInterface
    → World
    → Result (AcmIarmInterface × World × Option (List ℕ) × ℤ)
unfolding get_sample
get_sample_handler opens is_precapture duration i w =
    if i.enable_audio_input
    then (do
      c ← the_client i
      (w', event, ret) ← get_sample opens is_precapture duration i w
      ok (record i { ticker = u32 (suc i.ticker) }, w', event, ret))
    else ok (i, w, none, acm_result_duration_out_of_bounds)
