-- ===== src/Audio/Tests.antt =====
-- Runs of the audio parameters, and the theorems about them at concrete inputs.
use rdk_audiocapturemgr.Prelude.{◌≤◌, ◌≡◌, refl, arith, [], ◌∷◌}
use rdk_audiocapturemgr.Audio.{AudioProperties, stereo16, f48000, calculate_data_rate, get_suffix}
use rdk_audiocapturemgr.Audio.Rate.{calculate_data_rate-exact}
use rdk_audiocapturemgr.Audio.Suffix.{value, value-get_suffix}

abbrev pub cd_stereo : AudioProperties
cd_stereo = record {
  format = stereo16;
  sampling_frequency = f48000;
  fifo_size = 65536;
  threshold = 8192;
  delay_compensation_ms = 0;
}

stereo_rate : calculate_data_rate cd_stereo ≡ 192000
unfolding calculate_data_rate
stereo_rate = refl

calculate_data_rate-exact_example : calculate_data_rate cd_stereo ≤ 864000
calculate_data_rate-exact_example = (calculate_data_rate-exact cd_stereo).1

suffix_runs : get_suffix 4096 ≡ 52 ∷ 48 ∷ 57 ∷ 54 ∷ []
unfolding get_suffix
suffix_runs = refl

value-get_suffix_example : value (get_suffix 4096) ≡ 4096
value-get_suffix_example = value-get_suffix 4096 (omega arith)
