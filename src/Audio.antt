-- ===== src/Audio.antt =====
-- include/audio_capture_manager.h, src/audio_capture_manager.cpp lines 91-164: the audio properties
-- and what is computed from them. The formats and frequencies are enumerators of a header of the
-- capture library (rmfAudioCapture.h), known here by their names.
pub mod Rate
pub mod Suffix
pub mod Tests
use rdk_audiocapturemgr.Prelude.{
  ℕ, ◌*◌, ◌/◌, ◌%◌, ◌^◌, Bool, List, [], ◌∷◌, ◌++◌, zero, suc, ◌+◌, ltb, if◌then◌else◌,
}

-- The enumerators that the source names; `other` is any value without a name.
pub data Format : Type 0 where
  stereo16 stereo24 mono_left16 mono_right16 mono16 surround24 max : Format
  other : ℕ → Format

pub data Freq : Type 0 where
  f16000 f24000 f32000 f44100 f48000 max : Freq
  other : ℕ → Freq

pub record AudioProperties : Type 0 where
  pub format : Format
  pub sampling_frequency : Freq
  pub fifo_size : ℕ
  pub threshold : ℕ
  pub delay_compensation_ms : ℕ

-- What the source takes from the capture library: the tests `racFormat_eMax <= f` and
-- `racFreq_eMax <= f`, and the default settings. `same_padding` says whether the bytes behind the
-- fields of two structures, which nothing sets and `memcmp` compares, are equal.
pub record CaptureLibrary : Type 0 where
  pub format_max_le : Format → Bool
  pub freq_max_le : Freq → Bool
  pub default_settings : AudioProperties
  pub same_padding : Bool

pub record Parameters : Type 0 where
  pub sampling_rate : ℕ
  pub bits_per_sample : ℕ
  pub num_channels : ℕ

-- The two `switch` statements of `get_individual_audio_parameters`; their `default` leaves the zeros
-- of the function's first lines.
unfoldable pub sampling_rate_of : Freq → ℕ
sampling_rate_of f16000 = 16000
sampling_rate_of f24000 = 24000
sampling_rate_of f32000 = 32000
sampling_rate_of f44100 = 44100
sampling_rate_of f48000 = 48000
sampling_rate_of _ = 0

unfoldable pub bits_per_sample_of : Format → ℕ
bits_per_sample_of stereo16 = 16
bits_per_sample_of stereo24 = 24
bits_per_sample_of mono_left16 = 16
bits_per_sample_of mono_right16 = 16
bits_per_sample_of mono16 = 16
bits_per_sample_of surround24 = 24
bits_per_sample_of _ = 0

unfoldable pub num_channels_of : Format → ℕ
num_channels_of stereo16 = 2
num_channels_of stereo24 = 2
num_channels_of mono_left16 = 1
num_channels_of mono_right16 = 1
num_channels_of mono16 = 1
num_channels_of surround24 = 6
num_channels_of _ = 0

unfoldable pub get_individual_audio_parameters : AudioProperties → Parameters
unfolding sampling_rate_of bits_per_sample_of num_channels_of
get_individual_audio_parameters props = record {
  sampling_rate = sampling_rate_of props.sampling_frequency;
  bits_per_sample = bits_per_sample_of props.format;
  num_channels = num_channels_of props.format;
}

-- `unsigned int` arithmetic.
abbrev pub u32 : ℕ → ℕ
u32 n = n % 2 ^ 32

unfoldable pub calculate_data_rate : AudioProperties → ℕ
unfolding get_individual_audio_parameters
calculate_data_rate props =
    let p : Parameters = get_individual_audio_parameters props in
    u32 (u32 (p.bits_per_sample * p.sampling_rate) * p.num_channels) / 8

-- Decimal digits, as `stream << ticker` writes them. Ten rounds do for an `unsigned int`.
digits : ℕ → ℕ → List ℕ
digits zero n = []
digits (suc fuel) n =
    let rest = digits fuel (n / 10) in
    if ltb n 10 then (48 + n) ∷ [] else rest ++ (48 + n % 10) ∷ []

unfoldable pub get_suffix : ℕ → List ℕ
unfolding digits
get_suffix ticker = digits 10 ticker
