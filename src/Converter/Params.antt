-- ===== src/Converter/Params.antt =====
-- Which conversions the converter takes on.
use rdk_audiocapturemgr.Prelude.{◌==◌, ◌||◌, ◌&&◌, ◌≡◌, ok, arith, Bool, true, false, if◌then◌else◌}
use rdk_audiocapturemgr.Prelude.Int.{pos, negsuc}
use rdk_audiocapturemgr.Audio.{
  AudioProperties, Format, Freq, f16000, f24000, f32000, f44100, f48000, stereo16, mono16,
  mono_left16, mono_right16, sampling_rate_of, get_individual_audio_parameters,
}
use rdk_audiocapturemgr.Converter.{
  same_format, none, format_code, some, unsupported_conversion, op_of, process_conversion_params,
  check_format, check_rates,
}

-- A frequency with a name.
abbrev pub is_known : Freq → Bool
is_known Freq.max = false
is_known (Freq.other n) = false
is_known _ = true

-- Pairs of frequencies, the input's first, between which whole samples can be left out.
abbrev pub is_slower : Freq → Freq → Bool
is_slower f48000 f16000 = true
is_slower f48000 f24000 = true
is_slower f32000 f16000 = true
is_slower _ _ = false

abbrev pub is_same : Freq → Freq → Bool
is_same f16000 f16000 = true
is_same f24000 f24000 = true
is_same f32000 f32000 = true
is_same f44100 f44100 = true
is_same f48000 f48000 = true
is_same _ _ = false

-- Pairs of formats, the input's first, that differ in the channels alone.
abbrev pub mixes_down : Format → Format → Bool
mixes_down stereo16 mono16 = true
mixes_down _ _ = false

abbrev pub relabels : Format → Format → Bool
relabels mono_left16 mono16 = true
relabels mono_right16 mono16 = true
relabels _ _ = false

rates_table :
    (i o : Freq)
    → is_known i ≡ true
    → is_known o ≡ true
    → check_rates (sampling_rate_of i) (sampling_rate_of o)
      ≡ ok (if is_same i o then some false else (if is_slower i o then some true else none))
unfolding check_rates sampling_rate_of
rates_table i o known_i known_o = ground arith

format_table :
    (i o : Format)
    → check_format i o ≡ (
        if mixes_down i o
        then some true
        else (if format_code o == format_code i || relabels i o then some false else none))
unfolding check_format
format_table i o = ground arith

-- Between named frequencies the constructor never divides by zero. It succeeds exactly if the
-- formats are equal or the output is 16-bit mono and the input 16-bit stereo or one of its channels,
-- and the frequencies are equal or 48 kHz to 16 or 24 kHz or 32 kHz to 16 kHz. It then mixes down
-- exactly for stereo to mono, and leaves samples out exactly for different frequencies.
pub process_conversion_params_lem :
    (i o : AudioProperties)
    → is_known i.sampling_frequency ≡ true
    → is_known o.sampling_frequency ≡ true
    → process_conversion_params i o
      ≡ ok (
          let mixes : Bool = mixes_down i.format o.format in
          let slower : Bool = is_slower i.sampling_frequency o.sampling_frequency in
          if (mixes || same_format i.format o.format || relabels i.format o.format)
            && (is_same i.sampling_frequency o.sampling_frequency || slower)
          then (op_of mixes slower, pos 0)
          else (unsupported_conversion, negsuc 0))
unfolding process_conversion_params get_individual_audio_parameters
process_conversion_params_lem i o known_i known_o = ground (
  arith,
  rates_table i.sampling_frequency o.sampling_frequency known_i known_o,
  format_table i.format o.format,
)
