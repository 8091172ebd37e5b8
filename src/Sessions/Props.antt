-- ===== src/Sessions/Props.antt =====
-- src/acm_session_mgr.cpp: the formats and frequencies of the IARM messages.
use rdk_audiocapturemgr.Prelude.{ℕ, ◌≡◌, arith, Bool, true, false, if◌then◌else◌}
use rdk_audiocapturemgr.Audio.{
  AudioProperties, Format, Freq, stereo16, stereo24, mono_left16, mono_right16, mono16, surround24,
  f16000, f24000, f32000, f44100, f48000,
}

-- `other n` is any value that has no name.
pub data AcmFormat : Type 0 where
  acm_stereo16 acm_stereo24 acm_mono_left16 acm_mono_right16 acm_mono16 acm_surround24 : AcmFormat
  acm_format_max : AcmFormat
  acm_format_other : ℕ → AcmFormat

pub data AcmFreq : Type 0 where
  acm_f16000 acm_f24000 acm_f32000 acm_f44100 acm_f48000 acm_freq_max : AcmFreq
  acm_freq_other : ℕ → AcmFreq

pub record AcmProperties : Type 0 where
  pub format : AcmFormat
  pub sampling_frequency : AcmFreq
  pub fifo_size : ℕ
  pub threshold : ℕ
  pub delay_compensation_ms : ℕ

abbrev pub format_out : Format → AcmFormat
format_out stereo16 = acm_stereo16
format_out stereo24 = acm_stereo24
format_out mono_left16 = acm_mono_left16
format_out mono_right16 = acm_mono_right16
format_out mono16 = acm_mono16
format_out surround24 = acm_surround24
format_out Format.max = acm_format_max
format_out (Format.other n) = acm_stereo16

-- The frequencies of `get_default_audio_props_handler`.
abbrev pub default_freq_out : Freq → AcmFreq
default_freq_out f16000 = acm_f16000
default_freq_out f24000 = acm_f48000
default_freq_out f32000 = acm_f32000
default_freq_out f44100 = acm_f44100
default_freq_out f48000 = acm_f48000
default_freq_out Freq.max = acm_freq_max
default_freq_out (Freq.other n) = acm_f48000

-- The frequencies of `get_audio_props_handler`.
abbrev pub freq_out : Freq → AcmFreq
freq_out f16000 = acm_f16000
freq_out f24000 = acm_f24000
freq_out f32000 = acm_f32000
freq_out f44100 = acm_f44100
freq_out f48000 = acm_f48000
freq_out Freq.max = acm_freq_max
freq_out (Freq.other n) = acm_f48000

abbrev pub format_in : AcmFormat → Format
format_in acm_stereo16 = stereo16
format_in acm_stereo24 = stereo24
format_in acm_mono_left16 = mono_left16
format_in acm_mono_right16 = mono_right16
format_in acm_mono16 = mono16
format_in acm_surround24 = surround24
format_in acm_format_max = Format.max
format_in (acm_format_other n) = stereo16

abbrev pub freq_in : AcmFreq → Freq
freq_in acm_f16000 = f16000
freq_in acm_f24000 = f24000
freq_in acm_f32000 = f32000
freq_in acm_f44100 = f44100
freq_in acm_f48000 = f48000
freq_in acm_freq_max = Freq.max
freq_in (acm_freq_other n) = f48000

-- What `get_default_audio_props_handler`, `get_audio_props_handler` and `set_audio_props_handler`
-- copy.
unfoldable pub default_props_out : AudioProperties → AcmProperties
default_props_out p = record {
  format = format_out p.format;
  sampling_frequency = default_freq_out p.sampling_frequency;
  fifo_size = p.fifo_size;
  threshold = p.threshold;
  delay_compensation_ms = p.delay_compensation_ms;
}

unfoldable pub props_out : AudioProperties → AcmProperties
props_out p = record {
  format = format_out p.format;
  sampling_frequency = freq_out p.sampling_frequency;
  fifo_size = p.fifo_size;
  threshold = p.threshold;
  delay_compensation_ms = p.delay_compensation_ms;
}

unfoldable pub props_in : AcmProperties → AudioProperties
props_in p = record {
  format = format_in p.format;
  sampling_frequency = freq_in p.sampling_frequency;
  fifo_size = p.fifo_size;
  threshold = p.threshold;
  delay_compensation_ms = p.delay_compensation_ms;
}

abbrev pub is_24000 : Freq → Bool
is_24000 f24000 = true
is_24000 _ = false

-- Whether the value of a message has a name.
abbrev pub is_named_format : AcmFormat → Bool
is_named_format (acm_format_other n) = false
is_named_format _ = true

abbrev pub is_named_freq : AcmFreq → Bool
is_named_freq (acm_freq_other n) = false
is_named_freq _ = true

-- Properties set by a message and read back by another are those of the first message, where its
-- format and frequency have a name; so are those of the queue manager after a message that reads them
-- and one that sets them.
pub props_out-props_in :
    (p : AcmProperties) (q : AudioProperties)
    → is_named_format p.format ≡ true
    → is_named_freq p.sampling_frequency ≡ true
    → q ≡ props_in p
    → (props_out q ≡ p) × (props_in (props_out q) ≡ q)
unfolding props_out props_in
props_out-props_in p q format freq e = ground arith

-- Both messages that read properties agree, except that the one for the default properties reports
-- 48 kHz for 24 kHz.
pub default_props_out_lem :
    (p : AudioProperties)
    → default_props_out p ≡ record (props_out p) {
      sampling_frequency =
          if is_24000 p.sampling_frequency then acm_f48000 else freq_out p.sampling_frequency;
    }
unfolding default_props_out props_out
default_props_out_lem p = ground arith
