-- ===== src/Converter/Tests.antt =====
-- Conversions of short queues, and the theorems about them at concrete inputs.
use rdk_audiocapturemgr.Prelude.{ℕ, ◌≡◌, refl, arith, [], ◌∷◌, List, ok, length}
use rdk_audiocapturemgr.Prelude.Int.{pos, negsuc, ◌-ℤ◌}
use rdk_audiocapturemgr.Audio.{
  num_channels_of, bits_per_sample_of, sampling_rate_of, AudioProperties, mono16, f32000, f16000,
  f44100,
}
use rdk_audiocapturemgr.Audio.Tests.{cd_stereo}
use rdk_audiocapturemgr.Buffer.{Buffer}
use rdk_audiocapturemgr.Converter.{
  downmix, Converter, memory_sink, downsample, unsupported_conversion, process_conversion_params,
}
use rdk_audiocapturemgr.Converter.Params.{process_conversion_params_lem}
use rdk_audiocapturemgr.Converter.Loops.{downsample_and_downmix, downmix_all}
use rdk_audiocapturemgr.Converter.Decimate.{decimate, joined, consumed}
use rdk_audiocapturemgr.Converter.Leaps.{downsample_and_downmix-decimate}
use rdk_audiocapturemgr.Converter.Stereo.{downmix_all-decimate}

abbrev voice_32 : AudioProperties
voice_32 = record cd_stereo { format = mono16; sampling_frequency = f32000 }

abbrev voice_16 : AudioProperties
voice_16 = record cd_stereo { format = mono16; sampling_frequency = f16000 }

abbrev halving : Converter
halving = record { in_props = voice_32; out_props = voice_16; op = downsample }

abbrev chunk : List ℕ → Buffer
chunk bytes = record { bytes = bytes; size = length bytes; clip_length = 0; refcount = 1 }

abbrev two_chunks : List Buffer
two_chunks = chunk (1 ∷ 2 ∷ 3 ∷ 4 ∷ []) ∷ chunk (5 ∷ 6 ∷ 7 ∷ 8 ∷ 9 ∷ 10 ∷ 11 ∷ 12 ∷ []) ∷ []

process_conversion_params_example :
    process_conversion_params (record cd_stereo { sampling_frequency = f44100 }) voice_16
    ≡ ok (unsupported_conversion, negsuc 0)
process_conversion_params_example =
    process_conversion_params_lem (record cd_stereo { sampling_frequency = f44100 }) voice_16 refl
      refl

downsample_and_downmix-decimate_example :
    downsample_and_downmix halving two_chunks (pos 12) (memory_sink 6 [])
    ≡ ok (memory_sink 6 (1 ∷ 2 ∷ 5 ∷ 6 ∷ 9 ∷ 10 ∷ []), pos 0)
unfolding decimate joined consumed num_channels_of bits_per_sample_of sampling_rate_of ◌-ℤ◌
downsample_and_downmix-decimate_example =
    downsample_and_downmix-decimate halving two_chunks (pos 12) (memory_sink 6 []) refl
      (omega arith) (refl, refl, (refl, refl, tt)) (omega arith)

abbrev mixing : Converter
mixing = record {
  in_props = cd_stereo;
  out_props = record cd_stereo { format = mono16 };
  op = downmix;
}

downmix_all-decimate_example :
    downmix_all mixing two_chunks (pos 12) (memory_sink 6 [])
    ≡ ok (memory_sink 6 (1 ∷ 2 ∷ 5 ∷ 6 ∷ 9 ∷ 10 ∷ []), pos 0)
unfolding decimate joined consumed ◌-ℤ◌
downmix_all-decimate_example =
    (downmix_all-decimate mixing two_chunks (pos 12) 6 refl (refl, refl, (refl, refl, tt))
      (omega arith, (omega arith, tt)) (omega arith) refl).0
