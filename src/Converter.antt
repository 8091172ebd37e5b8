-- ===== src/Converter.antt =====
-- include/audio_converter.h, src/audio_converter.cpp: conversion of captured buffers to a mono or a
-- slower signal. Reading outside a buffer and writing past a memory sink are faults of the model.
pub mod Params
pub mod Loops
pub mod Decimate
pub mod Downsample
pub mod Leaps
pub mod Downmix
pub mod Stereo
pub mod Passthrough
pub mod Overrun
pub mod Tests
use rdk_audiocapturemgr.Prelude.{
  ℕ, suc, ◌+◌, ◌-◌, ◌*◌, ◌/◌, ◌%◌, ◌^◌, List, [], ◌∷◌, ◌++◌, Bool, true, false, Option, none, some,
  Result, ok, err, div_by_zero, out_of_bounds, out_of_fuel, ◌>>=◌, ltb, leb, ◌==◌, ◌&&◌, ◌||◌, not,
  if◌then◌else◌, length, take, drop,
}
use rdk_audiocapturemgr.Prelude.Int.{ℤ, pos, negsuc, ltb_ℤ, ◌-ℤ◌}
use rdk_audiocapturemgr.Audio.{
  AudioProperties, Format, Freq, stereo16, stereo24, mono_left16, mono_right16, mono16, surround24,
  Parameters, get_individual_audio_parameters, u32,
}
use rdk_audiocapturemgr.Buffer.{Buffer}

pub data Op : Type 0 where
  no_conversion downmix downsample downmix_and_downsample unsupported_conversion : Op

-- A sink with the bytes written so far; `m_write_offset` of a memory sink is their number.
pub data Sink : Type 0 where
  file_sink : List ℕ → Sink
  memory_sink : ℕ → List ℕ → Sink

unfoldable pub audio_converter_memory_sink : ℕ → Sink
audio_converter_memory_sink max_size = memory_sink max_size []

abbrev pub content : Sink → List ℕ
content (file_sink bytes) = bytes
content (memory_sink max_size bytes) = bytes

-- `size` bytes of a block, from the position `ptr` on.
unfoldable pub read_bytes : List ℕ → ℕ → ℕ → Result (List ℕ)
read_bytes block ptr size =
    if leb (ptr + size) (length block) then ok (take size (drop ptr block)) else err out_of_bounds

unfoldable pub put : Sink → List ℕ → Result Sink
put (file_sink bytes) new = ok (file_sink (bytes ++ new))
put (memory_sink max_size bytes) new =
    if leb (length bytes + length new) max_size
    then ok (memory_sink max_size (bytes ++ new))
    else err out_of_bounds

-- The virtual method `write_data`; both sinks return 0.
unfoldable pub write_data : Sink → List ℕ → ℕ → ℕ → Result (Sink × ℤ)
write_data sink block ptr size = do
  bytes ← read_bytes block ptr size
  sink' ← put sink bytes
  ok (sink', pos 0)

abbrev pub format_code : Format → ℕ
format_code stereo16 = 0
format_code stereo24 = 1
format_code mono_left16 = 2
format_code mono_right16 = 3
format_code mono16 = 4
format_code surround24 = 5
format_code Format.max = 6
format_code (Format.other n) = n + 7

abbrev pub same_format : Format → Format → Bool
same_format a b = format_code a == format_code b

-- The format tests, in their order: `none` if the conversion is not supported, else whether the
-- channels are mixed down.
unfoldable pub check_format : Format → Format → Option Bool
check_format in_format out_format =
    if same_format mono16 out_format && same_format stereo16 in_format
    then some true
    else (if same_format out_format in_format
        then some false
        else (if same_format mono16 out_format
              && (same_format mono_left16 in_format || same_format mono_right16 in_format)
            then some false
            else none))

-- The tests of the sampling rates: `none` if they do not go together, else whether to downsample.
-- C++ has no result for `in % 0`.
unfoldable pub check_rates : ℕ → ℕ → Result (Option Bool)
check_rates in_rate out_rate =
    if ltb in_rate out_rate
    then ok none
    else (if out_rate == 0
        then err div_by_zero
        else (if not (in_rate % out_rate == 0) then ok none else ok (some (ltb out_rate in_rate))))

abbrev pub op_of : Bool → Bool → Op
op_of true true = downmix_and_downsample
op_of true false = downmix
op_of false true = downsample
op_of false false = no_conversion

op_of_rates : Bool → Option Bool → Op × ℤ
op_of_rates mix none = (unsupported_conversion, negsuc 0)
op_of_rates mix (some slower) = (op_of mix slower, pos 0)

op_of_format : ℕ → ℕ → Option Bool → Result (Op × ℤ)
unfolding op_of_rates check_rates
op_of_format in_rate out_rate none = ok (unsupported_conversion, negsuc 0)
op_of_format in_rate out_rate (some mix) = do
  rates ← check_rates in_rate out_rate
  ok (op_of_rates mix rates)

-- The operation chosen, and the return value.
unfoldable pub process_conversion_params : AudioProperties → AudioProperties → Result (Op × ℤ)
unfolding check_format op_of_format
process_conversion_params in_props out_props =
    op_of_format (get_individual_audio_parameters in_props).sampling_rate
      (get_individual_audio_parameters out_props).sampling_rate
      (check_format in_props.format out_props.format)

pub record Converter : Type 0 where
  pub in_props : AudioProperties
  pub out_props : AudioProperties
  pub op : Op

unfoldable pub audio_converter : AudioProperties → AudioProperties → Result Converter
unfolding process_conversion_params
audio_converter in_props out_props = do
  (op, ret) ← process_conversion_params in_props out_props
  ok (record { in_props = in_props; out_props = out_props; op = op })
