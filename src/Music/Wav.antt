-- ===== src/Music/Wav.antt =====
-- src/music_id.cpp: the WAV header of a clip, its two sizes filled in when the clip is written.
use rdk_audiocapturemgr.Prelude.{
  ℕ, ◌+◌, ◌*◌, ◌/◌, ◌%◌, ◌^◌, ◌<◌, ◌≡◌, List, [], ◌∷◌, ◌++◌, arith, length, take, drop,
  if◌then◌else◌, refl,
}
use rdk_audiocapturemgr.Audio.{AudioProperties, Parameters, get_individual_audio_parameters, u32}
use rdk_audiocapturemgr.Music.{MusicIdClient, get_audio_properties}

unfoldable pub write_32byte_little_endian : ℕ → List ℕ
write_32byte_little_endian word =
    word % 256 ∷ word / 2 ^ 8 % 256 ∷ word / 2 ^ 16 % 256 ∷ word / 2 ^ 24 % 256 ∷ []

unfoldable pub write_16byte_little_endian : ℕ → List ℕ
write_16byte_little_endian word = word % 256 ∷ word / 2 ^ 8 % 256 ∷ []

-- The characters of "RIFF", "WAVE", "fmt " and "data".
abbrev riff_tag : List ℕ
riff_tag = 82 ∷ 73 ∷ 70 ∷ 70 ∷ []

abbrev wave_tag : List ℕ
wave_tag = 87 ∷ 65 ∷ 86 ∷ 69 ∷ []

abbrev fmt_tag : List ℕ
fmt_tag = 102 ∷ 109 ∷ 116 ∷ 32 ∷ []

abbrev data_tag : List ℕ
data_tag = 100 ∷ 97 ∷ 116 ∷ 97 ∷ []

-- The header for the given parameters; an argument of type uint16_t is reduced to it.
unfoldable pub header_bytes : Parameters → ℕ → List ℕ
unfolding write_32byte_little_endian write_16byte_little_endian
header_bytes p data_rate =
    riff_tag
    ++ write_32byte_little_endian 0
    ++ wave_tag
    ++ fmt_tag
    ++ write_32byte_little_endian 16
    ++ write_16byte_little_endian 1
    ++ write_16byte_little_endian (p.num_channels % 2 ^ 16)
    ++ write_32byte_little_endian p.sampling_rate
    ++ write_32byte_little_endian data_rate
    ++ write_16byte_little_endian (u32 (p.num_channels * p.bits_per_sample) / 8 % 2 ^ 16)
    ++ write_16byte_little_endian (p.bits_per_sample % 2 ^ 16)
    ++ data_tag
    ++ write_32byte_little_endian 0

-- `properties` and `data_rate` are those of the queue manager.
unfoldable pub write_default_file_header : AudioProperties → ℕ → MusicIdClient → List ℕ
unfolding header_bytes
write_default_file_header properties data_rate m =
    if m.convert_output
    then (let p : Parameters = get_individual_audio_parameters m.output_properties in
        header_bytes p (u32 (u32 (p.sampling_rate * p.num_channels) * p.bits_per_sample) / 8))
    else header_bytes (get_individual_audio_parameters (get_audio_properties properties m))
        data_rate

-- `seekp` and a write over what is there.
unfoldable pub overwrite_at : ℕ → List ℕ → List ℕ → List ℕ
overwrite_at position bytes file =
    take position file ++ bytes ++ drop (position + length bytes) file

unfoldable pub update_file_header_size : List ℕ → ℕ → List ℕ
unfolding overwrite_at write_32byte_little_endian
update_file_header_size file data_size =
    overwrite_at 40 (write_32byte_little_endian data_size)
      (overwrite_at 4 (write_32byte_little_endian (u32 (36 + data_size))) file)

-- A number read at a position, low byte first.
abbrev pub read_32 : List ℕ → ℕ
read_32 (a ∷ b ∷ c ∷ d ∷ rest) = a + b * 2 ^ 8 + c * 2 ^ 16 + d * 2 ^ 24
read_32 _ = 0

abbrev pub read_16 : List ℕ → ℕ
read_16 (a ∷ b ∷ rest) = a + b * 2 ^ 8
read_16 _ = 0

small_product : (a b : ℕ) → a < 256 → b < 256 → a * b < 65536
small_product a b ha hb = grind arith

-- A clip of fewer than 2 ^ 32 - 36 bytes behind the header of a format, with the sizes filled in: a
-- reader finds the size of the rest of the file, the data size, and the format's channels, rate, data rate,
-- frame size and sample size, and behind the 44 bytes of the header the clip itself.
pub read-update_file_header_size :
    (p : Parameters) (data_rate : ℕ) (clip : List ℕ)
    → p.num_channels < 2 ^ 8
    → p.bits_per_sample < 2 ^ 8
    → p.sampling_rate < 2 ^ 32
    → data_rate < 2 ^ 32
    → length clip + 36 < 2 ^ 32
    → (let file : List ℕ =
          update_file_header_size (header_bytes p data_rate ++ clip) (length clip) in
        (drop 44 file ≡ clip)
        × (read_32 (drop 4 file) + 8 ≡ length file)
        × (read_32 (drop 40 file) ≡ length clip)
        × (read_16 (drop 22 file) ≡ p.num_channels)
        × (read_32 (drop 24 file) ≡ p.sampling_rate)
        × (read_32 (drop 28 file) ≡ data_rate)
        × (read_16 (drop 32 file) ≡ p.num_channels * p.bits_per_sample / 8)
        × (read_16 (drop 34 file) ≡ p.bits_per_sample))
unfolding update_file_header_size header_bytes
read-update_file_header_size p data_rate clip channels bits rate data_fits small = (
  refl,
  omega arith,
  omega arith,
  omega arith,
  omega arith,
  omega arith,
  omega (arith, small_product p.num_channels p.bits_per_sample channels bits),
  omega arith,
)
