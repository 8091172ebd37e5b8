-- ===== src/Audio/Rate.antt =====
-- The data rate of `calculate_data_rate`: its exact value, its bound, and the frames it consists of.
use rdk_audiocapturemgr.Prelude.{ℕ, ◌*◌, ◌/◌, ◌≤◌, ◌≡◌, arith}
use rdk_audiocapturemgr.Audio.{
  Format, AudioProperties, sampling_rate_of, bits_per_sample_of, num_channels_of,
  calculate_data_rate,
}

-- The bytes of one frame, one sample of each channel.
abbrev pub frame_bytes : Format → ℕ
frame_bytes f = num_channels_of f * (bits_per_sample_of f / 8)

-- Whatever the properties, the products do not wrap and the division is exact: the data rate is the
-- frame size times the sampling rate, and at most 864000 bytes per second.
pub calculate_data_rate-exact :
    (props : AudioProperties)
    → (calculate_data_rate props
        ≡ frame_bytes props.format * sampling_rate_of props.sampling_frequency)
      × (calculate_data_rate props ≤ 864000)
unfolding calculate_data_rate
calculate_data_rate-exact props = ground arith
