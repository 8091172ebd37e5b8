-- ===== src/Converter/Leaps.antt =====
-- `downsample_and_downmix` of the converter, with the leap computed from the two sampling rates.
use rdk_audiocapturemgr.Prelude.{
  ℕ, ◌*◌, ◌/◌, ◌≤◌, ◌<◌, ◌≡◌, ◌≢◌, List, Bool, true, false, ok, ==_neg, if◌then◌else◌, length,
  arith,
}
use rdk_audiocapturemgr.Prelude.Int.{ℤ, pos}
use rdk_audiocapturemgr.Audio.{
  Freq, Format, sampling_rate_of, num_channels_of, bits_per_sample_of, u32,
  get_individual_audio_parameters,
}
use rdk_audiocapturemgr.Audio.Rate.{frame_bytes}
use rdk_audiocapturemgr.Buffer.{Buffer}
use rdk_audiocapturemgr.Converter.{Converter, Sink}
use rdk_audiocapturemgr.Converter.Params.{is_slower}
use rdk_audiocapturemgr.Converter.Loops.{writes_sample, downsample_and_downmix}
use rdk_audiocapturemgr.Converter.Decimate.{decimate, extend, HasRoom, joined, consumed, AllWhole}
use rdk_audiocapturemgr.Converter.Downsample.{
  leaps-joined, AllWhole-consumed, downsample_queue-leaps,
}

-- The bytes between two frames that are kept.
abbrev pub leap_of : Converter → ℕ
leap_of c =
    frame_bytes c.in_props.format
    * (sampling_rate_of c.in_props.sampling_frequency
        / sampling_rate_of c.out_props.sampling_frequency)

-- The bytes kept of such a frame: the first sample, or all.
abbrev pub width_of : Converter → ℕ
width_of c =
    if writes_sample c.op
    then bits_per_sample_of c.in_props.format / 8
    else frame_bytes c.in_props.format

leap_exact :
    (i o : Freq) (frame : ℕ)
    → is_slower i o ≡ true
    → frame ≤ 18
    → (u32 (frame * sampling_rate_of i) / sampling_rate_of o
        ≡ frame * (sampling_rate_of i / sampling_rate_of o))
      × (sampling_rate_of o ≢ 0)
      × (1 ≤ sampling_rate_of i / sampling_rate_of o)
unfolding sampling_rate_of
leap_exact i o frame slower small = ground arith

frame_bytes_facts : (f : Format) → (frame_bytes f ≤ 18) × (bits_per_sample_of f / 8 ≤ frame_bytes f)
unfolding num_channels_of bits_per_sample_of
frame_bytes_facts f = ground arith

leap_positive : (frame ratio : ℕ) → frame ≢ 0 → 1 ≤ ratio → 0 < frame * ratio
leap_positive frame ratio f r = grind arith

width_fits :
    (b : Bool) (frame sample ratio : ℕ)
    → sample ≤ frame
    → 1 ≤ ratio
    → (if b then sample else frame) ≤ frame * ratio
width_fits true frame sample ratio s r = grind arith
width_fits false frame sample ratio s r = grind arith

-- Between frequencies that go together, from a format that has frames, on buffers of whole leaps
-- and into a sink with room for what is written: downsample_and_downmix extends the sink by the
-- first bytes of each leap of the bytes read, up to the buffer that completes the size asked for,
-- and reads no byte outside a buffer.
pub downsample_and_downmix-decimate :
    (c : Converter) (queue : List Buffer) (size : ℤ) (sink : Sink)
    → is_slower c.in_props.sampling_frequency c.out_props.sampling_frequency ≡ true
    → frame_bytes c.in_props.format ≢ 0
    → AllWhole (leap_of c) queue
    → HasRoom sink (length (joined (consumed queue size)) / leap_of c * width_of c)
    → downsample_and_downmix c queue size sink
      ≡ ok (
        extend sink (
            decimate
              (length (joined (consumed queue size)) / leap_of c)
              (leap_of c)
              (width_of c)
              (joined (consumed queue size))),
        pos 0,
      )
unfolding downsample_and_downmix get_individual_audio_parameters
downsample_and_downmix-decimate c queue size sink slower some_frame whole room =
    let i : Freq = c.in_props.sampling_frequency in
    let o : Freq = c.out_props.sampling_frequency in
    let facts = frame_bytes_facts c.in_props.format in
    let (exact, rate, ratio) = leap_exact i o (frame_bytes c.in_props.format) slower facts.0 in
    let positive : 0 < leap_of c =
      leap_positive (frame_bytes c.in_props.format) _ some_frame ratio in
    let fits : width_of c ≤ leap_of c =
      width_fits (writes_sample c.op) (frame_bytes c.in_props.format)
        (bits_per_sample_of c.in_props.format / 8) _ facts.1 ratio in
    let count =
      leaps-joined (leap_of c) (consumed queue size) positive
        (AllWhole-consumed (leap_of c) queue size whole) in
    rw (
      ==_neg rate,
      exact,
      downsample_queue-leaps (frame_bytes c.in_props.format) (leap_of c) (width_of c) queue size
          sink some_frame positive fits whole (rw count room),
      count,
    )
