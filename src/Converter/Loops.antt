-- ===== src/Converter/Loops.antt =====
-- src/audio_converter.cpp: the loops that read the queued buffers and write to the sink. A loop takes
-- fuel, which the callers give by the length of the block; `int` sizes are
-- integers; the size of a buffer is below 2 ^ 31, as the conversions to `int` suppose.
use rdk_audiocapturemgr.Prelude.{
  ℕ, zero, suc, ◌+◌, ◌-◌, ◌*◌, ◌/◌, ◌^◌, List, [], ◌∷◌, Bool, true, false, Result, ok, err,
  div_by_zero, out_of_fuel, ◌>>=◌, ltb, leb, ◌==◌, ◌&&◌, ◌||◌, if◌then◌else◌, length, drop, ◌++◌,
  ltb,
}
use rdk_audiocapturemgr.Prelude.Int.{ℤ, pos, negsuc, ltb_ℤ, ◌-ℤ◌, neg_part}
use rdk_audiocapturemgr.Audio.{Parameters, get_individual_audio_parameters, u32}
use rdk_audiocapturemgr.Buffer.{Buffer}
use rdk_audiocapturemgr.Converter.{
  content, Op, no_conversion, downmix, downsample, downmix_and_downsample, unsupported_conversion,
  Sink, file_sink, memory_sink, read_bytes, put, write_data, Converter,
}

-- The inner loop of `downsample_and_downmix`: one write for each `leap` bytes. It returns the final
-- value of `buffer_size`.
unfoldable pub downsample_buffer : ℕ → ℕ → ℕ → List ℕ → ℕ → ℤ → Sink → Result (ℤ × Sink)
downsample_buffer zero leap width block ptr buffer_size sink = err out_of_fuel
downsample_buffer (suc fuel) leap width block ptr buffer_size sink =
    if ltb_ℤ (pos 0) buffer_size
    then (do
      (sink', ret) ← write_data sink block ptr width
      downsample_buffer fuel leap width block (ptr + leap) (buffer_size -ℤ pos leap) sink')
    else ok (buffer_size, sink)

-- The loop over the queue; `read_offset` is the `int` of the source, and never negative.
unfoldable pub downsample_queue : ℕ → ℕ → ℕ → List Buffer → ℕ → ℤ → Sink → Result Sink
unfolding downsample_buffer
downsample_queue frame leap width [] read_offset size sink = ok sink
downsample_queue frame leap width (b ∷ bs) read_offset size sink =
    if frame == 0 then err div_by_zero else (do
      (left, sink') ←
          downsample_buffer (suc b.size) leap width b.bytes read_offset (pos b.size) sink
      let size' : ℤ = size -ℤ pos b.size
      if ltb_ℤ (pos 0) size'
          then downsample_queue frame leap width bs (neg_part left) size' sink'
          else ok sink')

abbrev pub writes_sample : Op → Bool
writes_sample downmix_and_downsample = true
writes_sample _ = false

unfoldable pub downsample_and_downmix : Converter → List Buffer → ℤ → Sink → Result (Sink × ℤ)
unfolding downsample_queue
downsample_and_downmix c queue size sink =
    let i : Parameters = get_individual_audio_parameters c.in_props in
    let o : Parameters = get_individual_audio_parameters c.out_props in
    let sample : ℕ = i.bits_per_sample / 8 in
    let frame : ℕ = i.num_channels * sample in
    if o.sampling_rate == 0 then err div_by_zero else (do
      sink' ←
          downsample_queue frame (u32 (frame * i.sampling_rate) / o.sampling_rate)
            (if writes_sample c.op then sample else frame) queue 0 size sink
      ok (sink', pos 0))

-- The special case of `downmix`: eight samples of the left channel at a time, then one at a time.
-- `data_remaining` is unsigned and wraps below 0.
unfoldable pub copy_frames : ℕ → List ℕ → ℕ → Sink → Result Sink
copy_frames zero block ptr sink = ok sink
copy_frames (suc n) block ptr sink = do
  bytes ← read_bytes block ptr 2
  sink' ← put sink bytes
  copy_frames n block (ptr + 4) sink'

unfoldable pub downmix_rest : ℕ → List ℕ → ℕ → ℕ → Sink → Result Sink
downmix_rest zero block ptr remaining sink = err out_of_fuel
downmix_rest (suc fuel) block ptr remaining sink = if remaining == 0 then ok sink else (do
  sink' ← copy_frames 1 block ptr sink
  downmix_rest fuel block (ptr + 4) (u32 (remaining + 2 ^ 32 - 4)) sink')

unfoldable pub downmix_eights : ℕ → List ℕ → ℕ → ℕ → Sink → Result Sink
downmix_eights zero block ptr remaining sink = err out_of_fuel
downmix_eights (suc fuel) block ptr remaining sink =
    if leb 32 remaining
    then (do
      sink' ← copy_frames 8 block ptr sink
      downmix_eights fuel block (ptr + 32) (remaining - 32) sink')
    else downmix_rest (suc fuel) block ptr remaining sink

-- All buffers of the queue, whatever `size` says.
unfoldable pub downmix_stereo : List Buffer → Sink → Result Sink
downmix_stereo [] sink = ok sink
downmix_stereo (b ∷ bs) sink = do
  sink' ← downmix_eights (suc (length b.bytes)) b.bytes 0 b.size sink
  downmix_stereo bs sink'

-- The general case of `downmix`; `buffer_size` is unsigned here.
unfoldable pub downmix_buffer : ℕ → ℕ → ℕ → List ℕ → ℕ → ℕ → Sink → Result Sink
downmix_buffer zero frame sample block ptr buffer_size sink = err out_of_fuel
downmix_buffer (suc fuel) frame sample block ptr buffer_size sink =
    if ltb 0 buffer_size
    then (do
      (sink', ret) ← write_data sink block ptr sample
      downmix_buffer fuel frame sample block (ptr + frame) (u32 (buffer_size + 2 ^ 32 - frame))
          sink')
    else ok sink

unfoldable pub downmix_queue : ℕ → ℕ → List Buffer → ℤ → Sink → Result Sink
downmix_queue frame sample [] size sink = ok sink
downmix_queue frame sample (b ∷ bs) size sink = if frame == 0 then err div_by_zero else (do
  sink' ← downmix_buffer (suc (length b.bytes)) frame sample b.bytes 0 b.size sink
  let size' : ℤ = size -ℤ pos b.size
  if ltb_ℤ (pos 0) size' then downmix_queue frame sample bs size' sink' else ok sink')

abbrev pub is_memory : Sink → Bool
is_memory (file_sink bytes) = false
is_memory (memory_sink max_size bytes) = true

-- The special case writes from the start of the sink's memory, while `m_write_offset` goes on from
-- where it was: new bytes replace the first ones. What lies behind them is memory that was never
-- written, of which the model says 0. The program gives it empty sinks only.
abbrev zeros : ℕ → List ℕ
zeros zero = []
zeros (suc n) = 0 ∷ zeros n

abbrev pub rewind : Sink → Sink
rewind (file_sink bytes) = file_sink bytes
rewind (memory_sink max_size bytes) = memory_sink max_size []

unfoldable pub overwritten : List ℕ → Sink → Sink
overwritten [] new_sink = new_sink
overwritten old (file_sink new) = file_sink new
overwritten old (memory_sink max_size new) = memory_sink max_size (
    new
    ++ drop (length new) old
    ++ zeros (if ltb (length old) (length new) then length old else length new))

unfoldable pub downmix_all : Converter → List Buffer → ℤ → Sink → Result (Sink × ℤ)
downmix_all c queue size sink =
    let i : Parameters = get_individual_audio_parameters c.in_props in
    let sample : ℕ = i.bits_per_sample / 8 in
    if is_memory sink && i.bits_per_sample == 16 && i.num_channels == 2
    then (do
      sink' ← downmix_stereo queue (rewind sink)
      ok (overwritten (content sink) sink', pos 0))
    else (do
      sink' ← downmix_queue (i.num_channels * sample) sample queue size sink
      ok (sink', pos 0))

-- `ret` starts as -1, which an empty queue leaves; a write error would end the loop.
unfoldable pub passthrough : List Buffer → ℤ → Sink → ℤ → Result (Sink × ℤ)
passthrough [] size sink ret = ok (sink, ret)
passthrough (b ∷ bs) size sink ret = do
  (sink', written) ← write_data sink b.bytes 0 b.size
  let size' : ℤ = size -ℤ pos b.size
  if ltb_ℤ written (pos 0) || ltb_ℤ size' (pos 0)
      then ok (sink', written)
      else passthrough bs size' sink' written

-- An `unsigned int` passed as an `int`.
abbrev pub to_int : ℕ → ℤ
to_int n = if ltb n (2 ^ 31) then pos n else negsuc (2 ^ 32 - n - 1)

convert_as : Op → Converter → List Buffer → ℤ → Sink → Result (Sink × ℤ)
convert_as downmix_and_downsample c queue size sink = downsample_and_downmix c queue size sink
convert_as downmix c queue size sink = downmix_all c queue size sink
convert_as downsample c queue size sink = downsample_and_downmix c queue size sink
convert_as no_conversion c queue size sink = passthrough queue size sink (negsuc 0)
convert_as unsupported_conversion c queue size sink = ok (sink, negsuc 0)

unfoldable pub convert : Converter → List Buffer → ℕ → Sink → Result (Sink × ℤ)
unfolding convert_as
convert c queue size sink = convert_as c.op c queue (to_int size) sink
