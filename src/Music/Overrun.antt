-- ===== src/Music/Overrun.antt =====
-- src/music_id.cpp: a clip that is mixed down for the outbox from a queue that holds more than the clip, as
-- it does while a longer clip is asked for.
use rdk_audiocapturemgr.Prelude.{
  refl, ℕ, suc, ◌*◌, ◌/◌, ◌<◌, ◌≡◌, List, [], ◌∷◌, true, ok, err, out_of_bounds, length, arith,
}
use rdk_audiocapturemgr.Prelude.Int.{ℤ}
use rdk_audiocapturemgr.Audio.{
  AudioProperties, stereo16, mono16, u32, calculate_data_rate, get_individual_audio_parameters,
  num_channels_of, bits_per_sample_of,
}
use rdk_audiocapturemgr.Buffer.{Buffer, Heap}
use rdk_audiocapturemgr.Converter.{
  Converter, downmix, memory_sink, audio_converter, audio_converter_memory_sink,
}
use rdk_audiocapturemgr.Converter.Params.{is_same, process_conversion_params_lem}
use rdk_audiocapturemgr.Converter.Loops.{to_int, convert, downmix_all}
use rdk_audiocapturemgr.Converter.Decimate.{joined, AllWhole}
use rdk_audiocapturemgr.Converter.Downsample.{leaps, leaps-joined}
use rdk_audiocapturemgr.Converter.Stereo.{AllSmall}
use rdk_audiocapturemgr.Converter.Overrun.{downmix_stereo-overruns}
use rdk_audiocapturemgr.Music.{MusicIdClient}
use rdk_audiocapturemgr.Music.Grab.{not_empty}
use rdk_audiocapturemgr.Music.Clips.{load_all, convert_queue, grab_to_outbox}

stereo_to_mono :
    (i o : AudioProperties)
    → i.format ≡ stereo16
    → o.format ≡ mono16
    → is_same i.sampling_frequency o.sampling_frequency ≡ true
    → audio_converter i o ≡ ok (record { in_props = i; out_props = o; op = downmix })
unfolding audio_converter
stereo_to_mono i o stereo mono same =
    ground (arith, stereo, mono, same, process_conversion_params_lem i o)

downmix_all-overruns :
    (c : Converter) (bs : List Buffer) (size : ℤ) (max : ℕ)
    → c.in_props.format ≡ stereo16
    → AllWhole 4 bs
    → AllSmall bs
    → max < leaps 4 bs * 2
    → downmix_all c bs size (memory_sink max []) ≡ err out_of_bounds
unfolding downmix_all get_individual_audio_parameters num_channels_of bits_per_sample_of
downmix_all-overruns c bs size max stereo whole small full =
    rw (stereo, downmix_stereo-overruns bs max [] whole small (omega arith) (omega (arith, full)))

convert_queue-overruns :
    (p : AudioProperties) (size max : ℕ) (m : MusicIdClient) (h : Heap) (bs : List Buffer)
    → m.convert_output ≡ true
    → p.format ≡ stereo16
    → m.output_properties.format ≡ mono16
    → is_same p.sampling_frequency m.output_properties.sampling_frequency ≡ true
    → load_all m.queue h ≡ ok bs
    → AllWhole 4 bs
    → AllSmall bs
    → max < leaps 4 bs * 2
    → convert_queue p size m h (memory_sink max []) ≡ err out_of_bounds
unfolding convert_queue convert
convert_queue-overruns p size max m h bs converts stereo mono same loads whole small full =
    let c : Converter = record { in_props = p; out_props = m.output_properties; op = downmix } in
    simp
      (
        converts,
        stereo_to_mono p m.output_properties stereo mono same,
        loads,
        downmix_all-overruns c bs (to_int size) max stereo whole small full,
      )
      refl

-- A clip of 16-bit stereo that is mixed down to mono at the same frequency, for the outbox, from
-- buffers of whole frames and fewer than 2 ^ 32 bytes: if the left samples of the whole queue are
-- more bytes than the seconds asked for and one more take, the program writes past the end of the
-- memory of the clip.
pub grab_to_outbox-overruns :
    (p : AudioProperties) (data_rate seconds : ℕ) (m : MusicIdClient) (h : Heap) (bs : List Buffer)
    → m.convert_output ≡ true
    → p.format ≡ stereo16
    → m.output_properties.format ≡ mono16
    → is_same p.sampling_frequency m.output_properties.sampling_frequency ≡ true
    → load_all m.queue h ≡ ok bs
    → AllWhole 4 bs
    → AllSmall bs
    → u32 (calculate_data_rate m.output_properties * u32 (suc seconds)) < length (joined bs) / 4 * 2
    → grab_to_outbox p data_rate seconds m h ≡ err out_of_bounds
unfolding grab_to_outbox audio_converter_memory_sink joined
grab_to_outbox-overruns p data_rate seconds m h [] converts stereo mono same loads whole small
      full =
    absurd (omega (arith, leaps-joined 4 [] (omega arith) tt))
grab_to_outbox-overruns p data_rate seconds m h (b ∷ bs) converts stereo mono same loads whole small
      full =
    let count = leaps-joined 4 (b ∷ bs) (omega arith) whole in
    let overruns =
      convert_queue-overruns p (u32 (seconds * data_rate))
        (u32 (calculate_data_rate m.output_properties * u32 (suc seconds))) m h (b ∷ bs) converts
        stereo mono same loads whole small (rw count full) in
    simp (not_empty m.queue h b bs loads, converts, overruns) refl
