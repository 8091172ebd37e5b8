-- ===== src/Music/Grab.antt =====
-- A clip without conversion: what it holds, and that it fits into its sink.
use rdk_audiocapturemgr.Prelude.{
  inr, inl, ==_neg, ℕ, suc, ◌+◌, ◌*◌, ◌^◌, ◌≤◌, ◌<◌, ◌≡◌, ◌⊎◌, refl, List, [], ◌∷◌, ◌++◌, some,
  true, false, ok, arith, length, ◌==◌, ap,
}
use rdk_audiocapturemgr.Prelude.Int.{pos}
use rdk_audiocapturemgr.Audio.{AudioProperties, u32, calculate_data_rate}
use rdk_audiocapturemgr.Audio.Rate.{calculate_data_rate-exact}
use rdk_audiocapturemgr.Buffer.{Buffer, Heap}
use rdk_audiocapturemgr.Converter.{
  audio_converter_memory_sink, Sink, no_conversion, file_sink, memory_sink, audio_converter,
}
use rdk_audiocapturemgr.Converter.Params.{is_known, process_conversion_params_lem}
use rdk_audiocapturemgr.Converter.Loops.{convert, to_int}
use rdk_audiocapturemgr.Converter.Decimate.{extend, HasRoom, joined}
use rdk_audiocapturemgr.Converter.Passthrough.{
  covering, AllFull, AllShort, passthrough-covering, covering-bounds,
}
use rdk_audiocapturemgr.Music.{MusicIdClient}
use rdk_audiocapturemgr.Music.Clips.{load_all, convert_queue, grab_to_outbox, grab_to_file}

-- A known frequency needs no conversion to itself.
same_properties :
    (p : AudioProperties)
    → is_known p.sampling_frequency ≡ true
    → audio_converter p p ≡ ok (record { in_props = p; out_props = p; op = no_conversion })
unfolding audio_converter
same_properties p known = ground (arith, process_conversion_params_lem p p known known)

pub convert_queue-covering :
    (p : AudioProperties) (size : ℕ) (m : MusicIdClient) (h : Heap) (sink : Sink) (b : Buffer)
    (bs : List Buffer)
    → m.convert_output ≡ false
    → is_known p.sampling_frequency ≡ true
    → load_all m.queue h ≡ ok (b ∷ bs)
    → AllFull (b ∷ bs)
    → size < 2 ^ 31
    → HasRoom sink (length (joined (covering (b ∷ bs) (pos size))))
    → convert_queue p size m h sink ≡ ok (extend sink (joined (covering (b ∷ bs) (pos size))))
unfolding convert_queue convert
convert_queue-covering p size m h sink b bs plain known loads full small room =
    let same : to_int size ≡ pos size = ground arith in
    rw (
      plain,
      same_properties p known,
      loads,
      same,
      passthrough-covering b bs (pos size) _ sink full room,
    )

pub times_le : (a b c : ℕ) → a ≤ b → a * c ≤ b * c
times_le a b c le = grind arith

le_times : (a b c : ℕ) → a ≤ b → c * a ≤ c * b
le_times a b c le = grind arith

pub u32_seconds :
    (rate seconds : ℕ)
    → rate ≤ 864000
    → seconds ≤ 120
    → u32 (rate * u32 (suc seconds)) ≡ rate * suc seconds
u32_seconds rate seconds fits most =
    let small : u32 (suc seconds) ≡ suc seconds = omega arith in
    rw small (omega (arith, le_times (suc seconds) 121 rate (omega arith)))

pub not_empty :
    (queue : List ℕ) (h : Heap) (b : Buffer) (bs : List Buffer)
    → load_all queue h ≡ ok (b ∷ bs)
    → (length queue == 0) ≡ false
unfolding load_all
not_empty [] h b bs loads = ground (arith, loads)
not_empty (p ∷ ps) h b bs loads = ==_neg (λ e. omega (arith, e))

pub grab_to_outbox-covering :
    (p : AudioProperties) (seconds : ℕ) (m : MusicIdClient) (h : Heap) (b : Buffer)
    (bs : List Buffer)
    → m.convert_output ≡ false
    → is_known p.sampling_frequency ≡ true
    → load_all m.queue h ≡ ok (b ∷ bs)
    → AllFull (b ∷ bs)
    → AllShort (calculate_data_rate p) (b ∷ bs)
    → seconds ≤ 120
    → (let rate = calculate_data_rate p in
        let clip = joined (covering (b ∷ bs) (pos (seconds * rate))) in
        grab_to_outbox p rate seconds m h
        ≡ ok
            (record m { outbox = m.outbox ++ (memory_sink (rate * suc seconds) clip ∷ []) }, pos 0))
unfolding grab_to_outbox audio_converter_memory_sink
grab_to_outbox-covering p seconds m h b bs plain known loads full short most =
    let rate = calculate_data_rate p in
    let size = times_le seconds 120 rate most in
    let fits = calculate_data_rate-exact p in
    let (bound, all) = covering-bounds (b ∷ bs) (seconds * rate) rate full short in
    let dump : u32 (seconds * rate) ≡ seconds * rate = omega (arith, size, fits.1) in
    let small : seconds * rate < 2 ^ 31 = omega (arith, size, fits.1) in
    let room : 0 + length (joined (covering (b ∷ bs) (pos (seconds * rate)))) ≤ rate * suc seconds =
      grind (arith, bound) in
    let filled =
      convert_queue-covering p (seconds * rate) m h (memory_sink (rate * suc seconds) []) b bs plain
        known loads full small room in
    simp (not_empty m.queue h b bs loads, plain, dump, u32_seconds rate seconds fits.1 most, filled)
      refl

-- A clip of at most 120 seconds without conversion and without a header, from a queue whose buffers
-- are as long as they say and hold at most a second each, of a known frequency: nothing faults, and
-- the outbox and a file get the bytes of the oldest buffers, one after the other. They are more
-- than the seconds asked for or the whole queue, and at most one second more.
pub grab-covering :
    (p : AudioProperties) (seconds : ℕ) (m : MusicIdClient) (h : Heap) (b : Buffer)
    (bs : List Buffer)
    → m.convert_output ≡ false
    → m.enable_wav_header_output ≡ false
    → is_known p.sampling_frequency ≡ true
    → load_all m.queue h ≡ ok (b ∷ bs)
    → AllFull (b ∷ bs)
    → AllShort (calculate_data_rate p) (b ∷ bs)
    → seconds ≤ 120
    → (let rate = calculate_data_rate p in
        let clip = joined (covering (b ∷ bs) (pos (seconds * rate))) in
        (grab_to_outbox p rate seconds m h
          ≡ ok (
            record m { outbox = m.outbox ++ (memory_sink (rate * suc seconds) clip ∷ []) },
            pos 0,
          ))
        × (grab_to_file p rate true seconds m h ≡ ok (some clip, pos 0))
        × ((seconds * rate < length clip) ⊎ (clip ≡ joined (b ∷ bs)))
        × (length clip ≤ seconds * rate + rate))
unfolding grab_to_file
grab-covering p seconds m h b bs plain no_header known loads full short most =
    let rate = calculate_data_rate p in
    let size = times_le seconds 120 rate most in
    let fits = calculate_data_rate-exact p in
    let (bound, all) = covering-bounds (b ∷ bs) (seconds * rate) rate full short in
    let dump : u32 (seconds * rate) ≡ seconds * rate = omega (arith, size, fits.1) in
    let small : seconds * rate < 2 ^ 31 = omega (arith, size, fits.1) in
    let written =
      convert_queue-covering p (seconds * rate) m h (file_sink []) b bs plain known loads full small
        tt in
    (
      grab_to_outbox-covering p seconds m h b bs plain known loads full short most,
      simp (not_empty m.queue h b bs loads, no_header, dump, written) refl,
      elim all [ inl reached ↦ inl reached | inr same ↦ inr (ap joined same) ],
      bound,
    )
