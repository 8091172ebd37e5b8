-- ===== src/Converter/Stereo.antt =====
-- The two cases of `downmix`: the loops over the queue, and their agreement on 16-bit stereo.
use rdk_audiocapturemgr.Prelude.{
  ℕ, suc, ◌+◌, ◌*◌, ◌/◌, ◌^◌, ◌≤◌, ◌<◌, ◌≡◌, ◌≢◌, List, [], ◌∷◌, ◌++◌, ok, ==_neg, inl, inr,
  Bool-cases, refl, length, arith,
}
use rdk_audiocapturemgr.Prelude.Int.{ℤ, pos, ltb_ℤ, ◌-ℤ◌}
use mathlib.Core.List.{append-nil}
use native.Mathlib.Nat.{add-zero}
use rdk_audiocapturemgr.Buffer.{Buffer}
use rdk_audiocapturemgr.Converter.{Sink}
use rdk_audiocapturemgr.Converter.Loops.{downmix_stereo, downmix_queue, downmix_all, overwritten}
use rdk_audiocapturemgr.Audio.{
  stereo16, get_individual_audio_parameters, num_channels_of, bits_per_sample_of,
}
use rdk_audiocapturemgr.Converter.{Converter, file_sink, memory_sink}
use rdk_audiocapturemgr.Converter.Decimate.{
  decimate, decimate-append, extend, extend-nil, extend-append, HasRoom, HasRoom-less,
  HasRoom-decimate, joined, consumed, AllWhole,
}
use rdk_audiocapturemgr.Converter.Downsample.{leaps, whole_size, leaps-joined}
use rdk_audiocapturemgr.Converter.Downmix.{downmix_eights-decimate, downmix_buffer-decimate}

-- Sizes that an `unsigned int` holds.
abbrev pub AllSmall : List Buffer → Type 0
AllSmall [] = Unit {0}
AllSmall (b ∷ bs) = (b.size < 2 ^ 32) × AllSmall bs

-- A first block of n leaps, and the blocks that follow.
joined_after :
    (n m leap width : ℕ) (block rest : List ℕ) (sink : Sink)
    → width ≤ leap
    → length block ≡ n * leap
    → extend (extend sink (decimate n leap width block)) (decimate m leap width rest)
      ≡ extend sink (decimate (n + m) leap width (block ++ rest))
joined_after n m leap width block rest sink w e =
    rw (extend-append, decimate-append n m leap width block rest w e)

pub downmix_stereo-leaps :
    (bs : List Buffer) (sink : Sink)
    → AllWhole 4 bs
    → AllSmall bs
    → HasRoom sink (leaps 4 bs * 2)
    → downmix_stereo bs sink ≡ ok (extend sink (decimate (leaps 4 bs) 4 2 (joined bs)))
unfolding downmix_stereo leaps joined decimate
downmix_stereo-leaps [] sink whole small room = rw (extend-nil sink)
downmix_stereo-leaps (b ∷ bs) sink (len, exact, rest) (fits, small) room =
    let n : ℕ = b.size / 4 in
    let size : n * 4 ≡ b.size = whole_size b.size 4 exact in
    let first =
      downmix_eights-decimate n (suc (length b.bytes)) b.bytes 0 sink (omega arith) (omega arith)
        (omega arith) (HasRoom-less sink _ _ (omega arith) room) in
    let first' = rw size at first in
    rw (
      first',
      downmix_stereo-leaps bs (extend sink (decimate n 4 2 b.bytes)) rest small
          (HasRoom-decimate n (leaps 4 bs) 4 2 b.bytes sink (omega arith) (omega arith) room),
      joined_after n (leaps 4 bs) 4 2 b.bytes (joined bs) sink (omega arith) (omega arith),
    )

enough : (n leap size : ℕ) → 0 < leap → n * leap ≡ size → n < suc size
enough n leap size l e = grind arith

part_le : (n m width : ℕ) → n * width ≤ (n + m) * width
part_le n m width = omega arith

downmix_queue-leaps :
    (frame sample : ℕ) (bs : List Buffer) (size : ℤ) (sink : Sink)
    → 0 < frame
    → sample ≤ frame
    → AllWhole frame bs
    → AllSmall bs
    → HasRoom sink (leaps frame (consumed bs size) * sample)
    → downmix_queue frame sample bs size sink
      ≡ ok (
          extend sink
            (decimate (leaps frame (consumed bs size)) frame sample (joined (consumed bs size))))
unfolding downmix_queue leaps joined decimate consumed
downmix_queue-leaps frame sample [] size sink p w whole small room = rw (extend-nil sink)
downmix_queue-leaps frame sample (b ∷ bs) size sink p w (len, exact, rest) (fits, small) room =
    let n : ℕ = b.size / frame in
    let whole : n * frame ≡ b.size = whole_size b.size frame exact in
    let first =
      downmix_buffer-decimate n (suc (length b.bytes)) frame sample b.bytes 0 sink p w
        (enough n frame (length b.bytes) p (omega (arith, whole))) (omega (arith, whole))
        (omega (arith, whole))
        (HasRoom-less sink (n * sample) (leaps frame (consumed (b ∷ bs) size) * sample)
          (part_le n _ sample) room) in
    let first' = rw whole at first in
    let positive : frame ≢ 0 = omega arith in
    elim (Bool-cases (ltb_ℤ (pos 0) (size -ℤ pos b.size))) [
      | inl more ↦
          let m : ℕ = leaps frame (consumed bs (size -ℤ pos b.size)) in
          rw (
            ==_neg positive,
            first',
            more,
            downmix_queue-leaps frame sample bs (size -ℤ pos b.size)
                (extend sink (decimate n frame sample b.bytes)) p w rest small
                (HasRoom-decimate n m frame sample b.bytes sink w (omega (arith, whole))
                  (rw more at room)),
            joined_after n m frame sample b.bytes (joined (consumed bs (size -ℤ pos b.size))) sink w
                (omega (arith, whole)),
          )
      | inr done ↦ rw (==_neg positive, first', done, append-nil b.bytes, add-zero n)
    ]

overwritten_nothing : (sink : Sink) → overwritten [] sink ≡ sink
unfolding overwritten
overwritten_nothing sink = refl

-- For 16-bit stereo the optimised loop into an empty memory sink and the general loop into an empty
-- file write the same: the left sample of every frame of the queue's bytes. Buffers hold whole frames
-- and fewer than 2 ^ 32 bytes, the memory has room, and the general loop reads the whole queue.
pub downmix_all-decimate :
    (c : Converter) (queue : List Buffer) (size : ℤ) (max_size : ℕ)
    → c.in_props.format ≡ stereo16
    → AllWhole 4 queue
    → AllSmall queue
    → length (joined queue) / 4 * 2 ≤ max_size
    → consumed queue size ≡ queue
    → (let left : List ℕ = decimate (length (joined queue) / 4) 4 2 (joined queue) in
        (downmix_all c queue size (memory_sink max_size []) ≡ ok (memory_sink max_size left, pos 0))
        × (downmix_all c queue size (file_sink []) ≡ ok (file_sink left, pos 0)))
unfolding downmix_all get_individual_audio_parameters num_channels_of bits_per_sample_of
downmix_all-decimate c queue size max_size stereo whole small room all =
    let count = leaps-joined 4 queue (omega arith) whole in
    let room' : HasRoom (memory_sink max_size []) (leaps 4 queue * 2) = omega (arith, count) in
    let special = downmix_stereo-leaps queue (memory_sink max_size []) whole small room' in
    let general =
      downmix_queue-leaps 4 2 queue size (file_sink []) (omega arith) (omega arith) whole small
        tt in
    (rw (stereo, special, count, overwritten_nothing), rw (stereo, general, all, count))
