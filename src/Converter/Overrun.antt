-- ===== src/Converter/Overrun.antt =====
-- src/audio_converter.cpp: the optimised `downmix` of 16-bit stereo writes the whole queue, whatever size
-- it is asked for; here without the room for it.
use rdk_audiocapturemgr.Prelude.{
  length-drop, leb→le, ℕ, zero, suc, ◌+◌, ◌-◌, ◌*◌, ◌/◌, ◌^◌, ◌≤◌, ◌<◌, ◌≡◌, ◌≢◌, inl, inr, ◌++◌,
  List, [], ◌∷◌, err, out_of_bounds, length, drop, take, arith, leb, ==_neg, Bool-cases,
  length-append,
}
use rdk_audiocapturemgr.Buffer.{Buffer}
use rdk_audiocapturemgr.Converter.{memory_sink, put}
use rdk_audiocapturemgr.Converter.Loops.{copy_frames, downmix_rest, downmix_eights, downmix_stereo}
use rdk_audiocapturemgr.Converter.Decimate.{
  decimate, read_bytes-part, length-part, put-extend, AllWhole, length-decimate,
}
use rdk_audiocapturemgr.Converter.Downmix.{copy_frames-decimate, u32_less, downmix_eights-decimate}
use rdk_audiocapturemgr.Converter.Downsample.{leaps, whole_size}
use rdk_audiocapturemgr.Converter.Stereo.{AllSmall}

put-full :
    (max : ℕ) (bytes new : List ℕ)
    → max < length bytes + length new
    → put (memory_sink max bytes) new ≡ err out_of_bounds
unfolding put
put-full max bytes new full = ground arith

copy_frames-overruns :
    (n : ℕ) (block : List ℕ) (ptr max : ℕ) (bytes : List ℕ)
    → ptr + n * 4 ≤ length block
    → length bytes ≤ max
    → max < length bytes + n * 2
    → copy_frames n block ptr (memory_sink max bytes) ≡ err out_of_bounds
unfolding copy_frames
copy_frames-overruns zero block ptr max bytes inside room full = absurd (omega arith)
copy_frames-overruns (suc n) block ptr max bytes inside room full =
    let now : List ℕ = take 2 (drop ptr block) in
    let count : length now ≡ 2 = length-part block ptr 2 (omega arith) in
    elim (Bool-cases (leb (length bytes + 2) max)) [
      | inl fits ↦ rw (
        read_bytes-part block ptr 2 (omega arith),
        put-extend (memory_sink max bytes) now (rw count (leb→le _ _ fits)),
        copy_frames-overruns n block (ptr + 4) max (bytes ++ now) (omega arith)
            (omega (arith, length-append bytes now, count, leb→le _ _ fits))
            (omega (arith, length-append bytes now, count)),
      )
      | inr none_left ↦ rw (
        read_bytes-part block ptr 2 (omega arith),
        put-full max bytes now (rw count (ground (arith, none_left))),
      )
    ]

-- The bytes of some leaps, after which the sink holds that many more.
longer :
    (n ptr : ℕ) (bytes block : List ℕ)
    → ptr + n * 4 ≤ length block
    → length (bytes ++ decimate n 4 2 (drop ptr block)) ≡ length bytes + n * 2
longer n ptr bytes block inside = omega (
  arith,
  length-append bytes (decimate n 4 2 (drop ptr block)),
  length-decimate n 4 2 (drop ptr block) (omega arith) (omega (arith, length-drop ptr block)),
)

downmix_rest-overruns :
    (n fuel : ℕ) (block : List ℕ) (ptr max : ℕ) (bytes : List ℕ)
    → n < fuel
    → n * 4 < 2 ^ 32
    → ptr + n * 4 ≤ length block
    → length bytes ≤ max
    → max < length bytes + n * 2
    → downmix_rest fuel block ptr (n * 4) (memory_sink max bytes) ≡ err out_of_bounds
unfolding downmix_rest
downmix_rest-overruns n zero block ptr max bytes f small inside room full = absurd (omega arith)
downmix_rest-overruns zero (suc fuel) block ptr max bytes f small inside room full =
    absurd (omega arith)
downmix_rest-overruns (suc n) (suc fuel) block ptr max bytes f small inside room full =
    let more : suc n * 4 ≢ 0 = omega arith in
    let grown = longer 1 ptr bytes block (omega arith) in
    elim (Bool-cases (leb (length bytes + 1 * 2) max)) [
      | inl fits ↦ rw (
        ==_neg more,
        copy_frames-decimate 1 block ptr (memory_sink max bytes) (omega arith) (leb→le _ _ fits),
        u32_less n 4 small,
        downmix_rest-overruns n fuel block (ptr + 4) max (bytes ++ decimate 1 4 2 (drop ptr block))
            (omega arith) (omega arith) (omega arith) (omega (arith, grown, leb→le _ _ fits))
            (omega (arith, grown)),
      )
      | inr none_left ↦ rw (
        ==_neg more,
        copy_frames-overruns 1 block ptr max bytes (omega arith) room (ground (arith, none_left)),
      )
    ]

downmix_eights-overruns :
    (n fuel : ℕ) (block : List ℕ) (ptr max : ℕ) (bytes : List ℕ)
    → n < fuel
    → n * 4 < 2 ^ 32
    → ptr + n * 4 ≤ length block
    → length bytes ≤ max
    → max < length bytes + n * 2
    → downmix_eights fuel block ptr (n * 4) (memory_sink max bytes) ≡ err out_of_bounds
unfolding downmix_eights
downmix_eights-overruns n zero block ptr max bytes f small inside room full = absurd (omega arith)
downmix_eights-overruns n (suc fuel) block ptr max bytes f small inside room full =
    elim (Bool-cases (leb 32 (n * 4))) [
      | inr few ↦
          rw few (downmix_rest-overruns n (suc fuel) block ptr max bytes f small inside room full)
      | inl many ↦
          let m : ℕ = n - 8 in
          let total : n ≡ 8 + m = ground arith in
          let left : n * 4 - 32 ≡ m * 4 = omega arith in
          let grown = longer 8 ptr bytes block (omega arith) in
          elim (Bool-cases (leb (length bytes + 8 * 2) max)) [
            | inl fits ↦ rw (
              many,
              copy_frames-decimate 8 block ptr (memory_sink max bytes) (omega arith)
                  (leb→le _ _ fits),
              left,
              downmix_eights-overruns m fuel block (ptr + 32) max
                  (bytes ++ decimate 8 4 2 (drop ptr block)) (omega arith) (omega arith)
                  (omega arith) (omega (arith, grown, leb→le _ _ fits)) (omega (arith, grown)),
            )
            | inr none_left ↦ rw (
              many,
              copy_frames-overruns 8 block ptr max bytes (omega arith) room
                  (ground (arith, none_left)),
            )
          ]
    ]

-- A queue of whole frames for which the memory has not the room: a write past its end.
pub downmix_stereo-overruns :
    (bs : List Buffer) (max : ℕ) (bytes : List ℕ)
    → AllWhole 4 bs
    → AllSmall bs
    → length bytes ≤ max
    → max < length bytes + leaps 4 bs * 2
    → downmix_stereo bs (memory_sink max bytes) ≡ err out_of_bounds
unfolding downmix_stereo leaps
downmix_stereo-overruns [] max bytes whole small room full = absurd (omega arith)
downmix_stereo-overruns (b ∷ bs) max bytes (len, exact, rest) (fits, small) room full =
    let n : ℕ = b.size / 4 in
    let size : n * 4 ≡ b.size = whole_size b.size 4 exact in
    let grown = longer n 0 bytes b.bytes (omega arith) in
    elim (Bool-cases (leb (length bytes + n * 2) max)) [
      | inl fits_now ↦
          let first =
            downmix_eights-decimate n (suc (length b.bytes)) b.bytes 0 (memory_sink max bytes)
              (omega arith) (omega arith) (omega arith) (leb→le _ _ fits_now) in
          rw (
            rw size at first,
            downmix_stereo-overruns bs max (bytes ++ decimate n 4 2 b.bytes) rest small
                (omega (arith, grown, leb→le _ _ fits_now)) (omega (arith, grown)),
          )
      | inr none_left ↦
          let first =
            downmix_eights-overruns n (suc (length b.bytes)) b.bytes 0 max bytes (omega arith)
              (omega arith) (omega arith) room (ground (arith, none_left)) in
          rw (rw size at first)
    ]
