-- ===== src/Converter/Downmix.antt =====
-- The loops of `downmix` on buffers of whole frames: what they write.
use rdk_audiocapturemgr.Prelude.{
  length-drop, sym, ℕ, zero, suc, ◌+◌, ◌-◌, ◌*◌, ◌^◌, ◌≤◌, ◌<◌, ◌≡◌, ◌≢◌, List, ok, ==_neg, inl,
  inr, Bool-cases, length, take, drop, arith, leb, lt→ltb,
}
use rdk_audiocapturemgr.Audio.{u32}
use rdk_audiocapturemgr.Converter.{Sink}
use rdk_audiocapturemgr.Converter.Loops.{copy_frames, downmix_rest, downmix_eights, downmix_buffer}
use rdk_audiocapturemgr.Converter.Decimate.{
  decimate, extend, extend-nil, extend-append, HasRoom, HasRoom-less, HasRoom-extend,
  HasRoom-decimate, decimate-split, drop-drop, length-part, put-extend, read_bytes-part,
  write_data-extend,
}

pub copy_frames-decimate :
    (n : ℕ) (block : List ℕ) (ptr : ℕ) (sink : Sink)
    → ptr + n * 4 ≤ length block
    → HasRoom sink (n * 2)
    → copy_frames n block ptr sink ≡ ok (extend sink (decimate n 4 2 (drop ptr block)))
unfolding copy_frames decimate
copy_frames-decimate zero block ptr sink inside room = rw (extend-nil sink)
copy_frames-decimate (suc n) block ptr sink inside room =
    let now : List ℕ = take 2 (drop ptr block) in
    let count : length now ≡ 2 = length-part block ptr 2 (omega arith) in
    rw (
      read_bytes-part block ptr 2 (omega arith),
      put-extend sink now (rw count (HasRoom-less sink 2 (suc n * 2) (omega arith) room)),
      copy_frames-decimate n block (ptr + 4) (extend sink now) (omega arith)
          (HasRoom-extend sink now (n * 2) (HasRoom-less sink _ _ (omega (arith, count)) room)),
      extend-append,
      drop-drop,
    )

-- The unsigned subtraction of the bytes of a frame, where they are there.
pub u32_less :
    (n frame : ℕ) → suc n * frame < 2 ^ 32 → u32 (suc n * frame + 2 ^ 32 - frame) ≡ n * frame
u32_less n frame small = omega arith

-- Writing some leaps and then the others is writing them all, and leaves the room for the others.
extend-leaps :
    (n m leap width ptr : ℕ) (block : List ℕ) (sink : Sink)
    → extend
        (extend sink (decimate n leap width (drop ptr block)))
        (decimate m leap width (drop (ptr + n * leap) block))
      ≡ extend sink (decimate (n + m) leap width (drop ptr block))
extend-leaps n m leap width ptr block sink = rw (
  extend-append,
  sym (drop-drop ptr (n * leap) block),
  decimate-split n m leap width (drop ptr block),
)

room_for_leaps :
    (n m leap width ptr : ℕ) (block : List ℕ) (sink : Sink)
    → width ≤ leap
    → ptr + n * leap ≤ length block
    → HasRoom sink ((n + m) * width)
    → HasRoom (extend sink (decimate n leap width (drop ptr block))) (m * width)
room_for_leaps n m leap width ptr block sink w inside room =
    HasRoom-decimate n m leap width (drop ptr block) sink w (omega (arith, length-drop ptr block))
      room

pub downmix_rest-decimate :
    (n fuel : ℕ) (block : List ℕ) (ptr : ℕ) (sink : Sink)
    → n < fuel
    → n * 4 < 2 ^ 32
    → ptr + n * 4 ≤ length block
    → HasRoom sink (n * 2)
    → downmix_rest fuel block ptr (n * 4) sink ≡ ok (extend sink (decimate n 4 2 (drop ptr block)))
unfolding downmix_rest decimate
downmix_rest-decimate n zero block ptr sink f small inside room = absurd (omega arith)
downmix_rest-decimate zero (suc fuel) block ptr sink f small inside room = rw (extend-nil sink)
downmix_rest-decimate (suc n) (suc fuel) block ptr sink f small inside room =
    let more : suc n * 4 ≢ 0 = omega arith in
    let one : suc n ≡ 1 + n = omega arith in
    let rest =
      downmix_rest-decimate n fuel block (ptr + 4) (extend sink (decimate 1 4 2 (drop ptr block)))
        (omega arith) (omega arith) (omega arith)
        (room_for_leaps 1 n 4 2 ptr block sink (omega arith) (omega arith)
          (HasRoom-less sink ((1 + n) * 2) (suc n * 2) (omega arith) room)) in
    rw (
      ==_neg more,
      copy_frames-decimate 1 block ptr sink (omega arith)
          (HasRoom-less sink 2 (suc n * 2) (omega arith) room),
      u32_less n 4 small,
      rest,
      extend-leaps 1 n 4 2 ptr block sink,
      sym one,
    )

pub downmix_eights-decimate :
    (n fuel : ℕ) (block : List ℕ) (ptr : ℕ) (sink : Sink)
    → n < fuel
    → n * 4 < 2 ^ 32
    → ptr + n * 4 ≤ length block
    → HasRoom sink (n * 2)
    → downmix_eights fuel block ptr (n * 4) sink
      ≡ ok (extend sink (decimate n 4 2 (drop ptr block)))
unfolding downmix_eights
downmix_eights-decimate n zero block ptr sink f small inside room = absurd (omega arith)
downmix_eights-decimate n (suc fuel) block ptr sink f small inside room =
    elim (Bool-cases (leb 32 (n * 4))) [
      | inr few ↦ rw few (downmix_rest-decimate n (suc fuel) block ptr sink f small inside room)
      | inl many ↦
          let m : ℕ = n - 8 in
          let total : n ≡ 8 + m = ground arith in
          let left : n * 4 - 32 ≡ m * 4 = omega arith in
          let rest =
            downmix_eights-decimate m fuel block (ptr + 32)
              (extend sink (decimate 8 4 2 (drop ptr block))) (omega arith) (omega arith)
              (omega arith)
              (room_for_leaps 8 m 4 2 ptr block sink (omega arith) (omega arith)
                (rw (sym total) room)) in
          rw (
            many,
            copy_frames-decimate 8 block ptr sink (omega arith)
                (HasRoom-less sink 16 (n * 2) (omega arith) room),
            left,
            rest,
            extend-leaps 8 m 4 2 ptr block sink,
            sym total,
          )
    ]

-- The general loop, for any frame.
pub downmix_buffer-decimate :
    (n fuel frame sample : ℕ) (block : List ℕ) (ptr : ℕ) (sink : Sink)
    → 0 < frame
    → sample ≤ frame
    → n < fuel
    → n * frame < 2 ^ 32
    → ptr + n * frame ≤ length block
    → HasRoom sink (n * sample)
    → downmix_buffer fuel frame sample block ptr (n * frame) sink
      ≡ ok (extend sink (decimate n frame sample (drop ptr block)))
unfolding downmix_buffer decimate
downmix_buffer-decimate n zero frame sample block ptr sink p w f small inside room =
    absurd (omega arith)
downmix_buffer-decimate zero (suc fuel) frame sample block ptr sink p w f small inside room =
    let none : zero * frame ≡ 0 = omega arith in rw (none, extend-nil sink)
downmix_buffer-decimate (suc n) (suc fuel) frame sample block ptr sink p w f small inside room =
    let now : List ℕ = take sample (drop ptr block) in
    let count : length now ≡ sample = length-part block ptr sample (omega arith) in
    let rest =
      downmix_buffer-decimate n fuel frame sample block (ptr + frame) (extend sink now) p w
        (omega arith) (omega arith) (omega arith)
        (HasRoom-extend sink now (n * sample)
          (HasRoom-less sink _ _ (omega (arith, count)) room)) in
    rw (
      lt→ltb 0 (suc n * frame) (omega arith),
      write_data-extend sink block ptr sample (omega arith)
          (HasRoom-less sink sample (suc n * sample) (omega arith) room),
      u32_less n frame small,
      rest,
      extend-append,
      drop-drop,
    )
