-- ===== src/Converter/Downsample.antt =====
-- The loops of `downsample_and_downmix` on buffers that hold whole leaps.
use rdk_audiocapturemgr.Prelude.{
  ◌/◌, ◌%◌, ◌≢◌, Bool-cases, inl, inr, ==_neg, length-append, ℕ, zero, suc, ◌+◌, ◌*◌, ◌/◌, ◌%◌, ◌≤◌,
  ◌<◌, ◌≡◌, List, [], ◌∷◌, ◌++◌, true, ok, length, take, drop, arith, length-append, lt→ltb,
}
use rdk_audiocapturemgr.Prelude.Int.{ℤ, pos, ltb_ℤ, ◌-ℤ◌}
use rdk_audiocapturemgr.Buffer.{Buffer}
use rdk_audiocapturemgr.Converter.Decimate.{decimate-append, joined, consumed, AllWhole}
use mathlib.Core.List.{append-nil}
use native.Mathlib.Nat.{mul-div_cancel, add-zero, div-add-mod'}
use rdk_audiocapturemgr.Converter.{Sink}
use rdk_audiocapturemgr.Converter.Loops.{downsample_buffer, downsample_queue}
use rdk_audiocapturemgr.Converter.Decimate.{
  decimate, extend, HasRoom, extend-nil, extend-append, HasRoom-extend, HasRoom-less, drop-drop,
  write_data-extend, length-part, HasRoom-decimate,
}

pos-sub : (n leap : ℕ) → pos (suc n * leap) -ℤ pos leap ≡ pos (n * leap)
unfolding ◌-ℤ◌
pos-sub n leap = ground arith

-- Bytes are left.
bytes_left : (n leap : ℕ) → 0 < leap → ltb_ℤ (pos 0) (pos (suc n * leap)) ≡ true
bytes_left n leap l = lt→ltb _ _ (omega arith)

downsample_buffer-decimate :
    (n fuel leap width : ℕ) (block : List ℕ) (ptr : ℕ) (sink : Sink)
    → 0 < leap
    → width ≤ leap
    → n < fuel
    → ptr + n * leap ≤ length block
    → HasRoom sink (n * width)
    → downsample_buffer fuel leap width block ptr (pos (n * leap)) sink
      ≡ ok (pos 0, extend sink (decimate n leap width (drop ptr block)))
unfolding downsample_buffer decimate
downsample_buffer-decimate n zero leap width block ptr sink l w f inside room = absurd (omega arith)
downsample_buffer-decimate zero (suc fuel) leap width block ptr sink l w f inside room =
    let at_zero : zero * leap ≡ 0 = omega arith in rw (at_zero, extend-nil sink)
downsample_buffer-decimate (suc n) (suc fuel) leap width block ptr sink l w f inside room =
    let now : List ℕ = take width (drop ptr block) in
    let count : length now ≡ width = length-part block ptr width (omega arith) in
    let later =
      downsample_buffer-decimate n fuel leap width block (ptr + leap) (extend sink now) l w
        (omega arith) (omega arith)
        (HasRoom-extend sink now (n * width) (HasRoom-less sink _ _ (omega arith) room)) in
    rw (
      bytes_left n leap l,
      write_data-extend sink block ptr width (omega arith)
          (HasRoom-less sink width (suc n * width) (omega arith) room),
      pos-sub n leap,
      later,
      extend-append,
      drop-drop,
    )

-- The leaps in a queue of whole leaps.
unfoldable pub leaps : ℕ → List Buffer → ℕ
leaps leap [] = 0
leaps leap (b ∷ bs) = b.size / leap + leaps leap bs

pub whole_size : (n leap : ℕ) → n % leap ≡ 0 → n / leap * leap ≡ n
whole_size n leap e = omega (arith, div-add-mod' n leap)

length-joined :
    (leap : ℕ) (bs : List Buffer) → AllWhole leap bs → length (joined bs) ≡ leaps leap bs * leap
unfolding joined leaps
length-joined leap [] a = omega arith
length-joined leap (b ∷ bs) (len, whole, rest) = omega (
  arith,
  length-append b.bytes (joined bs),
  length-joined leap bs rest,
  whole_size b.size leap whole,
)

pub leaps-joined :
    (leap : ℕ) (bs : List Buffer)
    → 0 < leap
    → AllWhole leap bs
    → leaps leap bs ≡ length (joined bs) / leap
leaps-joined leap bs l a = rw (length-joined leap bs a, mul-div_cancel (leaps leap bs) l)

pub AllWhole-consumed :
    (leap : ℕ) (bs : List Buffer) (size : ℤ) → AllWhole leap bs → AllWhole leap (consumed bs size)
unfolding consumed
AllWhole-consumed leap [] size a = tt
AllWhole-consumed leap (b ∷ bs) size (len, whole, rest) =
    elim (Bool-cases (ltb_ℤ (pos 0) (size -ℤ pos b.size))) [
      | inl more ↦ rw more (len, whole, AllWhole-consumed leap bs (size -ℤ pos b.size) rest)
      | inr done ↦ rw done (len, whole, tt)
    ]

s_le : (n leap size : ℕ) → 0 < leap → n * leap ≡ size → n < suc size
s_le n leap size l e = grind arith

part_le : (n m width : ℕ) → n * width ≤ (n + m) * width
part_le n m width = omega arith

-- The rest of the queue, after a first buffer of n leaps was written.
downsample_queue-rest :
    (frame leap width : ℕ) (bs : List Buffer) (size : ℤ) (sink : Sink) (n : ℕ) (block : List ℕ)
    → width ≤ leap
    → length block ≡ n * leap
    → downsample_queue frame leap width bs 0 size (extend sink (decimate n leap width block))
      ≡ ok (
          extend
            (extend sink (decimate n leap width block))
            (decimate (leaps leap (consumed bs size)) leap width (joined (consumed bs size))))
    → downsample_queue frame leap width bs 0 size (extend sink (decimate n leap width block))
      ≡ ok (
          extend sink (
            decimate
              (n + leaps leap (consumed bs size))
              leap
              width
              (block ++ joined (consumed bs size))))
downsample_queue-rest frame leap width bs size sink n block w e ih = rw (
  ih,
  extend-append,
  decimate-append n (leaps leap (consumed bs size)) leap width block (joined (consumed bs size)) w
      e,
)

pub downsample_queue-leaps :
    (frame leap width : ℕ) (bs : List Buffer) (size : ℤ) (sink : Sink)
    → frame ≢ 0
    → 0 < leap
    → width ≤ leap
    → AllWhole leap bs
    → HasRoom sink (leaps leap (consumed bs size) * width)
    → downsample_queue frame leap width bs 0 size sink
      ≡ ok (
          extend sink
            (decimate (leaps leap (consumed bs size)) leap width (joined (consumed bs size))))
unfolding downsample_queue consumed joined leaps decimate
downsample_queue-leaps frame leap width [] size sink f l w a room = rw (extend-nil sink)
downsample_queue-leaps frame leap width (b ∷ bs) size sink f l w (len, whole, rest) room =
    let n : ℕ = b.size / leap in
    let exact : n * leap ≡ b.size = whole_size b.size leap whole in
    let first =
      downsample_buffer-decimate n (suc b.size) leap width b.bytes 0 sink l w
        (s_le n leap b.size l exact) (omega (arith, exact, len))
        (HasRoom-less sink (n * width) (leaps leap (consumed (b ∷ bs) size) * width)
          (part_le n _ width) room) in
    let first' = rw exact at first in
    elim (Bool-cases (ltb_ℤ (pos 0) (size -ℤ pos b.size))) [
      | inl more ↦
          rw (==_neg f, first', more)
            (downsample_queue-rest frame leap width bs (size -ℤ pos b.size) sink n b.bytes w
              (omega (arith, exact, len))
              (downsample_queue-leaps frame leap width bs (size -ℤ pos b.size)
                (extend sink (decimate n leap width b.bytes)) f l w rest
                (HasRoom-decimate n (leaps leap (consumed bs (size -ℤ pos b.size))) leap width
                  b.bytes sink w (omega (arith, exact, len)) (rw more at room))))
      | inr done ↦ rw (==_neg f, first', done, append-nil b.bytes, add-zero n)
    ]
