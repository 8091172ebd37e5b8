-- ===== src/Converter/Passthrough.antt =====
-- src/audio_converter.cpp: `passthrough`, which copies whole buffers.
use mathlib.Core.List.{append-nil}
use rdk_audiocapturemgr.Prelude.{
  ◌-◌, length-append, ap, sym, ℕ, ◌+◌, ◌≤◌, ◌<◌, ◌≡◌, ◌⊎◌, inl, inr, refl, List, [], ◌∷◌, ◌++◌, ok,
  length, take, arith, Bool-cases, if◌then◌else◌,
}
use rdk_audiocapturemgr.Prelude.Int.{ℤ, pos, ltb_ℤ, ◌-ℤ◌}
use rdk_audiocapturemgr.Buffer.{Buffer}
use rdk_audiocapturemgr.Converter.{false, true, Sink, write_data}
use rdk_audiocapturemgr.Converter.Loops.{passthrough}
use rdk_audiocapturemgr.Converter.Decimate.{
  extend, extend-nil, extend-append, HasRoom, HasRoom-less, HasRoom-extend, joined,
  write_data-extend,
}

-- The buffers up to the one with which more than `size` bytes are reached.
unfoldable pub covering : List Buffer → ℤ → List Buffer
covering [] size = []
covering (b ∷ bs) size =
    let rest = covering bs (size -ℤ pos b.size) in
    b ∷ (if ltb_ℤ (size -ℤ pos b.size) (pos 0) then [] else rest)

-- Buffers that are as long as they say.
abbrev pub AllFull : List Buffer → Type 0
AllFull [] = Unit {0}
AllFull (b ∷ bs) = (length b.bytes ≡ b.size) × AllFull bs

take_all : (xs : List ℕ) → take (length xs) xs ≡ xs
take_all [] = refl
take_all (x ∷ xs) = ap (λ l. x ∷ l) (take_all xs)

write_whole :
    (sink : Sink) (b : Buffer)
    → length b.bytes ≡ b.size
    → HasRoom sink (length b.bytes)
    → write_data sink b.bytes 0 b.size ≡ ok (extend sink b.bytes, pos 0)
write_whole sink b full room =
    let whole : take b.size b.bytes ≡ b.bytes = rw (sym full) (take_all b.bytes) in
    rw (write_data-extend sink b.bytes 0 b.size (omega arith) (rw (sym full) room), whole)

room_for_first :
    (sink : Sink) (xs ys : List ℕ)
    → HasRoom sink (length (xs ++ ys))
    → HasRoom sink (length xs) × HasRoom (extend sink xs) (length ys)
room_for_first sink xs ys room =
    let both =
      HasRoom-less sink (length xs + length ys) _ (omega (arith, length-append xs ys)) room in
    (HasRoom-less sink (length xs) _ (omega arith) both, HasRoom-extend sink xs (length ys) both)

passthrough_goes :
    (bs : List Buffer) (size : ℤ) (sink : Sink)
    → AllFull bs
    → HasRoom sink (length (joined (covering bs size)))
    → passthrough bs size sink (pos 0) ≡ ok (extend sink (joined (covering bs size)), pos 0)
unfolding passthrough covering joined
passthrough_goes [] size sink full room = rw (extend-nil sink)
passthrough_goes (b ∷ bs) size sink (full, more) room =
    elim (Bool-cases (ltb_ℤ (size -ℤ pos b.size) (pos 0))) [
      | inl enough ↦
          let now = room_for_first sink b.bytes [] (rw enough at room) in
          rw (write_whole sink b full now.0, enough, append-nil b.bytes)
      | inr less ↦
          let now = room_for_first sink b.bytes _ (rw less at room) in
          rw (
            write_whole sink b full now.0,
            less,
            passthrough_goes bs (size -ℤ pos b.size) (extend sink b.bytes) more now.1,
            extend-append,
          )
    ]

-- The sink is extended by the bytes of the covering buffers, for which it has room.
pub passthrough-covering :
    (b : Buffer) (bs : List Buffer) (size ret : ℤ) (sink : Sink)
    → AllFull (b ∷ bs)
    → HasRoom sink (length (joined (covering (b ∷ bs) size)))
    → passthrough (b ∷ bs) size sink ret ≡ ok (extend sink (joined (covering (b ∷ bs) size)), pos 0)
unfolding passthrough
passthrough-covering b bs size ret sink full room = passthrough_goes (b ∷ bs) size sink full room

-- Buffers of at most `most` bytes.
abbrev pub AllShort : ℕ → List Buffer → Type 0
AllShort most [] = Unit {0}
AllShort most (b ∷ bs) = (b.size ≤ most) × AllShort most bs

pos_short : (m n : ℕ) → ltb_ℤ (pos m -ℤ pos n) (pos 0) ≡ true → m < n
unfolding ◌-ℤ◌
pos_short m n e = ground arith

pos_long : (m n : ℕ) → ltb_ℤ (pos m -ℤ pos n) (pos 0) ≡ false → n ≤ m
unfolding ◌-ℤ◌
pos_long m n e = ground arith

pub pos_less : (m n : ℕ) → n ≤ m → pos m -ℤ pos n ≡ pos (m - n)
unfolding ◌-ℤ◌
pos_less m n le = ground arith

-- The covering buffers are more than `size` bytes, or all there are; and less than one buffer more.
pub covering-bounds :
    (bs : List Buffer) (size most : ℕ)
    → AllFull bs
    → AllShort most bs
    → (length (joined (covering bs (pos size))) ≤ size + most)
      × ((size < length (joined (covering bs (pos size)))) ⊎ (covering bs (pos size) ≡ bs))
unfolding covering joined
covering-bounds [] size most full short = (omega arith, inr refl)
covering-bounds (b ∷ bs) size most (full, more) (short, others) =
    elim (Bool-cases (ltb_ℤ (pos size -ℤ pos b.size) (pos 0))) [
      | inl enough ↦
          rw (enough, append-nil b.bytes)
            (
              omega (arith, pos_short size b.size enough),
              inl (omega (arith, pos_short size b.size enough)),
            )
      | inr less ↦
          let le = pos_long size b.size less in
          let (bound, all) = covering-bounds bs (size - b.size) most more others in
          rw (less, pos_less size b.size le)
            (
              omega (arith, length-append b.bytes (joined (covering bs (pos (size - b.size))))),
              elim all [
                | inl reached ↦ inl (
                    omega
                      (arith, length-append b.bytes (joined (covering bs (pos (size - b.size))))))
                | inr same ↦ inr (ap (λ l. b ∷ l) same)
              ],
            )
    ]
