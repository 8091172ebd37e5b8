-- ===== src/Converter/Decimate.antt =====
-- What the converter is to write: of each `leap` bytes the first `width`.
use rdk_audiocapturemgr.Prelude.{
  sym, if◌then◌else◌, ◌%◌, length-drop, ℕ, zero, suc, ◌+◌, ◌*◌, ◌≤◌, ◌≡◌, refl, ap, List, [], ◌∷◌,
  ◌++◌, ok, le→leb, length, take, drop, arith, length-append,
}
use Prim.Native.Nat.add
use rdk_audiocapturemgr.Buffer.{Buffer}
use mathlib.Core.List.{append-nil, append_assoc}
use rdk_audiocapturemgr.Prelude.Int.{◌-ℤ◌, pos}
use rdk_audiocapturemgr.Converter.{
  ltb_ℤ, ℤ, Sink, file_sink, memory_sink, read_bytes, put, write_data,
}

unfoldable pub decimate : ℕ → ℕ → ℕ → List ℕ → List ℕ
decimate zero leap width xs = []
decimate (suc n) leap width xs = take width xs ++ decimate n leap width (drop leap xs)

-- The sink with more bytes written.
abbrev pub extend : Sink → List ℕ → Sink
extend (file_sink bytes) new = file_sink (bytes ++ new)
extend (memory_sink max_size bytes) new = memory_sink max_size (bytes ++ new)

-- A file takes any number of bytes, a memory sink as many as it has room for.
abbrev pub HasRoom : Sink → ℕ → Type 0
HasRoom (file_sink bytes) n = Unit {0}
HasRoom (memory_sink max_size bytes) n = length bytes + n ≤ max_size

pub extend-nil : (sink : Sink) → extend sink [] ≡ sink
extend-nil (file_sink bytes) = ap file_sink (append-nil bytes)
extend-nil (memory_sink max_size bytes) = ap (memory_sink max_size) (append-nil bytes)

pub extend-append :
    (sink : Sink) (xs ys : List ℕ) → extend (extend sink xs) ys ≡ extend sink (xs ++ ys)
extend-append (file_sink bytes) xs ys = ap file_sink (append_assoc bytes xs ys)
extend-append (memory_sink max_size bytes) xs ys =
    ap (memory_sink max_size) (append_assoc bytes xs ys)

pub put-extend :
    (sink : Sink) (new : List ℕ) → HasRoom sink (length new) → put sink new ≡ ok (extend sink new)
unfolding put
put-extend (file_sink bytes) new room = refl
put-extend (memory_sink max_size bytes) new room =
    rw (le→leb (length bytes + length new) max_size room)

pub HasRoom-extend :
    (sink : Sink) (new : List ℕ) (n : ℕ)
    → HasRoom sink (length new + n)
    → HasRoom (extend sink new) n
HasRoom-extend (file_sink bytes) new n room = tt
HasRoom-extend (memory_sink max_size bytes) new n room = omega (arith, length-append bytes new)

pub HasRoom-less : (sink : Sink) (m n : ℕ) → m ≤ n → HasRoom sink n → HasRoom sink m
HasRoom-less (file_sink bytes) m n le room = tt
HasRoom-less (memory_sink max_size bytes) m n le room = omega arith

drop-nil : (n : ℕ) → drop {A = ℕ} n [] ≡ []
drop-nil zero = refl
drop-nil (suc n) = refl

pub drop-drop : (m n : ℕ) (xs : List ℕ) → drop n (drop m xs) ≡ drop (m + n) xs
drop-drop zero n xs = rw (add.zero n)
drop-drop (suc m) n [] = rw (add.suc m n, drop-nil n)
drop-drop (suc m) n (x ∷ xs) = rw (add.suc m n) (drop-drop m n xs)

pub length-take_le : (n : ℕ) (xs : List ℕ) → n ≤ length xs → length (take n xs) ≡ n
length-take_le zero xs h = refl
length-take_le (suc n) [] h = absurd (omega arith)
length-take_le (suc n) (x ∷ xs) h = ap suc (length-take_le n xs (omega arith))

pub length-part :
    (block : List ℕ) (ptr size : ℕ)
    → ptr + size ≤ length block
    → length (take size (drop ptr block)) ≡ size
length-part block ptr size inside =
    length-take_le size (drop ptr block) (omega (arith, length-drop ptr block))

-- A read of bytes that are there.
pub read_bytes-part :
    (block : List ℕ) (ptr size : ℕ)
    → ptr + size ≤ length block
    → read_bytes block ptr size ≡ ok (take size (drop ptr block))
unfolding read_bytes
read_bytes-part block ptr size inside = rw (le→leb (ptr + size) (length block) inside)

pub length-decimate :
    (n leap width : ℕ) (xs : List ℕ)
    → width ≤ leap
    → n * leap ≤ length xs
    → length (decimate n leap width xs) ≡ n * width
unfolding decimate
length-decimate zero leap width xs w h = omega arith
length-decimate (suc n) leap width xs w h = omega (
  arith,
  length-append (take width xs) (decimate n leap width (drop leap xs)),
  length-take_le width xs (omega arith),
  length-decimate n leap width (drop leap xs) w (omega (arith, length-drop leap xs)),
)

-- The room that is left when the first leaps were written.
pub HasRoom-decimate :
    (n m leap width : ℕ) (xs : List ℕ) (sink : Sink)
    → width ≤ leap
    → n * leap ≤ length xs
    → HasRoom sink ((n + m) * width)
    → HasRoom (extend sink (decimate n leap width xs)) (m * width)
HasRoom-decimate n m leap width xs sink w h room =
    let count = length-decimate n leap width xs w h in
    HasRoom-extend sink (decimate n leap width xs) (m * width)
      (HasRoom-less sink _ ((n + m) * width) (omega (arith, count)) room)

-- The first leaps, then the others.
pub decimate-split :
    (n m leap width : ℕ) (xs : List ℕ)
    → decimate n leap width xs ++ decimate m leap width (drop (n * leap) xs)
      ≡ decimate (n + m) leap width xs
unfolding decimate
decimate-split zero m leap width xs =
    let none : zero * leap ≡ 0 = omega arith in rw (none, add.zero m)
decimate-split (suc n) m leap width xs =
    let more : suc n * leap ≡ leap + n * leap = omega arith in
    rw (
      add.suc n m,
      append_assoc,
      more,
      sym (drop-drop leap (n * leap) xs),
      decimate-split n m leap width (drop leap xs),
    )

-- A write of bytes that are there, into a sink that has room for them.
pub write_data-extend :
    (sink : Sink) (block : List ℕ) (ptr size : ℕ)
    → ptr + size ≤ length block
    → HasRoom sink size
    → write_data sink block ptr size ≡ ok (extend sink (take size (drop ptr block)), pos 0)
unfolding write_data read_bytes
write_data-extend sink block ptr size inside room =
    let bytes : List ℕ = take size (drop ptr block) in
    let count : length bytes ≡ size = length-part block ptr size inside in
    rw (le→leb (ptr + size) (length block) inside, put-extend sink bytes (rw count room))

take-append_le : (n : ℕ) (xs ys : List ℕ) → n ≤ length xs → take n (xs ++ ys) ≡ take n xs
take-append_le zero xs ys h = refl
take-append_le (suc n) [] ys h = absurd (omega arith)
take-append_le (suc n) (x ∷ xs) ys h = ap (λ l. x ∷ l) (take-append_le n xs ys (omega arith))

drop-append_le : (n : ℕ) (xs ys : List ℕ) → n ≤ length xs → drop n (xs ++ ys) ≡ drop n xs ++ ys
drop-append_le zero xs ys h = refl
drop-append_le (suc n) [] ys h = absurd (omega arith)
drop-append_le (suc n) (x ∷ xs) ys h = drop-append_le n xs ys (omega arith)

-- Decimating the parts, where the first holds whole leaps, is decimating the whole.
pub decimate-append :
    (m n leap width : ℕ) (xs ys : List ℕ)
    → width ≤ leap
    → length xs ≡ m * leap
    → decimate m leap width xs ++ decimate n leap width ys ≡ decimate (m + n) leap width (xs ++ ys)
unfolding decimate
decimate-append zero n leap width [] ys w e = rw (add.zero n)
decimate-append zero n leap width (x ∷ xs) ys w e = absurd (omega arith)
decimate-append (suc m) n leap width xs ys w e = rw (
  add.suc m n,
  take-append_le width xs ys (omega arith),
  drop-append_le leap xs ys (omega arith),
  append_assoc,
  decimate-append m n leap width (drop leap xs) ys w (omega (arith, length-drop leap xs)),
)

-- The bytes of a queue, one buffer after the other.
unfoldable pub joined : List Buffer → List ℕ
joined [] = []
joined (b ∷ bs) = b.bytes ++ joined bs

-- The buffers up to the one with which `size` bytes are reached.
unfoldable pub consumed : List Buffer → ℤ → List Buffer
consumed [] size = []
consumed (b ∷ bs) size =
    b ∷ (if ltb_ℤ (pos 0) (size -ℤ pos b.size) then consumed bs (size -ℤ pos b.size) else [])

-- Buffers of whole leaps, each as long as it says.
abbrev pub AllWhole : ℕ → List Buffer → Type 0
AllWhole leap [] = Unit {0}
AllWhole leap (b ∷ bs) = (length b.bytes ≡ b.size) × (b.size % leap ≡ 0) × AllWhole leap bs
