-- ===== src/Audio/Suffix.antt =====
-- The suffix that tells the socket paths of one process apart.
use mathlib.Core.List.{foldl, foldl-append}
use native.Mathlib.Nat.{pow-suc}
use rdk_audiocapturemgr.Prelude.{
  ◌%◌, length, length-append, ◌≤◌, [], ◌∷◌, ℕ, zero, suc, ◌+◌, ◌-◌, ◌*◌, ◌/◌, ◌^◌, ◌<◌, ◌≡◌, ◌∙◌,
  sym, ap, List, inl, inr, ltb, Bool-cases, arith,
}
use rdk_audiocapturemgr.Audio.{digits, get_suffix}

-- The number that a string of decimal digits denotes.
abbrev pub value : List ℕ → ℕ
value = foldl (λ acc c. acc * 10 + (c - 48)) 0

value-digits : (fuel n : ℕ) → n < 10 ^ fuel → value (digits fuel n) ≡ n
unfolding digits
value-digits zero n h = omega arith
value-digits (suc fuel) n h = elim (Bool-cases (ltb n 10)) [
  | inl small ↦ rw small (omega arith)
  | inr large ↦
      rw (large, foldl-append)
        (omega (arith, value-digits fuel (n / 10) (omega (arith, pow-suc 10 fuel))))
]

-- Reading the suffix back gives the ticker, for every `unsigned int`.
pub value-get_suffix : (ticker : ℕ) → ticker < 2 ^ 32 → value (get_suffix ticker) ≡ ticker
unfolding get_suffix
value-get_suffix ticker h = value-digits 10 ticker (omega arith)

-- So two tickers of an `unsigned int` give the same suffix only if they are equal.
pub get_suffix-injective : (m n : ℕ) → m < 2 ^ 32 → n < 2 ^ 32 → get_suffix m ≡ get_suffix n → m ≡ n
get_suffix-injective m n hm hn e = sym (value-get_suffix m hm) ∙ ap value e ∙ value-get_suffix n hn

length-digits : (fuel n : ℕ) → length (digits fuel n) ≤ fuel
unfolding digits
length-digits zero n = omega arith
length-digits (suc fuel) n =
    let rest = digits fuel (n / 10) in
    ground (arith, length-digits fuel (n / 10), length-append rest ((48 + n % 10) ∷ []))

pub length-get_suffix : (ticker : ℕ) → length (get_suffix ticker) ≤ 10
unfolding get_suffix
length-get_suffix ticker = length-digits 10 ticker
