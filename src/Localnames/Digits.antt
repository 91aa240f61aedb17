-- ===== src/Localnames/Digits.antt =====
-- The hexadecimal index in front of a local name.
use spindle.Prelude.{
  ℕ, zero, suc, ◌+◌, ◌*◌, ◌/◌, ◌%◌, ◌^◌, ◌<◌, ◌≤◌, ◌∷◌, ◌++◌, none, some, Bool, true, false, ◌==◌,
  CString, length, ◌≡◌, refl, arith, ap, ◌∙◌, Bool-cases, inl, inr,
}
use spindle.Paths.{slash}
use spindle.Localnames.{
  dash, hex_digit, print_hex, split_last, hex_value, scan_index, from_dash, int_of,
}

hex_value-hex_digit : (d : ℕ) → d < 16 → hex_value (hex_digit d) ≡ some d
unfolding hex_value hex_digit
hex_value-hex_digit d small = ground arith

hex_digit-dash : (d : ℕ) → (hex_digit d == dash) ≡ false
unfolding hex_digit
hex_digit-dash d = ground arith

hex_digit-slash : (d : ℕ) → (hex_digit d == slash) ≡ false
unfolding hex_digit
hex_digit-slash d = ground arith

scan_index_digit :
    (first : Bool) (index d : ℕ) (tail : CString)
    → d < 16
    → scan_index first index (hex_digit d ∷ tail) ≡ scan_index false (index * 16 + d) tail
unfolding scan_index
scan_index_digit first index d tail small = rw (hex_digit-dash d, hex_value-hex_digit d small) refl

-- The numbers below it have so many digits at most.
abbrev pub below_digits : ℕ → ℕ
below_digits zero = 1
below_digits (suc fuel) = 16 * below_digits fuel

pub scan_index-print_hex :
    (fuel n : ℕ) (first : Bool) (tail : CString)
    → n < below_digits (suc fuel)
    → scan_index first 0 (print_hex (suc fuel) n tail) ≡ scan_index false n tail
unfolding print_hex
scan_index-print_hex zero n first tail small =
    let last : (n / 16 == 0) ≡ true = ground arith in
    let whole : 0 * 16 + n % 16 ≡ n = ground arith in
    rw last (
      scan_index_digit first 0 (n % 16) tail (omega arith)
      ∙ ap (λ k. scan_index false k tail) whole)
scan_index-print_hex (suc fuel) n first tail small =
    let more = scan_index-print_hex fuel (n / 16) first (hex_digit (n % 16) ∷ tail) (omega arith) in
    elim (Bool-cases (n / 16 == 0)) [
      | inl e ↦
          let whole : 0 * 16 + n % 16 ≡ n = ground arith in
          rw e (
            scan_index_digit first 0 (n % 16) tail (omega arith)
            ∙ ap (λ k. scan_index false k tail) whole)
      | inr e ↦
          let whole : n / 16 * 16 + n % 16 ≡ n = omega arith in
          rw e (
            more
            ∙ scan_index_digit false (n / 16) (n % 16) tail (omega arith)
            ∙ ap (λ k. scan_index false k tail) whole)
    ]

pub from_dash-print_hex :
    (fuel n : ℕ) (tail : CString) → from_dash (print_hex fuel n tail) ≡ from_dash tail
unfolding print_hex from_dash
from_dash-print_hex zero n tail = refl
from_dash-print_hex (suc fuel) n tail =
    ground (
      arith,
      from_dash-print_hex fuel (n / 16) (hex_digit (n % 16) ∷ tail),
      hex_digit-dash (n % 16),
    )

pub split_last-print_hex :
    (fuel n : ℕ) (tail : CString)
    → split_last tail ≡ none
    → split_last (print_hex fuel n tail) ≡ none
unfolding print_hex split_last
split_last-print_hex zero n tail whole = whole
split_last-print_hex (suc fuel) n tail whole =
    let front : split_last (hex_digit (n % 16) ∷ tail) ≡ none =
      rw (whole, hex_digit-slash (n % 16)) refl in
    let rest = split_last-print_hex fuel (n / 16) (hex_digit (n % 16) ∷ tail) front in
    elim (Bool-cases (n / 16 == 0)) [ inl e ↦ rw e front | inr e ↦ rw e rest ]

pub print_hex-append :
    (fuel n : ℕ) (front tail : CString)
    → print_hex fuel n front ++ tail ≡ print_hex fuel n (front ++ tail)
unfolding print_hex
print_hex-append zero n front tail = refl
print_hex-append (suc fuel) n front tail =
    let rest = print_hex-append fuel (n / 16) (hex_digit (n % 16) ∷ front) tail in
    elim (Bool-cases (n / 16 == 0)) [ inl e ↦ rw e refl | inr e ↦ rw e rest ]

pub length-print_hex :
    (fuel n : ℕ) (tail : CString) → length (print_hex fuel n tail) ≤ fuel + length tail
unfolding print_hex
length-print_hex zero n tail = omega arith
length-print_hex (suc fuel) n tail =
    let rest = length-print_hex fuel (n / 16) (hex_digit (n % 16) ∷ tail) in
    elim (Bool-cases (n / 16 == 0)) [
      | inl e ↦ rw e (omega arith)
      | inr e ↦ rw e (omega (arith, rest))
    ]

pub int_of_small : (n : ℕ) → n < 2 ^ 31 → int_of n ≡ some n
unfolding int_of
int_of_small n small = ground arith
