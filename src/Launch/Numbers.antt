-- ===== src/Launch/Numbers.antt =====
-- A number printed in decimal is read back, and takes no more room than was allowed for it.
use spindle.Prelude.{
  ℕ, zero, suc, ◌+◌, ◌-◌, ◌*◌, ◌/◌, ◌%◌, ◌^◌, ◌≤◌, ◌<◌, [], ◌∷◌, ◌++◌, true, false, some, CString,
  length, ◌≡◌, refl, ap, ◌∙◌, arith, length-append, append_assoc,
}
use native.Mathlib.Nat.{pow-suc}
use native.Mathlib.Decide.{dec_lt}
use spindle.Launch.{digits, print_number, scan_digits, scan_number, is_digit, starts_with_digit}

digits_small : (fuel n : ℕ) → n < 10 → digits (suc fuel) n ≡ ((48 + n) ∷ [])
unfolding digits
digits_small fuel n h = ground arith

digits_large :
    (fuel n : ℕ) → 10 ≤ n → digits (suc fuel) n ≡ digits fuel (n / 10) ++ ((48 + n % 10) ∷ [])
unfolding digits
digits_large fuel n h = ground arith

scan_digit :
    (n d : ℕ) (rest : CString)
    → d < 10
    → scan_digits n ((48 + d) ∷ rest) ≡ scan_digits (n * 10 + d) rest
unfolding scan_digits
scan_digit n d rest h =
    let value : 48 + d - 48 ≡ d = omega arith in
    let is : is_digit (48 + d) ≡ true = ground arith in rw (is, value) refl

-- The digits of a number are read as that number, whatever follows.
scan_digits-digits :
    (fuel n : ℕ) (rest : CString)
    → n < 10 ^ fuel
    → scan_digits 0 (digits fuel n ++ rest) ≡ scan_digits n rest
unfolding digits
scan_digits-digits zero n rest h = ap (λ k. scan_digits k rest) (omega arith)
scan_digits-digits (suc fuel) n rest h = elim (dec_lt n 10) [
  | yes y ↦
      rw (digits_small fuel n y)
        (scan_digit 0 n rest y ∙ ap (λ k. scan_digits k rest) (omega arith))
  | no y ↦
      let d = n % 10 in
      let front =
        scan_digits-digits fuel (n / 10) ((48 + d) ∷ rest) (omega (arith, pow-suc 10 fuel)) in
      let whole : n / 10 * 10 + d ≡ n = omega arith in
      rw
        (
          digits_large fuel n (omega arith),
          append_assoc (digits fuel (n / 10)) ((48 + d) ∷ []) rest,
        )
        (front ∙ scan_digit (n / 10) d rest (omega arith) ∙ ap (λ k. scan_digits k rest) whole)
]

starts_with_digit-digits :
    (fuel n : ℕ) (rest : CString)
    → n < 10 ^ suc fuel
    → starts_with_digit (digits (suc fuel) n ++ rest) ≡ true
starts_with_digit-digits zero n rest h = rw (digits_small zero n (omega arith)) (ground arith)
starts_with_digit-digits (suc fuel) n rest h = elim (dec_lt n 10) [
  | yes y ↦ rw (digits_small (suc fuel) n y) (ground arith)
  | no y ↦
      rw
        (
          digits_large (suc fuel) n (omega arith),
          append_assoc (digits (suc fuel) (n / 10)) ((48 + n % 10) ∷ []) rest,
        )
        (starts_with_digit-digits fuel (n / 10) ((48 + n % 10) ∷ rest)
          (omega (arith, pow-suc 10 (suc fuel))))
]

scan_digits_stop :
    (n : ℕ) (rest : CString) → starts_with_digit rest ≡ false → scan_digits n rest ≡ (n, rest)
unfolding scan_digits
scan_digits_stop n [] stop = refl
scan_digits_stop n (ch ∷ rest) stop = ground arith

-- A printed number is read back; what follows it is not a digit.
pub scan_number-print_number :
    (n : ℕ) (rest : CString)
    → n < 2 ^ 64
    → starts_with_digit rest ≡ false
    → scan_number (print_number n ++ rest) ≡ some (n, rest)
unfolding scan_number
scan_number-print_number n rest h stop =
    rw
      (
        starts_with_digit-digits 19 n rest (omega arith),
        scan_digits-digits 20 n rest (omega arith),
        scan_digits_stop n rest stop,
      )
      refl

-- A number below a power of ten has no more digits than the power.
pub length-digits : (fuel k n : ℕ) → n < 10 ^ suc k → length (digits fuel n) ≤ suc k
unfolding digits
length-digits zero k n h = omega arith
length-digits (suc fuel) zero n h = rw (digits_small fuel n (omega arith)) (omega arith)
length-digits (suc fuel) (suc k) n h = elim (dec_lt n 10) [
  | yes y ↦ rw (digits_small fuel n y) (omega arith)
  | no y ↦ rw (digits_large fuel n (omega arith)) (
      omega (
        arith,
        length-append (digits fuel (n / 10)) ((48 + n % 10) ∷ []),
        length-digits fuel k (n / 10) (omega (arith, pow-suc 10 (suc k))),
      ))
]
