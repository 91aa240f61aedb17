-- ===== src/Cache/Strings.antt =====
-- Lengths, strings and numbers in a directory's packet are read back as they were written.
use spindle.Prelude.{
  ℕ, suc, ◌^◌, ◌<◌, List, [], ◌∷◌, ◌++◌, Bool, true, false, ◌==◌, ltb, some, CString, str_eq,
  contains, length, ◌≡◌, refl, arith, Option-cases, inl, inr, append-nil, take_append_exact,
  drop_append_exact, take_of_length-le, length-append,
}
use spindle.Wire.{le_bytes, length-le_bytes, le_value-le_bytes}
use spindle.Cache.{max_path_len, c_string, take_int, take_string}

abbrev pub not_empty : List CString → Bool
not_empty [] = false
not_empty (name ∷ names) = true

-- A string that a packet can hold: no NUL in it, and not too long.
pub record IsPath (s : CString) : Type 0 where
  pub no_nul : contains 0 s ≡ false
  pub short : length s < max_path_len

-- A file's name is not empty.
pub record IsFileName (s : CString) : Type 0 where
  pub is_path : IsPath s
  pub some_name : str_eq [] s ≡ false

pub c_string-nul : (s rest : CString) → contains 0 s ≡ false → c_string (s ++ (0 ∷ rest)) ≡ some s
unfolding c_string contains
c_string-nul [] rest h = elim (Option-cases (c_string rest)) [
  | inl e ↦ rw (c_string, e) refl
  | inr (s, e) ↦ rw (c_string, e) refl
]
c_string-nul (ch ∷ s) rest h =
    let later : contains 0 s ≡ false = ground arith in
    let here : (ch == 0) ≡ false = ground arith in
    rw (c_string, c_string-nul s rest later, here) refl

pub take_int-le_bytes :
    (n : ℕ) (rest : List ℕ) → n < 2 ^ 32 → take_int (le_bytes 4 n ++ rest) ≡ some (n, rest)
unfolding take_int
take_int-le_bytes n rest h =
    let sized = length-le_bytes 4 n in
    let fits : ltb (length (le_bytes 4 n ++ rest)) 4 ≡ false =
      ground (arith, sized, length-append (le_bytes 4 n) rest) in
    rw
      (
        take_int,
        fits,
        take_append_exact 4 (le_bytes 4 n) rest sized,
        drop_append_exact 4 (le_bytes 4 n) rest sized,
        le_value-le_bytes 4 n (omega arith),
      )
      refl

pub take_string-nul :
    (s rest : CString)
    → IsPath s
    → take_string (suc (length s)) ((s ++ (0 ∷ [])) ++ rest) ≡ some (s, rest)
unfolding take_string
take_string-nul s rest p =
    let n = suc (length s) in
    let text = s ++ (0 ∷ []) in
    let sized : length text ≡ n = omega (arith, length-append s (0 ∷ [])) in
    let fits : ltb (length (text ++ rest)) n ≡ false =
      ground (arith, sized, length-append text rest) in
    let whole : ltb max_path_len n ≡ false = ground (arith, p.short) in
    rw
      (
        take_string,
        fits,
        take_append_exact n text rest sized,
        take_of_length-le max_path_len text (omega (arith, sized, p.short)),
        whole,
        append-nil text,
        c_string-nul s [] p.no_nul,
        drop_append_exact n text rest sized,
      )
      refl
