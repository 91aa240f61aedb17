-- ===== src/Launch.antt =====
-- The configuration string that the slurm plugin hands from the launcher to the daemons,
-- src/slurm_plugin/encode_decode.c. Of `snprintf` and `sscanf`, the conversions that the source uses, on
-- numbers that fit their types; `sscanf` would also take blanks and a sign before a number, which
-- `encodeSpindleConfig` does not write.
pub mod Numbers
pub mod RoundTrip
mod Tests
use spindle.Prelude.{
  ℕ, zero, suc, ◌+◌, ◌-◌, ◌*◌, ◌/◌, ◌%◌, ◌^◌, List, [], ◌∷◌, ◌++◌, Bool, true, false, ◌&&◌, ◌==◌,
  ltb, if◌then◌else◌, Option, none, some, CString, length, take, drop,
}

pub record SpindleConfig : Type 0 where
  pub port : ℕ
  pub num_ports : ℕ
  pub unique_id : ℕ
  pub security_type : ℕ
  pub spindle_argv : List CString

abbrev pub colon : ℕ
colon = 58

-- `%u`, `%lu`, `%d`: twenty digits are enough for 64 bits (Launch/Numbers).
unfoldable pub digits : ℕ → ℕ → CString
digits zero n = []
digits (suc fuel) n =
    let before = digits fuel (n / 10) in
    if ltb n 10 then (48 + n) ∷ [] else before ++ ((48 + n % 10) ∷ [])

abbrev pub print_number : ℕ → CString
print_number n = digits 20 n

-- The rounds of the loop over the arguments.
unfoldable pub print_args : List CString → CString
print_args [] = []
print_args (arg ∷ args) = colon ∷ (print_number (length arg) ++ (colon ∷ (arg ++ print_args args)))

unfoldable pub config_str : SpindleConfig → CString
unfolding print_args
config_str c =
    let s5 = print_number (length c.spindle_argv) ++ print_args c.spindle_argv in
    let s4 = print_number c.security_type ++ (colon ∷ s5) in
    let s3 = print_number c.unique_id ++ (colon ∷ s4) in
    let s2 = print_number c.num_ports ++ (colon ∷ s3) in print_number c.port ++ (colon ∷ s2)

-- `INT32_CHAR_LEN` and `INT64_CHAR_LEN`, and the bytes allocated.
unfoldable pub args_len : List CString → ℕ
args_len [] = 0
args_len (arg ∷ args) = length arg + 12 + 2 + args_len args

unfoldable pub config_len : SpindleConfig → ℕ
unfolding args_len
config_len c = 12 * 5 + 22 + 6 + 1 + args_len c.spindle_argv

-- `none` for the failed assertion, which counts the closing NUL as used, and where the length of
-- the string does not fit `int len`, whose overflow C leaves undefined.
unfoldable pub encode_spindle_config : SpindleConfig → Option CString
unfolding config_str config_len
encode_spindle_config c =
    if ltb (config_len c) (2 ^ 31) && ltb (length (config_str c) + 1) (config_len c)
    then some (config_str c)
    else none

-- The number at the start of a string, and what follows it.
abbrev pub is_digit : ℕ → Bool
is_digit ch = ltb 47 ch && ltb ch 58

abbrev pub starts_with_digit : CString → Bool
starts_with_digit [] = false
starts_with_digit (ch ∷ chs) = is_digit ch

unfoldable pub scan_digits : ℕ → CString → ℕ × CString
scan_digits n [] = (n, [])
scan_digits n (ch ∷ chs) =
    let more = scan_digits (n * 10 + (ch - 48)) chs in if is_digit ch then more else (n, ch ∷ chs)

unfoldable pub scan_number : CString → Option (ℕ × CString)
unfolding scan_digits
scan_number s = if starts_with_digit s then some (scan_digits 0 s) else none

unfoldable pub scan_colon : CString → Option CString
scan_colon [] = none
scan_colon (ch ∷ chs) = if ch == colon then some chs else none

-- The result of `decodeSpindleConfig`: -1, a copy that goes past the end of the string, or 0.
pub data Decoded : Type 0 where
  rejected past_end : Decoded
  decoded : SpindleConfig → Decoded

pub data DecodedArgs : Type 0 where
  args_rejected args_past_end : DecodedArgs
  args_decoded : List CString → DecodedArgs

-- `sscanf(s, ":%d:%n", &strsize, &bytes_read)` with a result of 1: without the second colon
-- `bytes_read` stays what it was.
unfoldable pub scan_size : ℕ → CString → Option (ℕ × ℕ)
unfolding scan_colon scan_number
scan_size bytes_read s = elim (scan_colon s) [
  | none ↦ none
  | some after ↦ elim (scan_number after) [
    | none ↦ none
    | some (strsize, rest) ↦ elim (scan_colon rest) [
      | none ↦ some (strsize, bytes_read)
      | some text ↦ some (strsize, length s - length text)
    ]
  ]
]

abbrev pub add_arg : CString → DecodedArgs → DecodedArgs
add_arg arg (args_decoded args) = args_decoded (arg ∷ args)
add_arg arg args_rejected = args_rejected
add_arg arg args_past_end = args_past_end

-- The copy that takes the closing NUL as its last byte: a further argument is read past it.
abbrev pub with_nul : ℕ → CString → DecodedArgs
with_nul zero text = args_decoded (text ∷ [])
with_nul (suc count) text = args_past_end

-- The loop for `count` more arguments, on the string from `pos` on.
unfoldable pub decode_args : ℕ → ℕ → CString → DecodedArgs
unfolding scan_size
decode_args zero bytes_read s = args_decoded []
decode_args (suc count) bytes_read s = elim (scan_size bytes_read s) [
  | none ↦ args_rejected
  | some (strsize, read) ↦
      let text = drop read s in
      let rest = decode_args count read (drop strsize text) in
      if ltb 4096 strsize
      then args_rejected
      else if ltb (length s) read
      then args_rejected
      else if ltb (length text + 1) strsize
      then args_past_end
      else if ltb (length text) strsize
      then with_nul count text
      else add_arg (take strsize text) rest
]

-- `sscanf(s, "%u:…")` for one number and the colon after it.
unfoldable pub scan_field : CString → Option (ℕ × CString)
unfolding scan_number scan_colon
scan_field s = elim (scan_number s) [
  | none ↦ none
  | some (n, rest) ↦ elim (scan_colon rest) [ none ↦ none | some after ↦ some (n, after) ]
]

infixl 1 ◌>>=◌
abbrev ◌>>=◌ : {A B : Type 0} → Option A → (A → Option B) → Option B
none >>= f = none
some a >>= f = f a

unfoldable pub scan_params : CString → Option (ℕ × ℕ × ℕ × ℕ × ℕ × CString)
unfolding scan_field scan_number
scan_params s = do
  (port, s1) ← scan_field s
  (num_ports, s2) ← scan_field s1
  (unique_id, s3) ← scan_field s2
  (security_type, s4) ← scan_field s3
  (argc, s5) ← scan_number s4
  some (port, num_ports, unique_id, security_type, argc, s5)

abbrev pub with_args : ℕ → ℕ → ℕ → ℕ → DecodedArgs → Decoded
with_args port num_ports unique_id security_type args_rejected = rejected
with_args port num_ports unique_id security_type args_past_end = past_end
with_args port num_ports unique_id security_type (args_decoded args) = decoded (record {
  port = port;
  num_ports = num_ports;
  unique_id = unique_id;
  security_type = security_type;
  spindle_argv = args;
})

unfoldable pub decode_spindle_config : CString → Decoded
unfolding scan_params decode_args
decode_spindle_config s = elim (scan_params s) [
  | none ↦ rejected
  | some (port, num_ports, unique_id, security_type, argc, rest) ↦
      if ltb 1023 argc
      then rejected
      else with_args port num_ports unique_id security_type
          (decode_args argc (length s - length rest) rest)
]
