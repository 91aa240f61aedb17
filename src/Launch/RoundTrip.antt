-- ===== src/Launch/RoundTrip.antt =====
-- What the launcher encodes, the daemons decode.
use spindle.Prelude.{
  ℕ, ◌+◌, ◌-◌, ◌^◌, ◌≤◌, ◌<◌, List, [], ◌∷◌, ◌++◌, true, false, ltb, some, CString, length, drop,
  ◌≡◌, refl, ap, sym, ◌∙◌, arith, length-append, append_assoc, take_append_exact, drop_append_exact,
  All,
}
use spindle.Launch.{
  SpindleConfig, colon, print_number, print_args, config_str, args_len, config_len,
  encode_spindle_config, starts_with_digit, scan_colon, scan_size, scan_field, scan_params,
  rejected, decoded, args_decoded, decode_args, decode_spindle_config,
}
use spindle.Launch.Numbers.{scan_number-print_number, length-digits}

-- The numbers fit their types; so do the length of each argument and that of the string.
abbrev pub IsShort : CString → Type 0
IsShort arg = length arg < 2 ^ 31

pub record IsTyped (c : SpindleConfig) : Type 0 where
  pub port : c.port < 2 ^ 32
  pub num_ports : c.num_ports < 2 ^ 32
  pub unique_id : c.unique_id < 2 ^ 64
  pub security_type : c.security_type < 2 ^ 32
  pub argc : length c.spindle_argv < 2 ^ 31
  pub args : All IsShort c.spindle_argv
  pub total : config_len c < 2 ^ 31

-- The bytes allocated are enough.
length-print_args :
    (args : List CString) → All IsShort args → length (print_args args) ≤ args_len args
unfolding print_args args_len
length-print_args [] h = omega arith
length-print_args (arg ∷ args) (short, h) = omega (
  arith,
  length-append (print_number (length arg)) (colon ∷ (arg ++ print_args args)),
  length-append arg (print_args args),
  length-digits 20 9 (length arg) (omega (arith, short)),
  length-print_args args h,
)

pub length-config_str : (c : SpindleConfig) → IsTyped c → length (config_str c) + 1 < config_len c
unfolding config_str config_len
length-config_str c t =
    let argc = length c.spindle_argv in
    let s5 = print_number argc ++ print_args c.spindle_argv in
    let s4 = print_number c.security_type ++ (colon ∷ s5) in
    let s3 = print_number c.unique_id ++ (colon ∷ s4) in
    let s2 = print_number c.num_ports ++ (colon ∷ s3) in
    omega (
      arith,
      length-append (print_number c.port) (colon ∷ s2),
      length-append (print_number c.num_ports) (colon ∷ s3),
      length-append (print_number c.unique_id) (colon ∷ s4),
      length-append (print_number c.security_type) (colon ∷ s5),
      length-append (print_number argc) (print_args c.spindle_argv),
      length-digits 20 9 c.port (omega (arith, t.port)),
      length-digits 20 9 c.num_ports (omega (arith, t.num_ports)),
      length-digits 20 19 c.unique_id (omega (arith, t.unique_id)),
      length-digits 20 9 c.security_type (omega (arith, t.security_type)),
      length-digits 20 9 argc (omega (arith, t.argc)),
      length-print_args c.spindle_argv t.args,
    )

encode_lem : (c : SpindleConfig) → IsTyped c → encode_spindle_config c ≡ some (config_str c)
unfolding encode_spindle_config
encode_lem c t =
    let counted : ltb (config_len c) (2 ^ 31) ≡ true = ground (arith, t.total) in
    let fits : ltb (length (config_str c) + 1) (config_len c) ≡ true =
      ground (arith, length-config_str c t) in
    rw (counted, fits) refl

scan_field-print_number :
    (n : ℕ) (rest : CString)
    → n < 2 ^ 64
    → scan_field (print_number n ++ (colon ∷ rest)) ≡ some (n, rest)
unfolding scan_field scan_colon
scan_field-print_number n rest h =
    rw (scan_field, scan_number-print_number n (colon ∷ rest) h refl) refl

scan_size-print_number :
    (old n : ℕ) (text : CString)
    → n < 2 ^ 64
    → scan_size old (colon ∷ (print_number n ++ (colon ∷ text)))
      ≡ some (n, length (print_number n) + 2)
unfolding scan_size scan_colon
scan_size-print_number old n text h =
    rw (scan_size, scan_number-print_number n (colon ∷ text) h refl)
      (ap (λ k. some (n, k)) (omega (arith, length-append (print_number n) (colon ∷ text))))

after_size :
    (n : ℕ) (text : CString)
    → drop (length (print_number n) + 2) (colon ∷ (print_number n ++ (colon ∷ text))) ≡ text
after_size n text =
    let size = print_number n in
    let split : (colon ∷ (size ++ (colon ∷ text))) ≡ (colon ∷ (size ++ (colon ∷ []))) ++ text =
      ap (λ l. colon ∷ l) (sym (append_assoc size (colon ∷ []) text)) in
    ap (drop (length size + 2)) split
    ∙ drop_append_exact (length size + 2) (colon ∷ (size ++ (colon ∷ []))) text
        (omega (arith, length-append size (colon ∷ [])))

-- An argument that the decoder takes.
abbrev pub IsTaken : CString → Type 0
IsTaken arg = length arg ≤ 4096

decode_args-print_args :
    (args : List CString) (old : ℕ)
    → All IsTaken args
    → decode_args (length args) old (print_args args) ≡ args_decoded args
unfolding decode_args print_args
decode_args-print_args [] old h = refl
decode_args-print_args (arg ∷ args) old (short, h) =
    let n = length arg in
    let text = arg ++ print_args args in
    let read = length (print_number n) + 2 in
    let whole = length-append (print_number n) (colon ∷ text) in
    let a : ltb 4096 n ≡ false = ground arith in
    let b : ltb (length (colon ∷ (print_number n ++ (colon ∷ text)))) read ≡ false =
      ground (arith, whole) in
    let c : ltb (length text + 1) n ≡ false = ground (arith, length-append arg (print_args args)) in
    let d : ltb (length text) n ≡ false = ground (arith, length-append arg (print_args args)) in
    rw
      (
        decode_args,
        scan_size-print_number old n text (omega arith),
        a,
        b,
        after_size n text,
        c,
        d,
        take_append_exact n arg (print_args args) refl,
        drop_append_exact n arg (print_args args) refl,
        decode_args-print_args args read h,
      )
      refl

print_args_stop : (args : List CString) → starts_with_digit (print_args args) ≡ false
unfolding print_args
print_args_stop [] = refl
print_args_stop (arg ∷ args) = refl

scan_params-config_str :
    (c : SpindleConfig)
    → IsTyped c
    → scan_params (config_str c)
      ≡ some (
        c.port,
        c.num_ports,
        c.unique_id,
        c.security_type,
        length c.spindle_argv,
        print_args c.spindle_argv,
      )
unfolding config_str scan_params
scan_params-config_str c t =
    let argc = length c.spindle_argv in
    let s5 = print_number argc ++ print_args c.spindle_argv in
    let s4 = print_number c.security_type ++ (colon ∷ s5) in
    let s3 = print_number c.unique_id ++ (colon ∷ s4) in
    let s2 = print_number c.num_ports ++ (colon ∷ s3) in
    rw
      (
        scan_params,
        scan_field-print_number c.port s2 (omega (arith, t.port)),
        scan_field-print_number c.num_ports s3 (omega (arith, t.num_ports)),
        scan_field-print_number c.unique_id s4 t.unique_id,
        scan_field-print_number c.security_type s5 (omega (arith, t.security_type)),
        scan_number-print_number argc (print_args c.spindle_argv) (omega (arith, t.argc))
            (print_args_stop c.spindle_argv),
      )
      refl

-- A configuration whose numbers fit their types and whose string's length fits an `int`, with fewer
-- than 1024 arguments of at most 4096 bytes, is encoded in the bytes allocated, and the decoder
-- gives it back.
pub decode-encode :
    (c : SpindleConfig)
    → IsTyped c
    → length c.spindle_argv < 1024
    → All IsTaken c.spindle_argv
    → (s : CString) × (encode_spindle_config c ≡ some s) × (decode_spindle_config s ≡ decoded c)
unfolding decode_spindle_config
decode-encode c t few taken =
    let argc = length c.spindle_argv in
    let a : ltb 1023 argc ≡ false = ground arith in
    (
      config_str c,
      encode_lem c t,
      rw
          (
            decode_spindle_config,
            scan_params-config_str c t,
            a,
            decode_args-print_args c.spindle_argv
                (length (config_str c) - length (print_args c.spindle_argv)) taken,
          )
          refl,
    )

-- A configuration whose numbers fit their types and whose string's length fits an `int`, but with
-- 1024 arguments or more, is encoded as well, and the decoder rejects it.
pub decode-encode_many :
    (c : SpindleConfig)
    → IsTyped c
    → 1024 ≤ length c.spindle_argv
    → (s : CString) × (encode_spindle_config c ≡ some s) × (decode_spindle_config s ≡ rejected)
unfolding decode_spindle_config
decode-encode_many c t many =
    let a : ltb 1023 (length c.spindle_argv) ≡ true = ground arith in
    (config_str c, encode_lem c t, rw (decode_spindle_config, scan_params-config_str c t, a) refl)
