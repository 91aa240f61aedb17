-- ===== src/Launch/Tests.antt =====
-- A configuration with two arguments, and one with too many.
use spindle.Prelude.{
  ℕ, zero, suc, ◌*◌, [], ◌∷◌, some, CString, length, replicate, All, ◌≡◌, refl, arith,
}
use spindle.Launch.{
  SpindleConfig, config_len, args_len, encode_spindle_config, scan_digits, scan_number, scan_colon,
  scan_size, scan_field, scan_params, rejected, past_end, decoded, decode_args,
  decode_spindle_config,
}
use spindle.Launch.RoundTrip.{IsShort, IsTyped, decode-encode, decode-encode_many}

abbrev arg_x : CString
arg_x = 120 ∷ []

abbrev config : SpindleConfig
config = record {
  port = 21940;
  num_ports = 25;
  unique_id = 18446744073709551615;
  security_type = 3;
  spindle_argv = (45 ∷ 45 ∷ 112 ∷ 117 ∷ 115 ∷ 104 ∷ []) ∷ (45 ∷ 120 ∷ []) ∷ [];
}

config-IsTyped : IsTyped config
unfolding config_len
config-IsTyped = record {
  port = omega arith;
  num_ports = omega arith;
  unique_id = omega arith;
  security_type = omega arith;
  argc = omega arith;
  args = (omega arith, (omega arith, tt));
  total = omega arith;
}

-- "1:2:3:4:1:9:ab": the decoder copies nine bytes of the two that are left.
short_text :
    decode_spindle_config (49 ∷ 58 ∷ 50 ∷ 58 ∷ 51 ∷ 58 ∷ 52 ∷ 58 ∷ 49 ∷ 58 ∷ 57 ∷ 58 ∷ 97 ∷ 98 ∷ [])
    ≡ past_end
unfolding decode_spindle_config scan_params scan_field scan_number scan_colon scan_digits
    decode_args scan_size
short_text = refl

-- "1:2:3:4:1:3:ab": the third byte that it copies is the closing NUL.
nul_taken :
    decode_spindle_config (49 ∷ 58 ∷ 50 ∷ 58 ∷ 51 ∷ 58 ∷ 52 ∷ 58 ∷ 49 ∷ 58 ∷ 51 ∷ 58 ∷ 97 ∷ 98 ∷ [])
    ≡ decoded (record {
      port = 1;
      num_ports = 2;
      unique_id = 3;
      security_type = 4;
      spindle_argv = (97 ∷ 98 ∷ []) ∷ [];
    })
unfolding decode_spindle_config scan_params scan_field scan_number scan_colon scan_digits
    decode_args scan_size
nul_taken = refl

decode-encode_example :
    (s : CString) × (encode_spindle_config config ≡ some s)
    × (decode_spindle_config s ≡ decoded config)
decode-encode_example =
    decode-encode config config-IsTyped (omega arith) (omega arith, (omega arith, tt))

abbrev many : SpindleConfig
many = record config { spindle_argv = replicate 1024 arg_x }

replicate-IsShort : (n : ℕ) → All IsShort (replicate n arg_x)
replicate-IsShort zero = tt
replicate-IsShort (suc n) = (omega arith, replicate-IsShort n)

length-replicate : (n : ℕ) → length (replicate n arg_x) ≡ n
length-replicate zero = refl
length-replicate (suc n) = omega (arith, length-replicate n)

args_len-replicate : (n : ℕ) → args_len (replicate n arg_x) ≡ 15 * n
unfolding args_len
args_len-replicate zero = refl
args_len-replicate (suc n) = omega (arith, args_len-replicate n)

many-IsTyped : IsTyped many
unfolding config_len
many-IsTyped = record {
  port = omega arith;
  num_ports = omega arith;
  unique_id = omega arith;
  security_type = omega arith;
  argc = omega (arith, length-replicate 1024);
  args = replicate-IsShort 1024;
  total = omega (arith, args_len-replicate 1024);
}

decode-encode_many_example :
    (s : CString) × (encode_spindle_config many ≡ some s) × (decode_spindle_config s ≡ rejected)
decode-encode_many_example =
    decode-encode_many many many-IsTyped (omega (arith, length-replicate 1024))
