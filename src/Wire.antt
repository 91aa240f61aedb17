-- ===== src/Wire.antt =====
-- Messages between servers (src/include/ldcs_api.h) and the bytes of a message header in memory, as
-- `memcpy` moves them on a 64-bit little-endian machine: a four-byte enumeration, four bytes of
-- padding (their content is never read; the model writes zeros), and an eight-byte `size_t`.
use spindle.Prelude.{
  ℕ, zero, suc, ◌+◌, ◌*◌, ◌/◌, ◌%◌, ◌^◌, ◌<◌, List, [], ◌∷◌, ◌++◌, ◌≡◌, refl, length, take, drop,
  arith,
}
use native.Mathlib.Nat.{pow-suc}

pub record Header : Type 0 where
  pub msg_type : ℕ
  pub len : ℕ

-- `ldcs_message_t`; `body` is what `data` points to.
pub record Message : Type 0 where
  pub header : Header
  pub body : List ℕ

-- The values of `ldcs_message_ids_t` that the model names.
abbrev pub ldcs_msg_bundle : ℕ
ldcs_msg_bundle = 54

abbrev pub sizeof_header : ℕ
sizeof_header = 16

-- The low `k` bytes of a number, least first, and the number of some bytes.
unfoldable pub le_bytes : ℕ → ℕ → List ℕ
le_bytes zero n = []
le_bytes (suc k) n = n % 256 ∷ le_bytes k (n / 256)

unfoldable pub le_value : List ℕ → ℕ
le_value [] = 0
le_value (b ∷ bs) = b + 256 * le_value bs

unfoldable pub header_bytes : Header → List ℕ
unfolding le_bytes
header_bytes h = le_bytes 4 h.msg_type ++ (le_bytes 4 0 ++ le_bytes 8 h.len)

unfoldable pub header_of_bytes : List ℕ → Header
unfolding le_value
header_of_bytes bs = record { msg_type = le_value (take 4 bs); len = le_value (take 8 (drop 8 bs)) }

pub length-le_bytes : (k n : ℕ) → length (le_bytes k n) ≡ k
unfolding le_bytes
length-le_bytes zero n = refl
length-le_bytes (suc k) n = omega (arith, length-le_bytes k (n / 256))

pub le_value-le_bytes : (k n : ℕ) → n < 256 ^ k → le_value (le_bytes k n) ≡ n
unfolding le_value le_bytes
le_value-le_bytes zero n h = omega arith
le_value-le_bytes (suc k) n h =
    omega (arith, pow-suc 256 k, le_value-le_bytes k (n / 256) (omega (arith, pow-suc 256 k)))

pub length-header_bytes : (h : Header) → length (header_bytes h) ≡ sizeof_header
unfolding header_bytes
length-header_bytes h = refl

-- The fields of a header that fit their C types.
pub record Fits (h : Header) : Type 0 where
  pub type_fits : h.msg_type < 2 ^ 32
  pub len_fits : h.len < 2 ^ 64

-- A header is read back from the front of a buffer where it was copied.
pub header_of_bytes-header_bytes :
    (h : Header) (rest : List ℕ) → Fits h → header_of_bytes (header_bytes h ++ rest) ≡ h
unfolding header_of_bytes header_bytes le_bytes
header_of_bytes-header_bytes h rest f = λ i. record {
  msg_type = le_value-le_bytes 4 h.msg_type (omega arith) i;
  len = le_value-le_bytes 8 h.len (omega arith) i;
}
