-- ===== src/Msgbundle/Receive.antt =====
-- `handle_msgbundle` of src/server/auditserver/ldcs_audit_server_handlers.c: a received bundle is cut
-- into its messages, which are handled in order. The loop takes fuel; a header is never empty, so
-- the size of the buffer is enough. `none` stands for a read past the end of the buffer.
use spindle.Prelude.{
  ℕ, zero, suc, ◌+◌, ◌≤◌, List, [], ◌∷◌, ◌++◌, Option, none, some, Bool, false, ◌||◌, ltb, ◌≡◌,
  refl, if◌then◌else◌, length, length-append, take, drop, take_append_exact, drop_append_exact,
  append_assoc, All, arith,
}
use spindle.Wire.{
  Message, Fits, sizeof_header, header_bytes, header_of_bytes, length-header_bytes,
  header_of_bytes-header_bytes, le_bytes,
}
use mathlib.Core.Option

-- The header and the data of the first message, and the rest; `none` where the buffer is too short.
unfoldable pub cut_message : List ℕ → Option (Message × List ℕ)
cut_message buffer =
    let header = header_of_bytes buffer in
    let after = drop sizeof_header buffer in
    if ltb (length buffer) (sizeof_header + header.len)
    then none
    else some (record { header = header; body = take header.len after }, drop header.len after)

-- The loop; it ends with `none` out of fuel.
unfoldable pub unbundle : ℕ → List ℕ → Option (List Message)
unbundle fuel [] = some []
unbundle zero (c ∷ cs) = none
unbundle (suc fuel) (c ∷ cs) = elim (cut_message (c ∷ cs)) [
  | none ↦ none
  | some (m, rest) ↦ elim (unbundle fuel rest) [ none ↦ none | some ms ↦ some (m ∷ ms) ]
]

unfoldable pub messages_of : List ℕ → Option (List Message)
messages_of buffer = unbundle (length buffer) buffer

-- The data of a message is as long as its header says, and the header fits.
pub record IsWhole (m : Message) : Type 0 where
  pub fits : Fits m.header
  pub sized : length m.body ≡ m.header.len

-- The bytes of whole messages, one after another.
unfoldable pub encode : List Message → List ℕ
encode [] = []
encode (m ∷ ms) = header_bytes m.header ++ (m.body ++ encode ms)

pub encode-append : (ms ns : List Message) → encode (ms ++ ns) ≡ encode ms ++ encode ns
unfolding encode
encode-append [] ns = refl
encode-append (m ∷ ms) ns = simp (encode-append ms ns, append_assoc)

cut_message-encode :
    (m : Message) (rest : List ℕ)
    → IsWhole m
    → cut_message (header_bytes m.header ++ (m.body ++ rest)) ≡ some (m, rest)
unfolding cut_message
cut_message-encode m rest w =
    let h = m.header in
    rw (
      header_of_bytes-header_bytes h (m.body ++ rest) w.fits,
      drop_append_exact 16 (header_bytes h) (m.body ++ rest) (length-header_bytes h),
      long_enough,
      take_append_exact h.len m.body rest w.sized,
      drop_append_exact h.len m.body rest w.sized,
    )
  where
    long_enough :
        ltb (length (header_bytes m.header ++ (m.body ++ rest))) (16 + m.header.len) ≡ false
    long_enough = ground (
      arith,
      length-append (header_bytes m.header) (m.body ++ rest),
      length-append m.body rest,
      length-header_bytes m.header,
      w.sized,
    )

unbundle-step :
    (fuel c : ℕ) (cs rest : List ℕ) (m : Message) (ms : List Message)
    → cut_message (c ∷ cs) ≡ some (m, rest)
    → unbundle fuel rest ≡ some ms
    → unbundle (suc fuel) (c ∷ cs) ≡ some (m ∷ ms)
unfolding unbundle
unbundle-step fuel c cs rest m ms e f = ground arith

unbundle-cons :
    (fuel : ℕ) (m : Message) (rest : List ℕ) (ms : List Message)
    → IsWhole m
    → unbundle fuel rest ≡ some ms
    → unbundle (suc fuel) (header_bytes m.header ++ (m.body ++ rest)) ≡ some (m ∷ ms)
unfolding header_bytes le_bytes
unbundle-cons fuel m rest ms w e = unbundle-step fuel _ _ rest m ms (cut_message-encode m rest w) e

-- With as much fuel as there are messages, or more, the loop ends and returns them all.
pub unbundle-encode :
    (fuel : ℕ) (ms : List Message)
    → length ms ≤ fuel
    → All IsWhole ms
    → unbundle fuel (encode ms) ≡ some ms
unfolding encode unbundle
unbundle-encode zero [] h w = refl
unbundle-encode (suc fuel) [] h w = refl
unbundle-encode zero (m ∷ ms) h w = absurd (omega arith)
unbundle-encode (suc fuel) (m ∷ ms) h w =
    unbundle-cons fuel m (encode ms) ms w.0 (unbundle-encode fuel ms (omega arith) w.1)

pub length-le-encode : (ms : List Message) → length ms ≤ length (encode ms)
unfolding encode
length-le-encode [] = omega arith
length-le-encode (m ∷ ms) = omega (
  arith,
  length-append (header_bytes m.header) (m.body ++ encode ms),
  length-append m.body (encode ms),
  length-header_bytes m.header,
  length-le-encode ms,
)

-- A bundle of whole messages is cut into exactly these, in order, and the fuel is enough.
pub messages_of-encode : (ms : List Message) → All IsWhole ms → messages_of (encode ms) ≡ some ms
unfolding messages_of
messages_of-encode ms w = unbundle-encode (length (encode ms)) ms (length-le-encode ms) w

-- What `handle_server_message` does with a message from a peer: a parameter, over a state `S`;
-- `true` stands for the result -1.
module _ {ℓ} {S : Type ℓ} (handle_server_message : Message → S → S × Bool) where
  -- The calls of the loop, with `had_error`.
  unfoldable pub handle_each : List Message → S → Bool → S × Bool
  handle_each [] s had_error = (s, had_error)
  handle_each (m ∷ ms) s had_error =
      let (s', failed) = handle_server_message m s in handle_each ms s' (had_error || failed)

  -- `none` if the bundle is cut short.
  unfoldable pub handle_msgbundle : Message → S → Option (S × Bool)
  unfolding handle_each messages_of
  handle_msgbundle msg s =
      Option.map (λ ms. handle_each ms s false) (messages_of (take msg.header.len msg.body))
