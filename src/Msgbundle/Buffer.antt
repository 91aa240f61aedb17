-- ===== src/Msgbundle/Buffer.antt =====
-- The size of the buffers: no `memcpy` of the bundler writes past the end of one.
use spindle.Prelude.{
  ℕ, ◌+◌, ◌*◌, ◌-◌, ◌<◌, List, [], ◌∷◌, ◌++◌, some, Bool, false, leb, ◌≡◌, length, length-append,
  length-take, take, All, arith, Bool-cases, inl, inr,
}
use mathlib.Core.Path.{subst, sym}
use spindle.Wire.{Message, sizeof_header, header_bytes, length-header_bytes}
use spindle.Msgbundle.{
  Node, Entry, Bundler, capacity, emptied, flush_all, empty_each, flush_entry, put_message,
  append_message, add_entry, new_entry, find_entry, write_entry, message_bytes,
  msgbundle_force_flush, pass_through, spindle_send,
}
use spindle.Msgbundle.Branches.{
  SendCase, off, leaf, big_new, big_old, small_new, small_old, send_case,
}
use spindle.Msgbundle.Tracks.{IsSendable}
use spindle.Msgbundle.Send.{send-config}
use spindle.Msgbundle.Delivery.{Command, send, flush, run, start, AllSendable, flush_off, flush_on}

-- The buffer's position stays below its size.
abbrev pub HasRoom : ℕ → Entry → Type 0
HasRoom cap mb = length mb.cache < cap

abbrev pub InBounds : ℕ → List Entry → Type 0
InBounds cap = All (HasRoom cap)

write-InBounds :
    (cap : ℕ) (new : Entry) (l : List Entry)
    → HasRoom cap new
    → InBounds cap l
    → InBounds cap (write_entry new l)
unfolding write_entry
write-InBounds cap new [] h b = tt
write-InBounds cap new (mb ∷ l) h b = ground (arith, write-InBounds cap new l h b.1)

found-HasRoom :
    (cap : ℕ) (n : Node) (l : List Entry) (mb : Entry)
    → InBounds cap l
    → find_entry n l ≡ some mb
    → HasRoom cap mb
unfolding find_entry
found-HasRoom cap n [] mb b e = cc
found-HasRoom cap n (k ∷ l) mb b e = ground (arith, found-HasRoom cap n l mb b.1)

empty_each-InBounds : (cap : ℕ) (l : List Entry) → InBounds cap l → InBounds cap (empty_each l)
unfolding empty_each emptied
empty_each-InBounds cap [] b = tt
empty_each-InBounds cap (mb ∷ l) b = (omega (arith, b.0), empty_each-InBounds cap l b.1)

length-message_bytes :
    (msg : Message) (secondary : List ℕ)
    → IsSendable msg secondary
    → length (message_bytes msg secondary) ≡ sizeof_header + msg.header.len
unfolding message_bytes
length-message_bytes msg sec s =
    let first = take (msg.header.len - length sec) msg.body in
    omega (
      arith,
      length-append (header_bytes msg.header) (first ++ sec),
      length-append first sec,
      length-take (msg.header.len - length sec) msg.body,
      length-header_bytes msg.header,
      s.second_part,
      s.first_part,
    )

put-InBounds :
    (cap : ℕ) (b : Bundler) (mb : Entry) (msg : Message) (secondary : List ℕ)
    → IsSendable msg secondary
    → sizeof_header + msg.header.len + length mb.cache < cap
    → InBounds cap b.entries
    → InBounds cap (put_message b mb msg secondary).entries
unfolding put_message
put-InBounds cap b mb msg sec s h w =
    write-InBounds cap _ b.entries
      (omega
        (arith, length-append mb.cache (message_bytes msg sec), length-message_bytes msg sec s, h))
      w

append-InBounds :
    (b : Bundler) (mb : Entry) (msg : Message) (secondary : List ℕ)
    → IsSendable msg secondary
    → leb (capacity b) (sizeof_header * 2 + msg.header.len) ≡ false
    → InBounds (capacity b) b.entries
    → InBounds (capacity b) (append_message b mb msg secondary).entries
unfolding append_message flush_entry emptied
append-InBounds b mb msg sec s small w =
    elim (Bool-cases (leb (capacity b) (sizeof_header + msg.header.len + length mb.cache))) [
      | inl full ↦
          rw (full, append_message)
            (put-InBounds (capacity b) (flush_entry b mb) (emptied mb) msg sec s (ground arith)
              (write-InBounds (capacity b) (emptied mb) b.entries (ground arith) w))
      | inr room ↦
          rw (room, append_message) (put-InBounds (capacity b) b mb msg sec s (ground arith) w)
    ]

send-InBounds :
    (b : Bundler) (msg : Message) (node : Node) (secondary : List ℕ)
    → IsSendable msg secondary
    → InBounds (capacity b) b.entries
    → InBounds (capacity b) (spindle_send b msg node secondary).entries
unfolding pass_through flush_entry emptied add_entry new_entry
send-InBounds b msg node sec s w = go (send_case b msg node sec)
  where
    go : SendCase b msg node sec → InBounds (capacity b) (spindle_send b msg node sec).entries
    go (off e q) = rw q w
    go (leaf e l q) = rw q w
    go (big_new e f q) = rw q w
    go (big_old e mb f q) = rw q (
        write-InBounds (capacity b) (emptied mb) b.entries
          (omega (arith, found-HasRoom (capacity b) node b.entries mb w f)) w)
    go (small_new e g f q) =
        rw q (append-InBounds (add_entry b node) (new_entry node) msg sec s g (ground arith, w))
    go (small_old e g mb f q) = rw q (append-InBounds b mb msg sec s g w)

flush-size : (b : Bundler) → (msgbundle_force_flush b).cache_size_kb ≡ b.cache_size_kb
unfolding msgbundle_force_flush flush_all
flush-size b = ground arith

flush-InBounds :
    (b : Bundler)
    → InBounds (capacity b) b.entries
    → InBounds (capacity b) (msgbundle_force_flush b).entries
unfolding flush_all
flush-InBounds b w = elim (Bool-cases b.enabled) [
  | inr e ↦ rw (flush_off b e) w
  | inl e ↦ rw (flush_on b e) (empty_each-InBounds (capacity b) b.entries w)
]

run-InBounds :
    (b : Bundler) (cs : List Command)
    → AllSendable cs
    → InBounds (capacity b) b.entries
    → InBounds (capacity b) (run b cs).entries
unfolding run
run-InBounds b [] s w = w
run-InBounds b (send msg node sec ∷ cs) s w =
    let b' = spindle_send b msg node sec in
    subst (λ k. InBounds (k * 1024) (run b' cs).entries) (send-config b msg node sec).2
      (run-InBounds b' cs s.1 (
        subst (λ k. InBounds (k * 1024) b'.entries) (sym (send-config b msg node sec).2)
          (send-InBounds b msg node sec s.0 w)))
run-InBounds b (flush ∷ cs) s w =
    let b' = msgbundle_force_flush b in
    subst (λ k. InBounds (k * 1024) (run b' cs).entries) (flush-size b)
      (run-InBounds b' cs s
        (subst (λ k. InBounds (k * 1024) b'.entries) (sym (flush-size b)) (flush-InBounds b w)))

-- After any sends of whole messages and any flushes, the bytes in every buffer are fewer than the
-- `cache_size_kb * 1024` that were allocated for it.
pub run_in_bounds :
    (on : Bool) (kb children : ℕ) (cs : List Command)
    → AllSendable cs
    → All (λ mb. length mb.cache < kb * 1024) (run (start on kb children) cs).entries
unfolding start
run_in_bounds on kb children cs s = run-InBounds (start on kb children) cs s tt
