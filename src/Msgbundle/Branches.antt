-- ===== src/Msgbundle/Branches.antt =====
-- The branches of `spindle_send` as cases with their equations, so that a proof splits once.
use spindle.Prelude.{
  ℕ, ◌+◌, ◌*◌, List, none, some, Bool, true, false, ◌&&◌, ◌==◌, leb, ◌≡◌, arith, Bool-cases,
  Option-cases, inl, inr,
}
use spindle.Wire.{Message, sizeof_header}
use spindle.Msgbundle.{
  Node, broadcast, node_eq, Entry, Bundler, capacity, find_entry, flush_entry, append_message,
  new_entry, add_entry, joined, pass_through, send_worker, spindle_send,
}

module _ (b : Bundler) (msg : Message) (node : Node) (secondary : List ℕ) where
  abbrev pub IsOn : Type 0
  IsOn = (b.enabled ≡ true) × ((b.num_children == 0 && node_eq node broadcast) ≡ false)

  abbrev pub IsBig : Bool → Type 0
  IsBig t = leb (capacity b) (sizeof_header * 2 + msg.header.len) ≡ t

  -- The branches of `spindle_send`.
  send_off :
      b.enabled ≡ false
      → spindle_send b msg node secondary ≡ pass_through b (joined msg secondary) node
  unfolding spindle_send send_worker
  send_off e = ground arith

  send_leaf :
      b.enabled ≡ true
      → (b.num_children == 0 && node_eq node broadcast) ≡ true
      → spindle_send b msg node secondary ≡ b
  unfolding spindle_send send_worker
  send_leaf e f = ground arith

  send_big_new :
      IsOn
      → IsBig true
      → find_entry node b.entries ≡ none
      → spindle_send b msg node secondary ≡ pass_through b (joined msg secondary) node
  unfolding spindle_send send_worker
  send_big_new e f g = ground arith

  send_big_old :
      IsOn
      → IsBig true
      → (mb : Entry) → find_entry node b.entries ≡ some mb
      → spindle_send b msg node secondary
        ≡ pass_through (flush_entry b mb) (joined msg secondary) node
  unfolding spindle_send send_worker
  send_big_old e f mb g = ground arith

  send_small_new :
      IsOn
      → IsBig false
      → find_entry node b.entries ≡ none
      → spindle_send b msg node secondary
        ≡ append_message (add_entry b node) (new_entry node) msg secondary
  unfolding spindle_send send_worker
  send_small_new e f g = ground arith

  send_small_old :
      IsOn
      → IsBig false
      → (mb : Entry) → find_entry node b.entries ≡ some mb
      → spindle_send b msg node secondary ≡ append_message b mb msg secondary
  unfolding spindle_send send_worker
  send_small_old e f mb g = ground arith

  -- Bundling is off; a leaf drops a broadcast; a message that no buffer can hold passes through,
  -- behind what its destination's buffer holds; any other is added to a buffer, new or old.
  pub data SendCase : Type 0 where
    off :
        b.enabled ≡ false
        → spindle_send b msg node secondary ≡ pass_through b (joined msg secondary) node
        → SendCase
    leaf :
        b.enabled ≡ true
        → (b.num_children == 0 && node_eq node broadcast) ≡ true
        → spindle_send b msg node secondary ≡ b
        → SendCase
    big_new :
        IsOn
        → find_entry node b.entries ≡ none
        → spindle_send b msg node secondary ≡ pass_through b (joined msg secondary) node
        → SendCase
    big_old :
        IsOn
        → (mb : Entry) → find_entry node b.entries ≡ some mb
        → spindle_send b msg node secondary
          ≡ pass_through (flush_entry b mb) (joined msg secondary) node
        → SendCase
    small_new :
        IsOn
        → IsBig false
        → find_entry node b.entries ≡ none
        → spindle_send b msg node secondary
          ≡ append_message (add_entry b node) (new_entry node) msg secondary
        → SendCase
    small_old :
        IsOn
        → IsBig false
        → (mb : Entry) → find_entry node b.entries ≡ some mb
        → spindle_send b msg node secondary ≡ append_message b mb msg secondary
        → SendCase

  pub send_case : SendCase
  send_case = elim (Bool-cases b.enabled) [
    | inr e ↦ off e (send_off e)
    | inl e ↦ elim (Bool-cases (b.num_children == 0 && node_eq node broadcast)) [
      | inl l ↦ leaf e l (send_leaf e l)
      | inr l ↦ elim (Bool-cases (leb (capacity b) (sizeof_header * 2 + msg.header.len))) [
        | inl g ↦ elim (Option-cases (find_entry node b.entries)) [
          | inl f ↦ big_new (e, l) f (send_big_new (e, l) g f)
          | inr (mb, f) ↦ big_old (e, l) mb f (send_big_old (e, l) g mb f)
        ]
        | inr g ↦ elim (Option-cases (find_entry node b.entries)) [
          | inl f ↦ small_new (e, l) g f (send_small_new (e, l) g f)
          | inr (mb, f) ↦ small_old (e, l) g mb f (send_small_old (e, l) g mb f)
        ]
      ]
    ]
  ]
