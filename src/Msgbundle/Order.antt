-- ===== src/Msgbundle/Order.antt =====
-- What a destination receives, bundles cut up again, and what its buffer still holds: together
-- these are the messages sent to it, in order.
use spindle.Prelude.{
  ℕ, List, [], ◌∷◌, ◌++◌, none, some, true, false, ◌==◌, ◌≡◌, ◌↔◌, refl, sym, ap, ◌∙◌,
  if◌then◌else◌, length, take, take_of_length-le, append_assoc, append-nil, All, arith, Bool-cases,
  inl, inr,
}
use spindle.Wire.{Message, le_bytes, ldcs_msg_bundle, header_bytes}
use spindle.Msgbundle.{
  Node, broadcast, parent, peer, node_eq, Entry, Bundler, bundle_of, flush_msgbuffer, flush_each,
  empty_each, find_entry, write_entry,
}
use spindle.Msgbundle.Receive.{IsWhole, encode, messages_of, messages_of-encode}

pub node_eq_iff : (a b : Node) → (node_eq a b ≡ true) ↔ (a ≡ b)
unfolding node_eq
node_eq_iff broadcast broadcast = (λ e. refl, λ e. refl)
node_eq_iff broadcast parent = (λ e. cc, λ e. cc)
node_eq_iff broadcast (peer b) = (λ e. cc, λ e. cc)
node_eq_iff parent broadcast = (λ e. cc, λ e. cc)
node_eq_iff parent parent = (λ e. refl, λ e. refl)
node_eq_iff parent (peer b) = (λ e. cc, λ e. cc)
node_eq_iff (peer a) broadcast = (λ e. cc, λ e. cc)
node_eq_iff (peer a) parent = (λ e. cc, λ e. cc)
node_eq_iff (peer a) (peer b) = (λ e. ground arith, λ e. ground arith)

-- The messages that the receiver handles for one that arrives; none if a bundle is cut short.
unfoldable pub contents : Message → List Message
contents m =
    if m.header.msg_type == ldcs_msg_bundle
    then (elim (messages_of (take m.header.len m.body)) [ none ↦ [] | some ms ↦ ms ])
    else m ∷ []

unfoldable pub received : Node → List (Node × Message) → List Message
received n [] = []
received n ((k, m) ∷ log) = (if node_eq k n then contents m else []) ++ received n log

unfoldable pub cache_of : Node → List Entry → List ℕ
cache_of n entries = elim (find_entry n entries) [ none ↦ [] | some mb ↦ mb.cache ]

-- The messages that wait in the buffer of a destination.
unfoldable pub pending : Node → Bundler → List Message
unfolding cache_of
pending n b = elim (messages_of (cache_of n b.entries)) [ none ↦ [] | some ms ↦ ms ]

pub received-nil : (n : Node) → received n [] ≡ []
unfolding received
received-nil n = refl

pub received-append :
    (n : Node) (a b : List (Node × Message)) → received n (a ++ b) ≡ received n a ++ received n b
unfolding received
received-append n [] b = refl
received-append n ((k, m) ∷ a) b = simp (received-append n a b, append_assoc)

pub encode-eq-nil : (ms : List Message) → encode ms ≡ [] → ms ≡ []
unfolding encode header_bytes le_bytes
encode-eq-nil [] e = refl
encode-eq-nil (m ∷ ms) e = cc

contents-bundle : (ms : List Message) → All IsWhole ms → contents (bundle_of (encode ms)) ≡ ms
unfolding contents bundle_of
contents-bundle ms w =
    rw (take_of_length-le (length (encode ms)) (encode ms) (omega arith), messages_of-encode ms w)

-- A flush delivers what waits in the buffer, to its destination alone.
pub flush_received :
    (k n : Node) (c : List ℕ) (ms : List Message)
    → c ≡ encode ms
    → All IsWhole ms
    → received n (flush_msgbuffer (record { node = k; cache = c }))
      ≡ (if node_eq k n then ms else [])
unfolding received flush_msgbuffer
flush_received k n [] ms e w = ground (arith, encode-eq-nil ms (sym e))
flush_received k n (x ∷ xs) ms e w =
    let whole : contents (bundle_of (x ∷ xs)) ≡ ms =
      ap (λ l. contents (bundle_of l)) e ∙ contents-bundle ms w in
    append-nil _ ∙ ap (λ (l : List Message). if node_eq k n then l else []) whole

pub cache_of-write :
    (n : Node) (new : Entry) (entries : List Entry) (old : Entry)
    → find_entry new.node entries ≡ some old
    → cache_of n (write_entry new entries)
      ≡ (if node_eq new.node n then new.cache else cache_of n entries)
unfolding cache_of find_entry write_entry
cache_of-write n new [] old e = cc
cache_of-write n new (mb ∷ next) old e = ground (
  arith,
  cache_of-write n new next old,
  node_eq_iff mb.node new.node,
  node_eq_iff mb.node n,
  node_eq_iff new.node n,
)

pub flush_other :
    (n : Node) (mb : Entry) → node_eq mb.node n ≡ false → received n (flush_msgbuffer mb) ≡ []
unfolding flush_msgbuffer received
flush_other n mb e = go mb.node mb.cache e
  where
    go :
        (k : Node) (c : List ℕ)
        → node_eq k n ≡ false
        → received n (flush_msgbuffer (record { node = k; cache = c })) ≡ []
    go k [] q = refl
    go k (x ∷ xs) q = rw q

-- No destination has two buffers.
abbrev pub IsDistinct : List Entry → Type 0
IsDistinct [] = Unit
IsDistinct (mb ∷ next) = (find_entry mb.node next ≡ none) × IsDistinct next

flush_each_absent :
    (n : Node) (entries : List Entry)
    → find_entry n entries ≡ none
    → received n (flush_each entries) ≡ []
unfolding flush_each find_entry
flush_each_absent n [] e = received-nil n
flush_each_absent n (mb ∷ next) e = elim (Bool-cases (node_eq mb.node n)) [
  | inl q ↦ absurd (ground arith)
  | inr q ↦
      rw (received-append n (flush_msgbuffer mb) (flush_each next), flush_other n mb q)
        (flush_each_absent n next (ground arith))
]

pub received-flush_each :
    (n : Node) (entries : List Entry) (ms : List Message)
    → IsDistinct entries
    → cache_of n entries ≡ encode ms
    → All IsWhole ms
    → received n (flush_each entries) ≡ ms
unfolding flush_each find_entry cache_of
received-flush_each n [] ms d e w = received-nil n ∙ sym (encode-eq-nil ms (sym e))
received-flush_each n (mb ∷ next) ms d e w = elim (Bool-cases (node_eq mb.node n)) [
  | inl q ↦ rw (
    received-append n (flush_msgbuffer mb) (flush_each next),
    flush_received mb.node n mb.cache ms (ground arith) w,
    q,
    flush_each_absent n next (rw (← (node_eq_iff mb.node n).0 q) d.0),
    append-nil ms,
  )
  | inr q ↦
      rw (received-append n (flush_msgbuffer mb) (flush_each next), flush_other n mb q)
        (received-flush_each n next ms d.1 (ground arith) w)
]

pub cache_of-empty_each : (n : Node) (entries : List Entry) → cache_of n (empty_each entries) ≡ []
unfolding cache_of empty_each find_entry
cache_of-empty_each n [] = refl
cache_of-empty_each n (mb ∷ next) = ground (arith, cache_of-empty_each n next)

pub find_entry-write :
    (new : Entry) (entries : List Entry) (old : Entry)
    → find_entry new.node entries ≡ some old
    → find_entry new.node (write_entry new entries) ≡ some new
unfolding find_entry write_entry
find_entry-write new [] old e = cc
find_entry-write new (mb ∷ next) old e = ground (
  arith,
  find_entry-write new next old,
  node_eq_iff mb.node new.node,
  node_eq_iff new.node new.node,
)

find_entry-write_none :
    (n : Node) (new : Entry) (entries : List Entry)
    → find_entry n entries ≡ none
    → find_entry n (write_entry new entries) ≡ none
unfolding find_entry write_entry
find_entry-write_none n new [] e = refl
find_entry-write_none n new (mb ∷ next) e = ground (
  arith,
  find_entry-write_none n new next,
  node_eq_iff mb.node new.node,
  node_eq_iff mb.node n,
  node_eq_iff new.node n,
)

pub write-IsDistinct :
    (new : Entry) (entries : List Entry) → IsDistinct entries → IsDistinct (write_entry new entries)
unfolding write_entry
write-IsDistinct new [] d = tt
write-IsDistinct new (mb ∷ next) d = elim (Bool-cases (node_eq mb.node new.node)) [
  | inl q ↦ rw q (rw (← (node_eq_iff mb.node new.node).0 q) d.0, d.1)
  | inr q ↦ rw q (find_entry-write_none mb.node new next d.0, write-IsDistinct new next d.1)
]

find_entry-empty_each :
    (n : Node) (l : List Entry) → find_entry n l ≡ none → find_entry n (empty_each l) ≡ none
unfolding find_entry empty_each
find_entry-empty_each n [] e = refl
find_entry-empty_each n (mb ∷ next) e = ground (arith, find_entry-empty_each n next)

pub empty_each-IsDistinct :
    (entries : List Entry) → IsDistinct entries → IsDistinct (empty_each entries)
unfolding empty_each
empty_each-IsDistinct [] d = tt
empty_each-IsDistinct (mb ∷ next) d =
    (find_entry-empty_each mb.node next d.0, empty_each-IsDistinct next d.1)
