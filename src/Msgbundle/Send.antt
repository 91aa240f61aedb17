-- ===== src/Msgbundle/Send.antt =====
-- One call of `spindle_send` keeps account, on every branch, and keeps the buffers distinct.
use spindle.Prelude.{
  ℕ, ◌+◌, List, [], ◌∷◌, ◌++◌, none, some, Bool, true, false, ◌&&◌, ◌==◌, leb, ◌≡◌, refl, sym, ap,
  ◌∙◌, if◌then◌else◌, length, append-nil, arith, Bool-cases, inl, inr,
}
use mathlib.Core.Path.{subst}
use spindle.Msgbundle.Branches.{
  IsOn, SendCase, off, leaf, big_new, big_old, small_new, small_old, send_case,
}
use spindle.Wire.{Message, sizeof_header}
use spindle.Msgbundle.{
  Node, broadcast, node_eq, Entry, Bundler, capacity, emptied, find_entry, flush_entry,
  append_message, new_entry, add_entry, joined, pass_through, spindle_send,
}
use spindle.Msgbundle.Order.{node_eq_iff, cache_of, IsDistinct, find_entry-write, write-IsDistinct}
use spindle.Msgbundle.Tracks.{
  Tracks, IsSendable, flush_entry-Tracks, append_message-Tracks, add_entry-Tracks,
  pass_through-Tracks, cache_of-found,
}

-- What a call of `spindle_send` is to deliver to a destination: with bundling on, a broadcast is
-- dropped where there are no children.
unfoldable pub sent_to : Node → Bool → ℕ → Message → Node → List ℕ → List Message
sent_to n enabled num_children msg node secondary =
    if enabled && (num_children == 0 && node_eq node broadcast)
    then []
    else if node_eq node n
    then joined msg secondary ∷ []
    else []

-- One buffer for a destination, and none where bundling is off.
pub record IsWell (b : Bundler) : Type 0 where
  pub distinct : IsDistinct b.entries
  pub unused : b.enabled ≡ false → b.entries ≡ []

find_entry-node :
    (n : Node) (entries : List Entry) {mb : Entry} → find_entry n entries ≡ some mb → mb.node ≡ n
unfolding find_entry
find_entry-node n [] {mb} e = cc
find_entry-node n (mb ∷ next) {mb = k} e = elim (Bool-cases (node_eq mb.node n)) [
  | inl q ↦ let p : mb.node ≡ n = (node_eq_iff mb.node n).0 q in ground arith
  | inr q ↦ find_entry-node n next {mb = k} (ground arith)
]

flush_entry-empty :
    (b : Bundler) (mb : Entry)
    → find_entry mb.node b.entries ≡ some mb
    → cache_of mb.node (flush_entry b mb).entries ≡ []
unfolding flush_entry emptied
flush_entry-empty b mb found =
    cache_of-found mb.node (emptied mb) _ (find_entry-write (emptied mb) b.entries mb found)

pub cache_of-nil : (n : Node) → cache_of n [] ≡ []
unfolding cache_of find_entry
cache_of-nil n = refl

cache_of-absent :
    (n : Node) (entries : List Entry) → find_entry n entries ≡ none → cache_of n entries ≡ []
unfolding cache_of
cache_of-absent n entries e = rw (e, cache_of)

new_entry-node : (node : Node) → (new_entry node).node ≡ node
unfolding new_entry
new_entry-node node = refl

find_new :
    (b : Bundler) (node : Node)
    → find_entry (new_entry node).node (add_entry b node).entries ≡ some (new_entry node)
unfolding add_entry find_entry new_entry
find_new b node = ground (arith, node_eq_iff node node)

module _ (b : Bundler) (msg : Message) (node : Node) (secondary : List ℕ) where
  sent_to-off :
      (n : Node)
      → b.enabled ≡ false
      → sent_to n b.enabled b.num_children msg node secondary
        ≡ (if node_eq node n then joined msg secondary ∷ [] else [])
  unfolding sent_to
  sent_to-off n e = ground arith

  sent_to-leaf :
      (n : Node)
      → b.enabled ≡ true
      → (b.num_children == 0 && node_eq node broadcast) ≡ true
      → sent_to n b.enabled b.num_children msg node secondary ≡ []
  unfolding sent_to
  sent_to-leaf n e f = ground arith

  sent_to-on :
      (n : Node)
      → IsOn b msg node secondary
      → sent_to n b.enabled b.num_children msg node secondary
        ≡ (if node_eq node n then joined msg secondary ∷ [] else [])
  unfolding sent_to
  sent_to-on n e = ground arith

  module _ (n : Node) (sent : List Message) where
    abbrev pub Sent : Type 0
    Sent =
        Tracks (spindle_send b msg node secondary) n
          (sent ++ sent_to n b.enabled b.num_children msg node secondary)

    pub send-Tracks : IsWell b → IsSendable msg secondary → Tracks b n sent → Sent
    send-Tracks w s t = go (send_case b msg node secondary)
      where
        go : SendCase b msg node secondary → Sent
        go (off e q) =
            rw (q, sent_to-off n e)
              (pass_through-Tracks b msg secondary node n sent s
                (ap (λ l. cache_of node l) (w.unused e) ∙ cache_of-nil node) t)
        go (leaf e l q) = rw (q, sent_to-leaf n e l, append-nil sent) t
        go (big_new e f q) =
            rw (q, sent_to-on n e)
              (pass_through-Tracks b msg secondary node n sent s (cache_of-absent node b.entries f)
                t)
        go (big_old e mb f q) =
            let p : mb.node ≡ node = find_entry-node node b.entries f in
            let found : find_entry mb.node b.entries ≡ some mb =
              ap (λ k. find_entry k b.entries) p ∙ f in
            rw (q, sent_to-on n e)
              (pass_through-Tracks (flush_entry b mb) msg secondary node n sent s
                (ap (λ k. cache_of k (flush_entry b mb).entries) (sym p)
                  ∙ flush_entry-empty b mb found)
                (flush_entry-Tracks b mb n sent found t))
        go (small_new e g f q) =
            rw (q, sent_to-on n e)
              (subst
                (λ k.
                  Tracks (append_message (add_entry b node) (new_entry node) msg secondary) n
                    (sent ++ (if node_eq k n then joined msg secondary ∷ [] else [])))
                (new_entry-node node)
                (append_message-Tracks (add_entry b node) (new_entry node) msg secondary n sent
                  (find_new b node) s (add_entry-Tracks b node n sent f t)))
        go (small_old e g mb f q) =
            let p : mb.node ≡ node = find_entry-node node b.entries f in
            rw (q, sent_to-on n e)
              (subst
                (λ k.
                  Tracks (append_message b mb msg secondary) n
                    (sent ++ (if node_eq k n then joined msg secondary ∷ [] else [])))
                p
                (append_message-Tracks b mb msg secondary n sent
                  (ap (λ k. find_entry k b.entries) p ∙ f) s t))

append-config :
    (b : Bundler) (mb : Entry) (msg : Message) (secondary : List ℕ)
    → ((append_message b mb msg secondary).enabled ≡ b.enabled)
      × ((append_message b mb msg secondary).num_children ≡ b.num_children)
      × ((append_message b mb msg secondary).cache_size_kb ≡ b.cache_size_kb)
unfolding append_message
append-config b mb msg sec = ground arith

-- A send changes nothing of the configuration.
pub send-config :
    (b : Bundler) (msg : Message) (node : Node) (secondary : List ℕ)
    → ((spindle_send b msg node secondary).enabled ≡ b.enabled)
      × ((spindle_send b msg node secondary).num_children ≡ b.num_children)
      × ((spindle_send b msg node secondary).cache_size_kb ≡ b.cache_size_kb)
unfolding pass_through flush_entry add_entry
send-config b msg node sec = go (send_case b msg node sec)
  where
    go :
        SendCase b msg node sec
        → ((spindle_send b msg node sec).enabled ≡ b.enabled)
          × ((spindle_send b msg node sec).num_children ≡ b.num_children)
          × ((spindle_send b msg node sec).cache_size_kb ≡ b.cache_size_kb)
    go (off e q) = rw q (refl, refl, refl)
    go (leaf e l q) = rw q (refl, refl, refl)
    go (big_new e f q) = rw q (refl, refl, refl)
    go (big_old e mb f q) = rw q (refl, refl, refl)
    go (small_new e g f q) = rw q (append-config (add_entry b node) (new_entry node) msg sec)
    go (small_old e g mb f q) = rw q (append-config b mb msg sec)

append-IsDistinct :
    (b : Bundler) (mb : Entry) (msg : Message) (secondary : List ℕ)
    → IsDistinct b.entries
    → IsDistinct (append_message b mb msg secondary).entries
unfolding append_message
append-IsDistinct b mb msg sec d =
    elim (Bool-cases (leb (capacity b) (sizeof_header + msg.header.len + length mb.cache))) [
      | inl full ↦
          rw (full, append_message)
            (write-IsDistinct _ (flush_entry b mb).entries
              (write-IsDistinct (emptied mb) b.entries d))
      | inr room ↦ rw (room, append_message) (write-IsDistinct _ b.entries d)
    ]

-- A send keeps the buffers distinct, and unused where bundling is off.
pub send-IsWell :
    (b : Bundler) (msg : Message) (node : Node) (secondary : List ℕ)
    → IsWell b
    → IsWell (spindle_send b msg node secondary)
unfolding pass_through flush_entry add_entry new_entry
send-IsWell b msg node sec w = go (send_case b msg node sec)
  where
    on_well :
        (b' : Bundler)
        → b.enabled ≡ true
        → b'.enabled ≡ b.enabled
        → IsDistinct b'.entries
        → IsWell b'
    on_well b' e c d = record { distinct = d; unused = λ h. cc }

    go : SendCase b msg node sec → IsWell (spindle_send b msg node sec)
    go (off e q) = rw q (record { distinct = w.distinct; unused = w.unused })
    go (leaf e l q) = rw q w
    go (big_new e f q) = rw q (record { distinct = w.distinct; unused = w.unused })
    go (big_old e mb f q) =
        rw q (on_well _ e.0 refl (write-IsDistinct (emptied mb) b.entries w.distinct))
    go (small_new e g f q) = rw q (
        on_well _ e.0 (append-config (add_entry b node) (new_entry node) msg sec).0
          (append-IsDistinct (add_entry b node) (new_entry node) msg sec (f, w.distinct)))
    go (small_old e g mb f q) =
        rw q
          (on_well _ e.0 (append-config b mb msg sec).0 (append-IsDistinct b mb msg sec w.distinct))
