-- ===== src/Msgbundle/Tracks.antt =====
-- Each step of a send keeps account: what was sent to a destination is what it received and what
-- its buffer holds.
use spindle.Prelude.{
  ℕ, ◌+◌, ◌-◌, ◌≤◌, List, [], ◌∷◌, ◌++◌, none, some, leb, ◌≡◌, ◌≢◌, sym, ap, ◌∙◌, if◌then◌else◌,
  length, length-append, take, length-take, append_assoc, append-nil, All, All-append, arith,
  Bool-cases, inl, inr,
}
use spindle.Wire.{Message, Fits, ldcs_msg_bundle, sizeof_header, header_bytes}
use spindle.Msgbundle.{
  Node, node_eq, Entry, Bundler, capacity, flush_msgbuffer, emptied, find_entry, message_bytes,
  flush_entry, put_message, append_message, new_entry, add_entry, joined, pass_through,
}
use spindle.Msgbundle.Receive.{IsWhole, encode, encode-append}
use spindle.Msgbundle.Order.{
  encode-eq-nil, node_eq_iff, contents, received, cache_of, received-append, flush_received,
  flush_other, cache_of-write, find_entry-write,
}

-- What has been sent to a destination is what it received and what its buffer holds.
pub record Tracks (b : Bundler) (n : Node) (sent : List Message) : Type 0 where
  pub waiting : List Message
  pub held : cache_of n b.entries ≡ encode waiting
  pub whole : All IsWhole waiting
  pub total : received n b.log ++ waiting ≡ sent

-- The message of a caller: a header that fits, not a bundle, and all of its data at hand.
pub record IsSendable (msg : Message) (secondary : List ℕ) : Type 0 where
  pub fits : Fits msg.header
  pub no_bundle : msg.header.msg_type ≢ ldcs_msg_bundle
  pub second_part : length secondary ≤ msg.header.len
  pub first_part : msg.header.len ≤ length msg.body + length secondary

joined-IsWhole :
    (msg : Message) (secondary : List ℕ) → IsSendable msg secondary → IsWhole (joined msg secondary)
unfolding joined
joined-IsWhole msg sec s = record {
  fits = s.fits;
  sized = omega (
    arith,
    length-append (take (msg.header.len - length sec) msg.body) sec,
    length-take (msg.header.len - length sec) msg.body,
    s.second_part,
    s.first_part,
  );
}

message_bytes-encode :
    (msg : Message) (secondary : List ℕ)
    → message_bytes msg secondary ≡ encode (joined msg secondary ∷ [])
unfolding message_bytes encode joined
message_bytes-encode msg sec =
    ap (λ l. header_bytes msg.header ++ l)
      (sym (append-nil (take (msg.header.len - length sec) msg.body ++ sec)))

pub cache_of-found :
    (n : Node) (mb : Entry) (entries : List Entry)
    → find_entry n entries ≡ some mb
    → cache_of n entries ≡ mb.cache
unfolding cache_of
cache_of-found n mb entries e = rw (e, cache_of)

pub flush_entry-Tracks :
    (b : Bundler) (mb : Entry) (n : Node) (sent : List Message)
    → find_entry mb.node b.entries ≡ some mb
    → Tracks b n sent
    → Tracks (flush_entry b mb) n sent
unfolding flush_entry emptied encode
flush_entry-Tracks b mb n sent found t = elim (Bool-cases (node_eq mb.node n)) [
  | inl q ↦
      let same : mb.cache ≡ encode t.waiting =
        sym (cache_of-found mb.node mb b.entries found)
        ∙ ap (λ k. cache_of k b.entries) ((node_eq_iff mb.node n).0 q)
        ∙ t.held in
      record {
        waiting = [];
        held = cache_of-write n (emptied mb) b.entries mb found ∙ rw q;
        whole = tt;
        total =
            append-nil _
            ∙ received-append n b.log (flush_msgbuffer mb)
            ∙ rw (flush_received mb.node n mb.cache t.waiting same t.whole, q) t.total;
      }
  | inr q ↦ record {
    waiting = t.waiting;
    held = cache_of-write n (emptied mb) b.entries mb found ∙ rw q t.held;
    whole = t.whole;
    total =
        rw
          (
            received-append n b.log (flush_msgbuffer mb),
            flush_other n mb q,
            append-nil (received n b.log),
          )
          t.total;
  }
]

put_message-Tracks :
    (b : Bundler) (mb : Entry) (msg : Message) (secondary : List ℕ) (n : Node) (sent : List Message)
    → find_entry mb.node b.entries ≡ some mb
    → IsSendable msg secondary
    → Tracks b n sent
    → Tracks
        (put_message b mb msg secondary)
        n
        (sent ++ (if node_eq mb.node n then joined msg secondary ∷ [] else []))
unfolding put_message
put_message-Tracks b mb msg sec n sent found s t =
    let new : Entry = record mb { cache = mb.cache ++ message_bytes msg sec } in
    elim (Bool-cases (node_eq mb.node n)) [
      | inl q ↦
          let same : mb.cache ≡ encode t.waiting =
            sym (cache_of-found mb.node mb b.entries found)
            ∙ ap (λ k. cache_of k b.entries) ((node_eq_iff mb.node n).0 q)
            ∙ t.held in
          rw q (record {
            waiting = t.waiting ++ (joined msg sec ∷ []);
            held =
                cache_of-write n new b.entries mb found
                ∙ rw (q, same, message_bytes-encode msg sec)
                    (sym (encode-append t.waiting (joined msg sec ∷ [])));
            whole = All-append IsWhole t.waiting _ t.whole (joined-IsWhole msg sec s, tt);
            total =
                sym (append_assoc (received n b.log) t.waiting (joined msg sec ∷ []))
                ∙ ap (λ l. l ++ (joined msg sec ∷ [])) t.total;
          })
      | inr q ↦
          rw (q, append-nil sent)
            (record {
              waiting = t.waiting;
              held = cache_of-write n new b.entries mb found ∙ rw q t.held;
              whole = t.whole;
              total = t.total;
            })
    ]

pub append_message-Tracks :
    (b : Bundler) (mb : Entry) (msg : Message) (secondary : List ℕ) (n : Node) (sent : List Message)
    → find_entry mb.node b.entries ≡ some mb
    → IsSendable msg secondary
    → Tracks b n sent
    → Tracks
        (append_message b mb msg secondary)
        n
        (sent ++ (if node_eq mb.node n then joined msg secondary ∷ [] else []))
unfolding append_message
append_message-Tracks b mb msg sec n sent found s t =
    elim (Bool-cases (leb (capacity b) (sizeof_header + msg.header.len + length mb.cache))) [
      | inl full ↦
          rw (full, append_message)
            (put_message-Tracks (flush_entry b mb) (emptied mb) msg sec n sent
              (find_entry-write (emptied mb) b.entries mb found) s
              (flush_entry-Tracks b mb n sent found t))
      | inr room ↦ rw (room, append_message) (put_message-Tracks b mb msg sec n sent found s t)
    ]

cache_of-new :
    (node n : Node) (entries : List Entry)
    → find_entry node entries ≡ none
    → cache_of n (new_entry node ∷ entries) ≡ cache_of n entries
unfolding cache_of find_entry new_entry
cache_of-new node n entries absent = ground (arith, node_eq_iff node n)

pub add_entry-Tracks :
    (b : Bundler) (node n : Node) (sent : List Message)
    → find_entry node b.entries ≡ none
    → Tracks b n sent
    → Tracks (add_entry b node) n sent
unfolding add_entry
add_entry-Tracks b node n sent absent t = record {
  waiting = t.waiting;
  held = cache_of-new node n b.entries absent ∙ t.held;
  whole = t.whole;
  total = t.total;
}

received-one :
    (n node : Node) (m : Message)
    → m.header.msg_type ≢ ldcs_msg_bundle
    → received n ((node, m) ∷ []) ≡ (if node_eq node n then m ∷ [] else [])
unfolding received contents
received-one n node m h = ground arith

pub pass_through-Tracks :
    (b : Bundler) (msg : Message) (secondary : List ℕ) (node n : Node) (sent : List Message)
    → IsSendable msg secondary
    → cache_of node b.entries ≡ []
    → Tracks b n sent
    → Tracks
        (pass_through b (joined msg secondary) node)
        n
        (sent ++ (if node_eq node n then joined msg secondary ∷ [] else []))
unfolding pass_through joined
pass_through-Tracks b msg sec node n sent s empty t = elim (Bool-cases (node_eq node n)) [
  | inl q ↦
      let none_wait : t.waiting ≡ [] =
        encode-eq-nil t.waiting
          (sym t.held ∙ ap (λ k. cache_of k b.entries) (sym ((node_eq_iff node n).0 q)) ∙ empty) in
      rw q (record {
        waiting = [];
        held = t.held ∙ ap encode none_wait;
        whole = tt;
        total =
            append-nil _
            ∙ received-append n b.log ((node, joined msg sec) ∷ [])
            ∙ rw (received-one n node (joined msg sec) s.no_bundle, q)
                (ap (λ l. l ++ (joined msg sec ∷ []))
                  (sym (append-nil (received n b.log))
                    ∙ ap (λ l. received n b.log ++ l) (sym none_wait)
                    ∙ t.total));
      })
  | inr q ↦
      rw (q, append-nil sent)
        (record {
          waiting = t.waiting;
          held = t.held;
          whole = t.whole;
          total =
              rw
                (
                  received-append n b.log ((node, joined msg sec) ∷ []),
                  received-one n node (joined msg sec) s.no_bundle,
                  q,
                  append-nil (received n b.log),
                )
                t.total;
        })
]
