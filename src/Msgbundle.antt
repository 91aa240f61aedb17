-- ===== src/Msgbundle.antt =====
-- The bundling of messages between servers, src/server/auditserver/msgbundle.c: one buffer for each
-- destination, that is sent as one LDCS_MSG_BUNDLE when it is full or when the timer asks for it.
-- What the network layer is asked to send is appended to `log`; its results do not matter to the
-- bundler but for a message that passes through. `secondary` is the second part of a message's
-- data, as the noncontiguous sends have it; it is empty for the others.
pub mod Receive
pub mod Order
pub mod Branches
pub mod Tracks
pub mod Send
pub mod Delivery
pub mod Buffer
pub mod Timer
mod Tests
use spindle.Prelude.{
  ℕ, ◌+◌, ◌*◌, ◌-◌, List, [], ◌∷◌, ◌++◌, Option, none, some, Bool, true, false, not, ◌&&◌, ◌==◌,
  leb, if◌then◌else◌, length, take,
}
use spindle.Wire.{Header, Message, ldcs_msg_bundle, sizeof_header, header_bytes}

-- `node_peer_t`; `broadcast` and `parent` are the values BROADCAST and PARENT.
pub data Node : Type 0 where
  broadcast parent : Node
  peer : ℕ → Node

unfoldable pub node_eq : Node → Node → Bool
node_eq broadcast broadcast = true
node_eq parent parent = true
node_eq (peer a) (peer b) = a == b
node_eq _ _ = false

-- `msgbundle_entry_t`: `position` is the length of `cache`.
pub record Entry : Type 0 where
  pub node : Node
  pub cache : List ℕ

-- The fields of `ldcs_process_data_t` that the bundler reads and writes, `active_timeout`, and
-- what was handed to the network layer, first to last.
pub record Bundler : Type 0 where
  pub enabled : Bool
  pub cache_size_kb : ℕ
  pub num_children : ℕ
  pub entries : List Entry
  pub active_timeout : Bool
  pub log : List (Node × Message)

-- What `spindle_send_worker` returns: 0 or PASSTHROUGH.
pub data Status : Type 0 where
  ok passthrough : Status

abbrev pub capacity : Bundler → ℕ
capacity b = b.cache_size_kb * 1024

-- `flush_msgbuffer`: the messages that it sends, and the entry after.
unfoldable pub bundle_of : List ℕ → Message
bundle_of cache = record {
  header = record { msg_type = ldcs_msg_bundle; len = length cache };
  body = cache;
}

unfoldable pub flush_msgbuffer : Entry → List (Node × Message)
unfolding bundle_of
flush_msgbuffer mb = elim mb.cache [ [] ↦ [] | c ∷ cs ↦ (mb.node, bundle_of mb.cache) ∷ [] ]

unfoldable pub emptied : Entry → Entry
emptied mb = record mb { cache = [] }

-- The loop of `flush_msgbuffer_cb` over all entries.
unfoldable pub flush_each : List Entry → List (Node × Message)
unfolding flush_msgbuffer
flush_each [] = []
flush_each (mb ∷ next) = flush_msgbuffer mb ++ flush_each next

unfoldable pub empty_each : List Entry → List Entry
unfolding emptied
empty_each [] = []
empty_each (mb ∷ next) = emptied mb ∷ empty_each next

unfoldable pub flush_all : Bundler → Bundler
unfolding flush_each empty_each
flush_all b = record b { log = b.log ++ flush_each b.entries; entries = empty_each b.entries }

unfoldable pub msgbundle_force_flush : Bundler → Bundler
unfolding flush_all
msgbundle_force_flush b = if b.enabled then flush_all b else b

-- `for (mb = entries; mb && mb->node != node; mb = mb->next);`
unfoldable pub find_entry : Node → List Entry → Option Entry
unfolding node_eq
find_entry node [] = none
find_entry node (mb ∷ next) = if node_eq mb.node node then some mb else find_entry node next

-- A write through the entry that the search finds.
unfoldable pub write_entry : Entry → List Entry → List Entry
unfolding node_eq
write_entry new [] = []
write_entry new (mb ∷ next) =
    if node_eq mb.node new.node then new ∷ next else mb ∷ write_entry new next

-- The bytes that the three `memcpy` calls append.
unfoldable pub message_bytes : Message → List ℕ → List ℕ
message_bytes msg secondary =
    header_bytes msg.header ++ (take (msg.header.len - length secondary) msg.body ++ secondary)

-- `flush_msgbuffer` on an entry of the list.
unfoldable pub flush_entry : Bundler → Entry → Bundler
unfolding flush_msgbuffer write_entry emptied
flush_entry b mb = record b {
  log = b.log ++ flush_msgbuffer mb;
  entries = write_entry (emptied mb) b.entries;
}

-- The copy to the end of the buffer, and `start_cache_timeout`.
unfoldable pub put_message : Bundler → Entry → Message → List ℕ → Bundler
unfolding write_entry message_bytes
put_message b mb msg secondary = record b {
  entries = write_entry (record mb { cache = mb.cache ++ message_bytes msg secondary }) b.entries;
  active_timeout = true;
}

-- From the second test for space on: a buffer without room is flushed first.
unfoldable pub append_message : Bundler → Entry → Message → List ℕ → Bundler
unfolding flush_entry put_message
append_message b mb msg secondary =
    if leb (capacity b) (sizeof_header + msg.header.len + length mb.cache)
    then put_message (flush_entry b mb) (emptied mb) msg secondary
    else put_message b mb msg secondary

unfoldable pub new_entry : Node → Entry
new_entry node = record { node = node; cache = [] }

unfoldable pub add_entry : Bundler → Node → Bundler
unfolding new_entry
add_entry b node = record b { entries = new_entry node ∷ b.entries }

unfoldable pub send_worker : Bundler → Message → Node → List ℕ → Bundler × Status
send_worker b msg node secondary =
    if not b.enabled
    then (b, passthrough)
    else if b.num_children == 0 && node_eq node broadcast
    then (b, ok)
    else if leb (capacity b) (sizeof_header * 2 + msg.header.len)
    then (elim (find_entry node b.entries) [
      | none ↦ (b, passthrough)
      | some mb ↦ (flush_entry b mb, passthrough)
    ])
    else (elim (find_entry node b.entries) [
      | none ↦ (append_message (add_entry b node) (new_entry node) msg secondary, ok)
      | some mb ↦ (append_message b mb msg secondary, ok)
    ])

-- The two parts of a message as one.
unfoldable pub joined : Message → List ℕ → Message
joined msg secondary = record msg {
  body = take (msg.header.len - length secondary) msg.body ++ secondary;
}

-- `spindle_send`, `spindle_broadcast`, `spindle_forward_query` and their noncontiguous forms: the
-- destination tells them apart. A message that passes through goes to the network layer as it is,
-- its two parts one after the other.
unfoldable pub pass_through : Bundler → Message → Node → Bundler
pass_through b msg node = record b { log = b.log ++ ((node, msg) ∷ []) }

unfoldable pub spindle_send : Bundler → Message → Node → List ℕ → Bundler
unfolding pass_through joined
spindle_send b msg node secondary =
    let (b', status) = send_worker b msg node secondary in
    elim status [ ok ↦ b' | passthrough ↦ pass_through b' (joined msg secondary) node ]
