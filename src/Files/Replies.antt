-- ===== src/Files/Replies.antt =====
-- What a request for a directory from another server leads to, in pull mode.
use spindle.Prelude.{
  ℕ, ◌+◌, List, [], ◌∷◌, ◌++◌, true, false, not, ◌&&◌, ◌||◌, ◌==◌, if◌then◌else◌, some, CString,
  str_eq_refl, contains, ◌≡◌, ◌∙◌, refl, sym, ap, arith, Bool-cases, Option-cases, inl, inr,
}
use spindle.Requestors.{
  Peer, add_requestor, been_requested, peer_requested, get_requestors2, requestors_of,
}
use spindle.Requestors.Laws.{IsValid, add_requestor-IsValid, get_requestors-add_self}
use spindle.Requestors.Union.{get_requestors2-union}
use spindle.Requestors.Reads.{peer_requested_lem, peer_requested-add}
use spindle.Cache.{
  Cache, CacheEntry, Listing, find_dir_in_cache, CacheResult, dir_parsed_and_exists,
  dir_parsed_and_not_exists, dir_not_parsed, file_found, file_not_found, encode_dir_contents,
  string_bytes, names_bytes,
}
use spindle.Cache.Strings.{IsPath}
use spindle.Cache.Packet.{encode_lem}
use spindle.Relay.{
  Relay, Network, ldcs_pull, node_peer_all, waiting_nodes, been_broadcast, handle_send_msg_to_keys,
  request_directory, letter_dir, handle_send_query, handle_send_directory_query, was_requested,
  forward_query, request_message, to_parent,
}
use spindle.Relay.Loop.{answers}
use spindle.Relay.Pull.{send_msg_to_waiting}
use spindle.Relay.Queries.{
  count_queries, count-append, is_query, starts_with_letter, send_query-tables,
}
use spindle.Files.{FileServer, handle_howto_directory, is_parsed}
use spindle.Files.Directories.{
  handle_read_directory, handle_broadcast_dir, handle_read_and_broadcast_dir,
  handle_request_directory, note_file_request, send_to_keys, message_of, ldcs_msg_cache_entries,
}
use spindle.Files.Settled.{read_directory_parsed, find_dir_states}

-- Who waits for a directory once a server was noted.
waiting_noted :
    (r : Relay) (dir : CString) (from : Peer)
    → from == node_peer_all ≡ false
    → peer_requested r.dso_requests dir node_peer_all ≡ false
    → peer_requested r.file_requests dir node_peer_all ≡ false
    → (nodes : List Peer) × (waiting_nodes
          (record r { file_requests = add_requestor r.file_requests dir from })
          false
          dir
        ≡ some nodes)
      × (contains from nodes ≡ true)
      × (contains node_peer_all nodes ≡ false)
unfolding waiting_nodes requestors_of
waiting_noted r dir from child dso_free file_free =
    let files = add_requestor r.file_requests dir from in
    let there = get_requestors-add_self r.file_requests dir from in
    let is_from = get_requestors2-union r.dso_requests files dir from in
    let is_all = get_requestors2-union r.dso_requests files dir node_peer_all in
    elim (Option-cases (get_requestors2 r.dso_requests files dir)) [
      | inl nobody ↦ absurd (let (dso, file) = is_from.2.0 nobody in cc)
      | inr (nodes, some_nodes) ↦ (
        nodes,
        some_nodes,
        ap (λ o. contains from (requestors_of o)) (sym some_nodes)
            ∙ is_from.0
            ∙ ground (
              arith,
              peer_requested_lem files dir from,
              peer_requested-add r.file_requests dir from from,
            ),
        ap (λ o. contains node_peer_all (requestors_of o)) (sym some_nodes)
            ∙ is_all.0
            ∙ ground (
              arith,
              peer_requested_lem r.dso_requests dir node_peer_all,
              peer_requested_lem files dir node_peer_all,
              peer_requested-add r.file_requests dir from node_peer_all,
            ),
      )
    ]

-- A directory in the cache can be sent.
parsed_entry :
    (c : Cache) (dir : CString)
    → is_parsed (find_dir_in_cache c dir) ≡ true
    → (e : CacheEntry) × (c dir [] ≡ some e)
unfolding find_dir_in_cache is_parsed
parsed_entry c dir h = elim (Option-cases (c dir [])) [
  | inl absent ↦ absurd (ground arith)
  | inr there ↦ there
]

-- What a server is and has when a request for a directory comes.
pub record IsAsked (net : Network) (from : Peer) (dir : CString) (s : FileServer) : Type 0 where
  pub pulls : s.relay.dist_model ≡ ldcs_pull
  pub works : (node : Peer) → net.sends node ≡ true
  pub not_all : from == node_peer_all ≡ false
  pub dso_free : peer_requested s.relay.dso_requests dir node_peer_all ≡ false
  pub file_free : peer_requested s.relay.file_requests dir node_peer_all ≡ false
  pub dso_valid : IsValid s.relay.dso_requests
  pub file_valid : IsValid s.relay.file_requests
  pub fresh : been_broadcast s.relay false dir ≡ false
  pub is_path : IsPath dir

-- What is sent of a directory in the cache, to all that wait for it once the asker was noted.
pub IsAnswered : Network → Peer → CString → FileServer → FileServer → Type 0
IsAnswered net from dir s t =
    (packet : List ℕ) × (nodes : List Peer) × (encode_dir_contents t.cache dir ≡ some (some packet))
    × (waiting_nodes
          (record s.relay { file_requests = add_requestor s.relay.file_requests dir from }) false
          dir
        ≡ some nodes)
    × (t.relay.sent ≡ s.relay.sent ++ answers (message_of ldcs_msg_cache_entries packet) dir nodes)
    × (contains from nodes ≡ true)
    × (been_requested t.relay.file_requests dir ≡ false)

broadcast_answers :
    (net : Network) (from : Peer) (dir : CString) (s : FileServer) (c : Cache)
    → IsAsked net from dir s
    → is_parsed (find_dir_in_cache c dir) ≡ true
    → (t : FileServer) × (handle_broadcast_dir net dir false
          (record (note_file_request dir from s) { cache = c })
        ≡ some (t, true))
      × (t.cache ≡ c)
      × IsAnswered net from dir s t
unfolding IsAnswered handle_broadcast_dir send_to_keys note_file_request been_broadcast
broadcast_answers net from dir s c asked parsed =
    let (e, there) = parsed_entry c dir parsed in
    let packet = string_bytes dir ++ names_bytes e.direntries in
    let encoded = encode_lem c dir e there asked.is_path in
    let msg = message_of ldcs_msg_cache_entries packet in
    let noted = (note_file_request dir from s).relay in
    let (nodes, waiting, is_from, no_all) =
      waiting_noted s.relay dir from asked.not_all asked.dso_free asked.file_free in
    let sent =
      send_msg_to_waiting net msg dir false noted nodes asked.pulls asked.fresh waiting no_all
        asked.works asked.dso_valid
        (add_requestor-IsValid s.relay.file_requests dir from asked.file_valid) in
    let res = handle_send_msg_to_keys net msg dir false false noted in
    let t = record s { cache = c; relay = res.0 } in
    (
      t,
      rw (handle_broadcast_dir, encoded) (λ i. some (t, sent.1 i)),
      refl,
      (packet, nodes, encoded, waiting, sent.0, is_from, sent.3),
    )

-- The branches of the request, by what the cache says.
request_known :
    (ls : Listing) (net : Network) (from : Peer) (dir : CString) (s t : FileServer)
    (found : CacheResult)
    → find_dir_in_cache s.cache dir ≡ found
    → is_parsed found ≡ true
    → handle_broadcast_dir net dir false (note_file_request dir from s) ≡ some (t, true)
    → handle_request_directory ls net from dir s ≡ some (t, true)
unfolding handle_request_directory handle_howto_directory is_parsed
request_known ls net from dir s t dir_parsed_and_exists e parsed done =
    rw (handle_request_directory, handle_howto_directory, e, done) refl
request_known ls net from dir s t dir_parsed_and_not_exists e parsed done =
    rw (handle_request_directory, handle_howto_directory, e, done) refl
request_known ls net from dir s t dir_not_parsed e parsed done = cc
request_known ls net from dir s t file_found e parsed done = cc
request_known ls net from dir s t file_not_found e parsed done = cc

request_read :
    (ls : Listing) (net : Network) (from : Peer) (dir : CString) (s t : FileServer) (c : Cache)
    → find_dir_in_cache s.cache dir ≡ dir_not_parsed
    → s.responsible ≡ true
    → handle_read_directory ls dir (note_file_request dir from s)
      ≡ some (record (note_file_request dir from s) { cache = c }, true)
    → handle_broadcast_dir net dir false (record (note_file_request dir from s) { cache = c })
      ≡ some (t, true)
    → handle_request_directory ls net from dir s ≡ some (t, true)
unfolding handle_request_directory handle_howto_directory handle_read_and_broadcast_dir
request_read ls net from dir s t c fresh rank_0 read done =
    rw
      (
        handle_request_directory, handle_howto_directory, fresh, rank_0,
        handle_read_and_broadcast_dir, read, done,
      )
      refl

-- In pull mode, if the sends work, a server that has the directory in its cache, or that has rank
-- 0 and reads it now, answers the request of another server for it at once: the directory's packet
-- as its cache has it goes to all servers that wait for the directory, among them the one that
-- asks now, and nothing else is sent; then nobody waits for it. It was not yet broadcast, and
-- NODE_PEER_ALL does not wait.
pub handle_request_directory-IsAnswered :
    (ls : Listing) (net : Network) (from : Peer) (dir : CString) (s : FileServer)
    → IsAsked net from dir s
    → s.responsible || is_parsed (find_dir_in_cache s.cache dir) ≡ true
    → (t : FileServer) × (handle_request_directory ls net from dir s ≡ some (t, true))
      × IsAnswered net from dir s t
unfolding note_file_request
handle_request_directory-IsAnswered ls net from dir s asked able =
    elim (Bool-cases (is_parsed (find_dir_in_cache s.cache dir))) [
      | inl parsed ↦
          let (t, done, same, answered) = broadcast_answers net from dir s s.cache asked parsed in
          (t, request_known ls net from dir s t _ refl parsed done, answered)
      | inr unparsed ↦
          let fresh = find_dir_states s.cache dir unparsed in
          let (c, read, parsed) =
            read_directory_parsed ls dir (note_file_request dir from s) fresh in
          let (t, done, same, answered) = broadcast_answers net from dir s c asked parsed in
          (t, request_read ls net from dir s t c fresh (ground arith) read done, answered)
    ]

dir_query_count :
    (net : Network) (dir : CString) (r : Relay)
    → count_queries letter_dir dir (handle_send_query net dir true false r).sent
      ≡ count_queries letter_dir dir r.sent
        + (if net.forwards && not (been_requested r.file_requests dir) then 1 else 0)
unfolding handle_send_query handle_send_directory_query was_requested forward_query request_message
    count_queries is_query starts_with_letter
dir_query_count net dir r = ground (
  arith,
  str_eq_refl dir,
  count-append letter_dir dir r.sent (to_parent dir (request_message letter_dir dir) ∷ []),
)

-- Otherwise it notes the server that asks, and asks its parent, if the message can be sent, unless
-- it has asked for the directory before; the cache stays as it is.
pub request_directory_waits :
    (ls : Listing) (net : Network) (from : Peer) (dir : CString) (s : FileServer)
    → s.responsible || is_parsed (find_dir_in_cache s.cache dir) ≡ false
    → (t : FileServer) × (handle_request_directory ls net from dir s ≡ some (t, true))
      × (t.cache ≡ s.cache)
      × (peer_requested t.relay.file_requests dir from ≡ true)
      × (count_queries letter_dir dir t.relay.sent
          ≡ count_queries letter_dir dir s.relay.sent
            + (if net.forwards && not (been_requested s.relay.file_requests dir) then 1 else 0))
unfolding handle_request_directory handle_howto_directory request_directory
request_directory_waits ls net from dir s unable =
    let fresh = find_dir_states s.cache dir (ground arith) in
    let other : s.responsible ≡ false = ground arith in
    (
      record s { relay = request_directory net dir from s.relay },
      rw (handle_request_directory, handle_howto_directory, fresh, other)
          (λ i. some (
            record s { relay = request_directory net dir from s.relay; responsible = other i },
            true,
          )),
      refl,
      ground (
        arith,
        send_query-tables dir true false net s.relay,
        peer_requested-add s.relay.file_requests dir from from,
      ),
      dir_query_count net dir s.relay,
    )
