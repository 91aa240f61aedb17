-- ===== src/Relay/Queries.antt =====
-- How often a server asks its parent for a file or a directory.
use spindle.Prelude.{
  ℕ, ◌+◌, ◌≤◌, List, [], ◌∷◌, ◌++◌, Bool, true, false, not, ◌&&◌, ◌||◌, ◌==◌, ◌≡◌, refl, ap,
  CString, str_eq, str_eq_iff, arith, if◌then◌else◌, Bool-cases, inl, inr,
}
use spindle.Wire.{Message}
use spindle.Requestors.{Peer, RequestorList, add_requestor, been_requested}
use spindle.Requestors.Reads.{been_requested-add, been_requested-add_ne}
use spindle.Relay.{
  Relay, node_peer_client, Network, Sent, to_peer, to_children, to_parent, request_file,
  request_directory, client_request_file, handle_send_query, handle_send_file_query,
  handle_send_directory_query, forward_query, request_message, was_requested, letter_of, letter_dir,
  ldcs_msg_file_request, broadcast_sent, send_to_nodes,
}
use spindle.Relay.Once.{RelayCall, call_send, call_client_file, call_exist_test}

unfoldable pub starts_with_letter : ℕ → List ℕ → Bool
starts_with_letter letter [] = false
starts_with_letter letter (b ∷ bs) = b == letter

-- A query for a path to the parent; the letter is 'D', 'S' or 'F'.
unfoldable pub is_query : ℕ → CString → Sent → Bool
unfolding starts_with_letter
is_query letter path (to_children key msg) = false
is_query letter path (to_peer key node msg) = false
is_query letter path (to_parent key msg) =
    msg.header.msg_type == ldcs_msg_file_request
    && (str_eq key path && starts_with_letter letter msg.body)

unfoldable pub count_queries : ℕ → CString → List Sent → ℕ
unfolding is_query
count_queries letter path [] = 0
count_queries letter path (s ∷ sent) =
    (if is_query letter path s then 1 else 0) + count_queries letter path sent

-- The letter and the table of a directory, of a dso and of a plain file.
unfoldable pub letter_for : Bool → Bool → ℕ
letter_for is_dir is_dso = if is_dir then letter_dir else letter_of is_dso

unfoldable pub table_for : Bool → Bool → Relay → RequestorList
table_for is_dir is_dso r = if not is_dir && is_dso then r.dso_requests else r.file_requests

unfoldable pub due : Bool → Bool → CString → Relay → ℕ
unfolding table_for
due is_dir is_dso path r = if been_requested (table_for is_dir is_dso r) path then 1 else 0

pub count-append :
    (letter : ℕ) (path : CString) (xs ys : List Sent)
    → count_queries letter path (xs ++ ys)
      ≡ count_queries letter path xs + count_queries letter path ys
unfolding count_queries
count-append letter path [] ys = omega arith
count-append letter path (x ∷ xs) ys = omega (arith, count-append letter path xs ys)

pub count-loop :
    (letter : ℕ) (path : CString) (net : Network) (msg : Message) (key : CString)
    (is_sent : RequestorList → Peer → Bool) (nodes : List Peer) (c : RequestorList)
    → count_queries letter path (send_to_nodes net msg key is_sent nodes c).loop_sent ≡ 0
unfolding count_queries send_to_nodes
count-loop letter path net msg key is_sent [] c = refl
count-loop letter path net msg key is_sent (node ∷ nodes) c =
    let same = count-loop letter path net msg key is_sent nodes c in
    let more = count-loop letter path net msg key is_sent nodes (add_requestor c key node) in
    ground arith

pub count-broadcast :
    (letter : ℕ) (path : CString) (net : Network) (key : CString) (msg : Message)
    → count_queries letter path (broadcast_sent net key msg) ≡ 0
unfolding count_queries broadcast_sent
count-broadcast letter path net key msg = ground arith

-- A query counts under its own letter and path.
count-forward :
    (letter kind : ℕ) (path key : CString) (net : Network) (r : Relay)
    → count_queries letter path (forward_query net key (request_message kind key) r).sent
      ≤ count_queries letter path r.sent + (if str_eq key path && kind == letter then 1 else 0)
unfolding count_queries forward_query request_message is_query starts_with_letter
count-forward letter kind path key net r =
    ground (arith, count-append letter path r.sent (to_parent key (request_message kind key) ∷ []))

-- The results passed on for a path.
unfoldable pub delivered : CString → RelayCall → ℕ
delivered path (call_send msg key force is_dso) = if str_eq key path then 1 else 0
delivered path _ = 0

unfoldable pub deliveries : CString → List (Network × RelayCall) → ℕ
unfolding delivered
deliveries path [] = 0
deliveries path ((net, c) ∷ calls) = delivered path c + deliveries path calls

-- Neither a client's request for a plain file nor an existence test that asks for a directory: who
-- asks is noted where the next query looks.
unfoldable pub is_noted : RelayCall → Bool
is_noted (call_client_file path is_dso) = is_dso
is_noted (call_exist_test dir) = false
is_noted _ = true

been_requested-add_iff :
    (t : RequestorList) (file path : CString) (p : Peer)
    → been_requested (add_requestor t file p) path ≡ (str_eq file path || been_requested t path)
been_requested-add_iff t file path p = elim (Bool-cases (str_eq file path)) [
  | inl e ↦
      let same : file ≡ path = (str_eq_iff file path).0 e in
      rw (e, ← same) (been_requested-add t file p)
  | inr e ↦ rw e (been_requested-add_ne t file path p (λ f. ground (arith, str_eq_iff file path)))
]

-- What a query and the note of who asked do together.
send_query-count :
    (letter : ℕ) (path key : CString) (is_dir is_dso : Bool) (net : Network) (r : Relay)
    → count_queries letter path (handle_send_query net key is_dir is_dso r).sent
      ≤ count_queries letter path r.sent
        + (if str_eq key path
              && letter_for is_dir is_dso == letter
              && not (was_requested r key is_dir is_dso)
            then 1
            else 0)
unfolding handle_send_query handle_send_file_query handle_send_directory_query letter_for
send_query-count letter path key is_dir is_dso net r = ground (
  arith,
  count-forward letter letter_dir path key net r,
  count-forward letter (letter_of is_dso) path key net r,
)

-- A query leaves all but the log.
pub send_query-tables :
    (key : CString) (is_dir is_dso : Bool) (net : Network) (r : Relay)
    → ((handle_send_query net key is_dir is_dso r).dso_requests ≡ r.dso_requests)
      × ((handle_send_query net key is_dir is_dso r).file_requests ≡ r.file_requests)
unfolding handle_send_query handle_send_file_query handle_send_directory_query forward_query
send_query-tables key is_dir is_dso net r = ground arith

-- The sums before and after a call.
abbrev pub IsPaid : Bool → Bool → CString → ℕ → Relay → Relay → Type 0
IsPaid is_dir is_dso path paid r s =
    count_queries (letter_for is_dir is_dso) path s.sent + due is_dir is_dso path r
    ≤ count_queries (letter_for is_dir is_dso) path r.sent + paid + due is_dir is_dso path s

-- A query of the same letter was sent before if its table has the path.
was_requested-table :
    (is_dir is_dso key_dir d : Bool) (path : CString) (r : Relay)
    → letter_for key_dir d == letter_for is_dir is_dso ≡ true
    → been_requested (table_for is_dir is_dso r) path ≡ true
    → was_requested r path key_dir d ≡ true
unfolding letter_for letter_of was_requested table_for
was_requested-table is_dir is_dso key_dir d path r e h = ground arith

-- A request that sends a query notes who asked, in the table where the query is looked for.
request-IsPaid :
    (is_dir is_dso : Bool) (path key : CString) (key_dir d : Bool) (net : Network) (r s : Relay)
    → s.sent ≡ (handle_send_query net key key_dir d r).sent
    → (been_requested (table_for is_dir is_dso r) path ≡ true
        → been_requested (table_for is_dir is_dso s) path ≡ true)
    → (str_eq key path ≡ true
        → letter_for key_dir d == letter_for is_dir is_dso ≡ true
        → been_requested (table_for is_dir is_dso s) path ≡ true)
    → IsPaid is_dir is_dso path 0 r s
unfolding due
request-IsPaid is_dir is_dso path key key_dir d net r s sent grows noted =
    let n = send_query-count (letter_for is_dir is_dso) path key key_dir d net r in
    elim (Bool-cases (str_eq key path)) [
      | inr other ↦ rw sent (ground arith)
      | inl e ↦
          let same : key ≡ path = (str_eq_iff key path).0 e in
          let was = was_requested-table is_dir is_dso key_dir d path r in
          let was_key : was_requested r key key_dir d ≡ was_requested r path key_dir d =
            ap (λ k. was_requested r k key_dir d) same in
          rw sent (ground arith)
    ]

pub request_file-IsPaid :
    (is_dir is_dso : Bool) (path key : CString) (d : Bool) (from : Peer) (net : Network) (r : Relay)
    → IsPaid is_dir is_dso path 0 r (request_file net key d from r)
unfolding request_file table_for letter_for letter_of
request_file-IsPaid is_dir is_dso path key d from net r =
    let t = send_query-tables key false d net r in
    let dso = been_requested-add_iff r.dso_requests key path from in
    let file = been_requested-add_iff r.file_requests key path from in
    request-IsPaid is_dir is_dso path key false d net r _ (ground arith) (λ h. ground arith)
      (λ e l. ground arith)

pub request_directory-IsPaid :
    (is_dir is_dso : Bool) (path key : CString) (from : Peer) (net : Network) (r : Relay)
    → IsPaid is_dir is_dso path 0 r (request_directory net key from r)
unfolding request_directory table_for letter_for letter_of
request_directory-IsPaid is_dir is_dso path key from net r =
    let t = send_query-tables key true false net r in
    let file = been_requested-add_iff r.file_requests key path from in
    request-IsPaid is_dir is_dso path key true false net r _ (ground arith) (λ h. ground arith)
      (λ e l. ground arith)

pub client_request-IsPaid :
    (is_dir is_dso : Bool) (path key : CString) (net : Network) (r : Relay)
    → IsPaid is_dir is_dso path 0 r (client_request_file net key true r)
unfolding client_request_file table_for letter_for letter_of
client_request-IsPaid is_dir is_dso path key net r =
    let t = send_query-tables key false true net r in
    let dso = been_requested-add_iff r.dso_requests key path node_peer_client in
    request-IsPaid is_dir is_dso path key false true net r _ (ground arith) (λ h. ground arith)
      (λ e l. ground arith)
