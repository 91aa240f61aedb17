-- ===== src/Relay/Tests.antt =====
-- A server with children 7 and 9 that ask for the file "/a".
use spindle.Prelude.{
  ◌+◌, ◌++◌, ◌≤◌, List, All, [], ◌∷◌, some, true, false, ◌||◌, ◌≡◌, refl, CString, str_eq, contains,
  if◌then◌else◌,
}
use spindle.Wire.{Message}
use spindle.Requestors.{
  RequestorList, new_requestor_list, add_requestor, been_requested, peer_requested, get_requestors,
  get_requestors2, hashval, ensure_requestor, change_in_chain, add_peer,
}
use spindle.Requestors.Laws.{IsValid, new-IsValid, add_requestor-IsValid}
use spindle.Requestors.Reads.{been_requested-new}
use spindle.Relay.{
  Relay, Sent, is_child, Network, new_relay, metadata_stat, ldcs_pull, node_peer_client, to_peer,
  handle_send_msg_to_keys, handle_send_metadata_to_keys, been_broadcast, waiting_nodes,
}
use spindle.Relay.Loop.{answers}
use spindle.Relay.Pull.{send_msg_to_waiting}
use spindle.Relay.Once.{
  RelayCall, call_send, call_request_file, call_client_file, relay_calls, broadcast_once,
}
use spindle.Relay.Queries.{count_queries, letter_for, table_for, deliveries, is_noted}
use spindle.Relay.Outstanding.{queries_outstanding}
use spindle.Relay.Repeats.{client_requests, client_requests-repeat}
use spindle.Relay.Answers.{IsSendOf, count_to, is_due, send_metadata_once}

abbrev all_works : Network
all_works = record { sends = λ p. true; broadcasts = true; forwards = true }

abbrev path_a : CString
path_a = 47 ∷ 97 ∷ []

abbrev data_a : Message
data_a = record { header = record { msg_type = 29; len = 1 }; body = 65 ∷ [] }

-- Child 7 asked for the dso, a client too, and child 9 for the plain file.
abbrev dsos : RequestorList
dsos = add_requestor (add_requestor new_requestor_list path_a 7) path_a node_peer_client

abbrev files : RequestorList
files = add_requestor new_requestor_list path_a 9

abbrev asked : Relay
asked = record (new_relay ldcs_pull) {
  dso_requests = dsos;
  file_requests = files;
  pending_metadata = λ md. dsos;
  pending_tls_requests = dsos;
}

dsos-IsValid : IsValid dsos
dsos-IsValid =
    let one = add_requestor-IsValid new_requestor_list path_a 7 new-IsValid in
    add_requestor-IsValid (add_requestor new_requestor_list path_a 7) path_a node_peer_client one

files-IsValid : IsValid files
files-IsValid = add_requestor-IsValid new_requestor_list path_a 9 new-IsValid

asked_waiting : waiting_nodes asked false path_a ≡ some (7 ∷ 1 ∷ 9 ∷ [])
unfolding waiting_nodes get_requestors2 get_requestors add_requestor ensure_requestor
    change_in_chain add_peer new_requestor_list hashval str_eq contains
asked_waiting = refl

asked_dsos : get_requestors dsos path_a ≡ some (7 ∷ 1 ∷ [])
unfolding get_requestors add_requestor ensure_requestor change_in_chain add_peer new_requestor_list
    hashval str_eq contains
asked_dsos = refl

asked_new : been_broadcast asked false path_a ≡ false
unfolding been_broadcast peer_requested new_requestor_list hashval
asked_new = refl

send_msg_to_waiting_example :
    let res = handle_send_msg_to_keys all_works data_a path_a false false asked in
    (res.0.sent ≡ to_peer path_a 7 data_a ∷ to_peer path_a 9 data_a ∷ [])
    × (res.1 ≡ true)
    × (been_requested res.0.dso_requests path_a ≡ false)
    × (been_requested res.0.file_requests path_a ≡ false)
unfolding answers contains is_child
send_msg_to_waiting_example =
    send_msg_to_waiting all_works data_a path_a false asked (7 ∷ 1 ∷ 9 ∷ []) refl asked_new
      asked_waiting refl (λ node. refl) dsos-IsValid files-IsValid

abbrev later : List (Network × RelayCall)
later =
    (all_works, call_request_file path_a false 7)
    ∷ (all_works, call_send data_a path_a false true)
    ∷ []

broadcast_once_example :
    let s =
      relay_calls later (handle_send_msg_to_keys all_works data_a path_a true false asked).0 in
    handle_send_msg_to_keys all_works data_a path_a false true s ≡ (s, true)
broadcast_once_example =
    broadcast_once all_works all_works data_a data_a path_a true false false true asked later refl
      refl refl

abbrev two_ask : List (Network × RelayCall)
two_ask =
    (all_works, call_request_file path_a true 7)
    ∷ (all_works, call_client_file path_a true)
    ∷ (all_works, call_request_file path_a true 9)
    ∷ []

queries_outstanding_example :
    let r = relay_calls two_ask (new_relay ldcs_pull) in
    count_queries (letter_for false true) path_a r.sent
    ≤ deliveries path_a two_ask + (if been_requested (table_for false true r) path_a then 1 else 0)
unfolding is_noted
queries_outstanding_example =
    queries_outstanding false true path_a ldcs_pull two_ask (refl, (refl, (refl, tt)))

client_requests-repeat_example :
    count_queries 70 path_a (client_requests all_works path_a 3 (new_relay ldcs_pull)).sent ≡ 0 + 3
unfolding count_queries
client_requests-repeat_example =
    client_requests-repeat all_works path_a 3 (new_relay ldcs_pull) refl (been_requested-new path_a)

send_metadata_once_example :
    let res = (handle_send_metadata_to_keys all_works data_a path_a false metadata_stat asked).0 in
    let now = is_due all_works path_a 7 (7 ∷ 1 ∷ []) (asked.completed_metadata metadata_stat) in
    ((more : List Sent) × (res.sent ≡ [] ++ more)
      × All (IsSendOf path_a data_a) more
      × (count_to path_a 7 more ≡ (if now then 1 else 0)))
    × (peer_requested (res.completed_metadata metadata_stat) path_a 7
        ≡ (peer_requested (asked.completed_metadata metadata_stat) path_a 7 || now))
    × (been_requested (res.pending_metadata metadata_stat) path_a ≡ false)
send_metadata_once_example =
    send_metadata_once all_works data_a path_a metadata_stat asked (7 ∷ 1 ∷ []) 7 refl refl
      asked_dsos dsos-IsValid
