-- ===== src/Relay/Results.antt =====
-- How results are handed down: `handle_send_metadata_to_keys` and `handle_send_msg_to_keys`.
use spindle.Prelude.{
  List, [], ◌∷◌, ◌++◌, Option, none, some, Bool, true, false, not, ◌&&◌, ◌||◌, if◌then◌else◌,
  CString,
}
use spindle.Wire.{Message}
use spindle.Requestors.{
  Peer, RequestorList, add_requestor, get_requestors, get_requestors2, clear_requestor,
  peer_requested,
}
use spindle.Relay.State.{
  node_peer_all, Metadata, Sent, Network, Relay, set_table, is_child, ldcs_pull, ldcs_push,
  to_children, to_peer,
}

-- What a loop over the waiting nodes leaves: the completed table, what it sent, its result.
pub record LoopResult : Type 0 where
  pub completed : RequestorList
  pub loop_sent : List Sent
  pub ok : Bool

-- The loops over the waiting nodes; `is_sent` is their test whether the node has the message.
unfoldable pub send_to_nodes :
    Network
    → Message
    → CString
    → (RequestorList → Peer → Bool)
    → List Peer
    → RequestorList
    → LoopResult
unfolding is_child
send_to_nodes net msg key is_sent [] completed = record {
  completed = completed;
  loop_sent = [];
  ok = true;
}
send_to_nodes net msg key is_sent (node ∷ nodes) completed =
    let rest = λ (c : RequestorList). send_to_nodes net msg key is_sent nodes c in
    if not (is_child node)
    then rest completed
    else if is_sent completed node
    then rest completed
    else if net.sends node
    then (let r = rest (add_requestor completed key node) in
        record r { loop_sent = to_peer key node msg ∷ r.loop_sent })
    else record (rest completed) { ok = false }

unfoldable pub is_sent_to_peer : CString → RequestorList → Peer → Bool
is_sent_to_peer key completed node = peer_requested completed key node

-- `spindle_broadcast_noncontig`, if it works.
unfoldable pub broadcast_sent : Network → CString → Message → List Sent
broadcast_sent net key msg = if net.broadcasts then to_children key msg ∷ [] else []

unfoldable pub handle_send_metadata_to_keys :
    Network → Message → CString → Bool → Metadata → Relay → Relay × Bool
unfolding set_table send_to_nodes is_sent_to_peer broadcast_sent
handle_send_metadata_to_keys net msg key force_broadcast md r =
    let completed_reqs = r.completed_metadata md in
    let cleared = record r {
      pending_metadata =
          set_table r.pending_metadata md (clear_requestor (r.pending_metadata md) key);
    } in
    if r.have_done_broadcast && peer_requested completed_reqs key node_peer_all
    then (r, true)
    else elim (if force_broadcast then ldcs_push else r.dist_model) [
      | ldcs_push ↦ (
        record cleared {
          have_done_broadcast = true;
          completed_metadata =
              set_table r.completed_metadata md (add_requestor completed_reqs key node_peer_all);
          sent = r.sent ++ broadcast_sent net key msg;
        },
        net.broadcasts,
      )
      | ldcs_pull ↦ elim (get_requestors (r.pending_metadata md) key) [
        | none ↦ (r, true)
        | some nodes ↦
            let l = send_to_nodes net msg key (is_sent_to_peer key) nodes completed_reqs in
            (
              record cleared {
                completed_metadata = set_table r.completed_metadata md l.completed;
                sent = r.sent ++ l.loop_sent;
              },
              l.ok,
            )
      ]
    ]

-- The test of `handle_send_msg_to_keys` whether the file went to all, also in its loop, where
-- `completed` is the table that the loop adds to.
unfoldable pub is_broadcast : Bool → RequestorList → RequestorList → CString → Bool
is_broadcast is_dso completed_dso completed_file key =
    is_dso && peer_requested completed_dso key node_peer_all
    || peer_requested completed_file key node_peer_all

unfoldable pub been_broadcast : Relay → Bool → CString → Bool
unfolding is_broadcast
been_broadcast r is_dso key =
    is_broadcast is_dso r.completed_dso_requests r.completed_file_requests key

unfoldable pub completed_requests : Relay → Bool → RequestorList
completed_requests r is_dso = if is_dso then r.completed_dso_requests else r.completed_file_requests

unfoldable pub set_completed : Bool → RequestorList → Relay → Relay
set_completed is_dso table r =
    if is_dso
    then record r { completed_dso_requests = table }
    else record r { completed_file_requests = table }

-- The peers that wait for a file, `none` for -1.
unfoldable pub waiting_nodes : Relay → Bool → CString → Option (List Peer)
waiting_nodes r is_dso key =
    if is_dso
    then get_requestors r.dso_requests key
    else get_requestors2 r.dso_requests r.file_requests key

unfoldable pub clear_waiting : Bool → CString → Relay → Relay
clear_waiting is_dso key r =
    if is_dso then record r { dso_requests = clear_requestor r.dso_requests key } else record r {
      dso_requests = clear_requestor r.dso_requests key;
      file_requests = clear_requestor r.file_requests key;
    }

unfoldable pub is_sent_to_all : Relay → Bool → CString → RequestorList → Peer → Bool
unfolding is_broadcast
is_sent_to_all r is_dso key completed node =
    if is_dso
    then is_broadcast true completed r.completed_file_requests key
    else is_broadcast false r.completed_dso_requests completed key

-- With `metadata_none`; otherwise it is `handle_send_metadata_to_keys`.
unfoldable pub handle_send_msg_to_keys :
    Network → Message → CString → Bool → Bool → Relay → Relay × Bool
unfolding been_broadcast set_completed clear_waiting broadcast_sent
handle_send_msg_to_keys net msg key force_broadcast is_dso r =
    if r.have_done_broadcast && been_broadcast r is_dso key
    then (r, true)
    else elim (if force_broadcast then ldcs_push else r.dist_model) [
      | ldcs_push ↦ (
        clear_waiting is_dso key (
            set_completed is_dso (add_requestor (completed_requests r is_dso) key node_peer_all)
              (record r {
                have_done_broadcast = true;
                sent = r.sent ++ broadcast_sent net key msg;
              })),
        net.broadcasts,
      )
      | ldcs_pull ↦ elim (waiting_nodes r is_dso key) [
        | none ↦ (r, true)
        | some nodes ↦
            let l =
              send_to_nodes net msg key (is_sent_to_all r is_dso key) nodes
                (completed_requests r is_dso) in
            (
              clear_waiting is_dso key
                  (set_completed is_dso l.completed (record r { sent = r.sent ++ l.loop_sent })),
              l.ok,
            )
      ]
    ]
