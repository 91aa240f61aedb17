-- ===== src/Relay/Once.antt =====
-- Runs of the relay, and what a broadcast of a file leaves for good.
use spindle.Prelude.{
  ℕ, List, [], ◌∷◌, Option, Bool, true, false, not, ◌&&◌, ◌≡◌, refl, CString, str_eq, str_eq_iff,
  arith, if◌then◌else◌, Bool-cases, Option-cases, inl, inr, ◌⊎◌,
}
use spindle.Wire.{Message}
use spindle.Requestors.{Peer, RequestorList, add_requestor, peer_requested}
use spindle.Requestors.Reads.{peer_requested-add, peer_requested-add_ne}
use spindle.Relay.{
  Relay, Network, Metadata, DistModel, ldcs_pull, ldcs_push, node_peer_all, handle_send_msg_to_keys,
  handle_send_metadata_to_keys, handle_tls_send_results, handle_tls_send_request,
  handle_metadata_request, request_file, request_directory, client_request_file, add_pending,
  handle_send_query, handle_send_file_query, handle_send_directory_query, forward_query,
  been_broadcast, is_broadcast, set_completed, clear_waiting, completed_requests, send_to_nodes,
  waiting_nodes, is_sent_to_all,
}

-- A call of the relay's functions; an existence test that finds its directory missing asks for the
-- directory, and notes nobody (`handle_fileexist_test`).
pub data RelayCall : Type 0 where
  call_send : Message → CString → Bool → Bool → RelayCall
  call_send_metadata : Message → CString → Bool → Metadata → RelayCall
  call_send_tls : CString → Message → RelayCall
  call_request_file : CString → Bool → Peer → RelayCall
  call_request_directory : CString → Peer → RelayCall
  call_client_file : CString → Bool → RelayCall
  call_exist_test : CString → RelayCall
  call_add_pending : Metadata → CString → Peer → RelayCall
  call_metadata_request : CString → Metadata → Peer → RelayCall
  call_tls_request : Option (List ℕ) → CString → Peer → RelayCall

unfoldable pub relay_call : Network → RelayCall → Relay → Relay
relay_call net (call_send msg key force is_dso) r =
    (handle_send_msg_to_keys net msg key force is_dso r).0
relay_call net (call_send_metadata msg key force md) r =
    (handle_send_metadata_to_keys net msg key force md r).0
relay_call net (call_send_tls key msg) r = (handle_tls_send_results net key msg r).0
relay_call net (call_request_file path is_dso from) r = request_file net path is_dso from r
relay_call net (call_request_directory dir from) r = request_directory net dir from r
relay_call net (call_client_file path is_dso) r = client_request_file net path is_dso r
relay_call net (call_exist_test dir) r = handle_send_query net dir true false r
relay_call net (call_add_pending md path from) r = add_pending md path from r
relay_call net (call_metadata_request path md from) r =
    (handle_metadata_request net path md from r).0
relay_call net (call_tls_request encoded key from) r =
    (handle_tls_send_request net encoded key from r).0

-- A network for each call.
unfoldable pub relay_calls : List (Network × RelayCall) → Relay → Relay
unfolding relay_call
relay_calls [] r = r
relay_calls ((net, c) ∷ calls) r = relay_calls calls (relay_call net c r)

peer_requested-add_mono :
    (t : RequestorList) (file key : CString) (p q : Peer)
    → peer_requested t key q ≡ true
    → peer_requested (add_requestor t file p) key q ≡ true
peer_requested-add_mono t file key p q h = elim (Bool-cases (str_eq file key)) [
  | inl e ↦
      let same : file ≡ key = (str_eq_iff file key).0 e in
      let before : peer_requested t file q ≡ true = rw same h in
      rw (← same) (ground (arith, peer_requested-add t file p q))
  | inr e ↦ rw (peer_requested-add_ne t file key p q (λ f. ground (arith, str_eq_iff file key))) h
]

pub send_to_nodes-peer_requested :
    (net : Network) (msg : Message) (file key : CString) (is_sent : RequestorList → Peer → Bool)
    (nodes : List Peer) (c : RequestorList) (q : Peer)
    → peer_requested c key q ≡ true
    → peer_requested (send_to_nodes net msg file is_sent nodes c).completed key q ≡ true
unfolding send_to_nodes
send_to_nodes-peer_requested net msg file key is_sent [] c q h = h
send_to_nodes-peer_requested net msg file key is_sent (node ∷ nodes) c q h =
    let same = send_to_nodes-peer_requested net msg file key is_sent nodes c q h in
    let more =
      send_to_nodes-peer_requested net msg file key is_sent nodes (add_requestor c file node) q
        (peer_requested-add_mono c file key node q h) in
    ground arith

-- The file went to all children, as a dso or not.
pub record WentToAll (is_dso : Bool) (key : CString) (r : Relay) : Type 0 where
  pub have_done : r.have_done_broadcast ≡ true
  pub completed_all : peer_requested (completed_requests r is_dso) key node_peer_all ≡ true

pub DistModel-cases : (m : DistModel) → (m ≡ ldcs_push) ⊎ (m ≡ ldcs_pull)
DistModel-cases ldcs_push = inl refl
DistModel-cases ldcs_pull = inr refl

set_completed-WentToAll :
    (key : CString) (d is_dso : Bool) (table : RequestorList) (r : Relay)
    → WentToAll is_dso key r
    → (peer_requested (completed_requests r d) key node_peer_all ≡ true
        → peer_requested table key node_peer_all ≡ true)
    → WentToAll is_dso key (set_completed d table r)
unfolding set_completed completed_requests
set_completed-WentToAll key false false table r w grows = record {
  have_done = w.have_done;
  completed_all = grows w.completed_all;
}
set_completed-WentToAll key false true table r w grows = record {
  have_done = w.have_done;
  completed_all = w.completed_all;
}
set_completed-WentToAll key true false table r w grows = record {
  have_done = w.have_done;
  completed_all = w.completed_all;
}
set_completed-WentToAll key true true table r w grows = record {
  have_done = w.have_done;
  completed_all = grows w.completed_all;
}

clear_waiting-WentToAll :
    (file key : CString) (d is_dso : Bool) (r : Relay)
    → WentToAll is_dso key r
    → WentToAll is_dso key (clear_waiting d file r)
unfolding clear_waiting completed_requests
clear_waiting-WentToAll file key false is_dso r w = record {
  have_done = w.have_done;
  completed_all = w.completed_all;
}
clear_waiting-WentToAll file key true is_dso r w = record {
  have_done = w.have_done;
  completed_all = w.completed_all;
}

send-WentToAll :
    (net : Network) (msg : Message) (file key : CString) (force d is_dso : Bool) (r : Relay)
    → WentToAll is_dso key r
    → WentToAll is_dso key (handle_send_msg_to_keys net msg file force d r).0
unfolding handle_send_msg_to_keys completed_requests
send-WentToAll net msg file key force d is_dso r w =
    elim (Bool-cases (r.have_done_broadcast && been_broadcast r d file)) [
      | inl done ↦ rw done w
      | inr not_done ↦ elim (DistModel-cases (if force then ldcs_push else r.dist_model)) [
        | inl push ↦
            let went : WentToAll is_dso key (record r { have_done_broadcast = true; sent = _ }) =
              record { have_done = refl; completed_all = w.completed_all } in
            rw (not_done, push)
              (clear_waiting-WentToAll file key d is_dso _ (
                set_completed-WentToAll key d is_dso _ _ went (
                  peer_requested-add_mono (completed_requests r d) file key node_peer_all
                    node_peer_all)))
        | inr pull ↦ elim (Option-cases (waiting_nodes r d file)) [
          | inl nobody ↦ rw (not_done, pull, nobody) w
          | inr (nodes, some_nodes) ↦
              let went : WentToAll is_dso key (record r { sent = _ }) = record {
                have_done = w.have_done;
                completed_all = w.completed_all;
              } in
              rw (not_done, pull, some_nodes)
                (clear_waiting-WentToAll file key d is_dso _ (
                  set_completed-WentToAll key d is_dso _ _ went (
                    send_to_nodes-peer_requested net msg file key (is_sent_to_all r d file) nodes
                      (completed_requests r d) node_peer_all)))
        ]
      ]
    ]

-- A change that leaves `have_done_broadcast` or sets it, and the two completed tables alone.
unfoldable pub IsBeside : Relay → Relay → Type 0
IsBeside r s =
    (s.have_done_broadcast ≡ true ⊎ s.have_done_broadcast ≡ r.have_done_broadcast)
    × (s.completed_dso_requests ≡ r.completed_dso_requests)
    × (s.completed_file_requests ≡ r.completed_file_requests)

beside-WentToAll :
    (is_dso : Bool) (key : CString) (r s : Relay)
    → IsBeside r s
    → WentToAll is_dso key r
    → WentToAll is_dso key s
unfolding IsBeside completed_requests
beside-WentToAll is_dso key r s b w =
    let done : s.have_done_broadcast ≡ true = elim b.0 [
      | inl now ↦ now
      | inr same ↦ rw (same, w.have_done) refl
    ] in
    record { have_done = done; completed_all = rw (b.1, b.2) w.completed_all }

send_metadata-IsBeside :
    (net : Network) (msg : Message) (file : CString) (force : Bool) (md : Metadata) (r : Relay)
    → IsBeside r (handle_send_metadata_to_keys net msg file force md r).0
unfolding IsBeside handle_send_metadata_to_keys
send_metadata-IsBeside net msg file force md r = ground arith

send_tls-IsBeside :
    (net : Network) (msg : Message) (file : CString) (r : Relay)
    → IsBeside r (handle_tls_send_results net file msg r).0
unfolding IsBeside handle_tls_send_results
send_tls-IsBeside net msg file r = ground arith

query-IsBeside :
    (net : Network) (path : CString) (is_dir is_dso : Bool) (r : Relay)
    → IsBeside r (handle_send_query net path is_dir is_dso r)
unfolding IsBeside handle_send_query handle_send_file_query handle_send_directory_query
    forward_query
query-IsBeside net path is_dir is_dso r = ground arith

call-WentToAll :
    (net : Network) (c : RelayCall) (is_dso : Bool) (key : CString) (r : Relay)
    → WentToAll is_dso key r
    → WentToAll is_dso key (relay_call net c r)
unfolding relay_call IsBeside request_file request_directory client_request_file add_pending
    handle_metadata_request handle_tls_send_request forward_query
call-WentToAll net (call_send msg file force d) is_dso key r w =
    send-WentToAll net msg file key force d is_dso r w
call-WentToAll net (call_send_metadata msg file force md) is_dso key r w =
    beside-WentToAll is_dso key r _ (send_metadata-IsBeside net msg file force md r) w
call-WentToAll net (call_send_tls file msg) is_dso key r w =
    beside-WentToAll is_dso key r _ (send_tls-IsBeside net msg file r) w
call-WentToAll net (call_request_file path d from) is_dso key r w =
    beside-WentToAll is_dso key r _ (ground (arith, query-IsBeside net path false d r)) w
call-WentToAll net (call_request_directory dir from) is_dso key r w =
    beside-WentToAll is_dso key r _ (ground (arith, query-IsBeside net dir true false r)) w
call-WentToAll net (call_client_file path d) is_dso key r w =
    beside-WentToAll is_dso key r _ (ground (arith, query-IsBeside net path false d r)) w
call-WentToAll net (call_exist_test dir) is_dso key r w =
    beside-WentToAll is_dso key r _ (query-IsBeside net dir true false r) w
call-WentToAll net (call_add_pending md path from) is_dso key r w =
    beside-WentToAll is_dso key r _ (inr refl, refl, refl) w
call-WentToAll net (call_metadata_request path md from) is_dso key r w =
    beside-WentToAll is_dso key r _ (ground arith) w
call-WentToAll net (call_tls_request encoded file from) is_dso key r w =
    beside-WentToAll is_dso key r _ (ground arith) w

calls-WentToAll :
    (calls : List (Network × RelayCall)) (is_dso : Bool) (key : CString) (r : Relay)
    → WentToAll is_dso key r
    → WentToAll is_dso key (relay_calls calls r)
unfolding relay_calls
calls-WentToAll [] is_dso key r w = w
calls-WentToAll ((net, c) ∷ calls) is_dso key r w =
    calls-WentToAll calls is_dso key (relay_call net c r) (call-WentToAll net c is_dso key r w)

-- A broadcast makes it so.
broadcast-WentToAll :
    (net : Network) (msg : Message) (key : CString) (force is_dso : Bool) (r : Relay)
    → (if force then ldcs_push else r.dist_model) ≡ ldcs_push
    → r.have_done_broadcast && been_broadcast r is_dso key ≡ false
    → WentToAll is_dso key (handle_send_msg_to_keys net msg key force is_dso r).0
unfolding handle_send_msg_to_keys set_completed clear_waiting completed_requests
broadcast-WentToAll net msg key force false r push fresh =
    rw (fresh, push)
      record {
        have_done = refl;
        completed_all =
            ground
              (arith, peer_requested-add r.completed_file_requests key node_peer_all node_peer_all);
      }
broadcast-WentToAll net msg key force true r push fresh =
    rw (fresh, push)
      record {
        have_done = refl;
        completed_all =
            ground
              (arith, peer_requested-add r.completed_dso_requests key node_peer_all node_peer_all);
      }

again_lem :
    (net : Network) (msg : Message) (key : CString) (force is_dso as_dso : Bool) (r : Relay)
    → is_dso && not as_dso ≡ false
    → WentToAll is_dso key r
    → handle_send_msg_to_keys net msg key force as_dso r ≡ (r, true)
unfolding handle_send_msg_to_keys been_broadcast is_broadcast completed_requests
again_lem net msg key force is_dso as_dso r kind w =
    let done = w.have_done in let all = w.completed_all in ground arith

-- Once a file was broadcast, in push mode or because the broadcast was forced, then after any
-- further sends and requests, of this or other files, of metadata and of TLS results, over any
-- network, a result for the file is not sent again: the handler changes nothing and returns 0.
-- For a file that was broadcast as a dso this holds of further results as a dso.
pub broadcast_once :
    (net net' : Network) (msg msg' : Message) (key : CString) (force force' is_dso as_dso : Bool)
    (r : Relay) (calls : List (Network × RelayCall))
    → (if force then ldcs_push else r.dist_model) ≡ ldcs_push
    → r.have_done_broadcast && been_broadcast r is_dso key ≡ false
    → is_dso && not as_dso ≡ false
    → let s = relay_calls calls (handle_send_msg_to_keys net msg key force is_dso r).0 in
      handle_send_msg_to_keys net' msg' key force' as_dso s ≡ (s, true)
broadcast_once net net' msg msg' key force force' is_dso as_dso r calls push fresh kind =
    again_lem net' msg' key force' is_dso as_dso _ kind (
      calls-WentToAll calls is_dso key _
        (broadcast-WentToAll net msg key force is_dso r push fresh))
