-- ===== src/Relay/Outstanding.antt =====
-- No query is repeated while it is due.
use spindle.Prelude.{
  ℕ, ◌+◌, ◌≤◌, List, [], ◌∷◌, ◌++◌, Option, none, some, Bool, true, false, ◌&&◌, ◌==◌, ◌≡◌, refl,
  All, length, CString, str_eq, str_eq_iff, arith, if◌then◌else◌, Bool-cases, Option-cases, inl,
  inr,
}
use spindle.Wire.{Message}
use spindle.Requestors.{Peer, RequestorList, get_requestors, been_requested, clear_requestor}
use spindle.Requestors.Reads.{been_requested-clear_ne, been_requested-new}
use spindle.Relay.{
  Relay, new_relay, Network, Metadata, DistModel, ldcs_push, to_parent, handle_send_msg_to_keys,
  handle_send_metadata_to_keys, handle_tls_send_results, handle_tls_send_request,
  handle_metadata_request, add_pending, forward_query, ldcs_msg_file_request, broadcast_sent,
  set_completed, clear_waiting, send_to_nodes, waiting_nodes, been_broadcast, is_sent_to_all,
  completed_requests, metadata_request_type, is_sent_to_peer, ldcs_msg_statictls, metadata_stat,
  metadata_lstat, metadata_loader,
}
use spindle.Relay.Once.{
  RelayCall, call_send, call_send_metadata, call_send_tls, call_request_file,
  call_request_directory, call_client_file, call_add_pending, call_metadata_request,
  call_exist_test, call_tls_request, relay_call, relay_calls, DistModel-cases,
}
use spindle.Relay.Queries.{
  is_query, count_queries, letter_for, table_for, due, count-append, count-loop, count-broadcast,
  delivered, deliveries, is_noted, IsPaid, request_file-IsPaid, request_directory-IsPaid,
  client_request-IsPaid,
}

-- A result that is passed on may clear what is due of its path.
send-IsPaid :
    (is_dir is_dso : Bool) (path key : CString) (net : Network) (msg : Message) (force d : Bool)
    (r : Relay)
    → IsPaid is_dir is_dso path
        (if str_eq key path then 1 else 0)
        r
        (handle_send_msg_to_keys net msg key force d r).0
unfolding handle_send_msg_to_keys due table_for set_completed clear_waiting
send-IsPaid is_dir is_dso path key net msg force d r =
    let letter = letter_for is_dir is_dso in
    let pushed = broadcast_sent net key msg in
    elim (Bool-cases (r.have_done_broadcast && been_broadcast r d key)) [
      | inl done ↦ rw done (omega arith)
      | inr not_done ↦ elim (DistModel-cases (if force then ldcs_push else r.dist_model)) [
        | inl push ↦
            rw (not_done, push)
              (ground (
                arith,
                count-append letter path r.sent pushed,
                count-broadcast letter path net key msg,
                clear_lem r.dso_requests,
                clear_lem r.file_requests,
              ))
        | inr pull ↦ elim (Option-cases (waiting_nodes r d key)) [
          | inl nobody ↦ rw (not_done, pull, nobody) (omega arith)
          | inr (nodes, waiting) ↦
              let is_sent = is_sent_to_all r d key in
              let completed = completed_requests r d in
              let l = send_to_nodes net msg key is_sent nodes completed in
              rw (not_done, pull, waiting)
                (ground (
                  arith,
                  count-append letter path r.sent l.loop_sent,
                  count-loop letter path net msg key is_sent nodes completed,
                  clear_lem r.dso_requests,
                  clear_lem r.file_requests,
                ))
        ]
      ]
    ]
  where
    clear_lem :
        (t : RequestorList)
        → str_eq key path ≡ false
        → been_requested (clear_requestor t key) path ≡ been_requested t path
    clear_lem t e = been_requested-clear_ne t key path (λ q. ground (arith, str_eq_iff key path))

loop_lem :
    (is_dir is_dso : Bool) (path : CString) (net : Network) (msg : Message) (key : CString)
    (nodes : List Peer) (c : RequestorList) (r : Relay)
    → let l = send_to_nodes net msg key (is_sent_to_peer key) nodes c in
      count_queries (letter_for is_dir is_dso) path (r.sent ++ l.loop_sent)
      ≡ count_queries (letter_for is_dir is_dso) path r.sent
loop_lem is_dir is_dso path net msg key nodes c r =
    let letter = letter_for is_dir is_dso in
    let l = send_to_nodes net msg key (is_sent_to_peer key) nodes c in
    omega (
      arith,
      count-append letter path r.sent l.loop_sent,
      count-loop letter path net msg key (is_sent_to_peer key) nodes c,
    )

broadcast_lem :
    (is_dir is_dso : Bool) (path : CString) (net : Network) (key : CString) (msg : Message)
    (r : Relay)
    → count_queries (letter_for is_dir is_dso) path (r.sent ++ broadcast_sent net key msg)
      ≡ count_queries (letter_for is_dir is_dso) path r.sent
broadcast_lem is_dir is_dso path net key msg r =
    let letter = letter_for is_dir is_dso in
    omega (
      arith,
      count-append letter path r.sent (broadcast_sent net key msg),
      count-broadcast letter path net key msg,
    )

-- Of what is sent for metadata and for TLS, nothing is a query for a file.
send_metadata-IsPaid :
    (is_dir is_dso : Bool) (path key : CString) (net : Network) (msg : Message) (force : Bool)
    (md : Metadata) (r : Relay)
    → IsPaid is_dir is_dso path 0 r (handle_send_metadata_to_keys net msg key force md r).0
unfolding handle_send_metadata_to_keys due table_for
send_metadata-IsPaid is_dir is_dso path key net msg force md r =
    elim (Option-cases (get_requestors (r.pending_metadata md) key)) [
      | inl nobody ↦ ground (arith, broadcast_lem is_dir is_dso path net key msg r)
      | inr (nodes, some_nodes) ↦ ground (
        arith,
        loop_lem is_dir is_dso path net msg key nodes (r.completed_metadata md) r,
        broadcast_lem is_dir is_dso path net key msg r,
      )
    ]

send_tls-IsPaid :
    (is_dir is_dso : Bool) (path key : CString) (net : Network) (msg : Message) (r : Relay)
    → IsPaid is_dir is_dso path 0 r (handle_tls_send_results net key msg r).0
unfolding handle_tls_send_results due table_for
send_tls-IsPaid is_dir is_dso path key net msg r =
    elim (Option-cases (get_requestors r.pending_tls_requests key)) [
      | inl nobody ↦ ground (arith, broadcast_lem is_dir is_dso path net key msg r)
      | inr (nodes, some_nodes) ↦ ground (
        arith,
        loop_lem is_dir is_dso path net msg key nodes r.completed_tls_requests r,
        broadcast_lem is_dir is_dso path net key msg r,
      )
    ]

-- Nor is another message to the parent.
forward-IsPaid :
    (is_dir is_dso : Bool) (path key : CString) (net : Network) (msg : Message) (r : Relay)
    → msg.header.msg_type == ldcs_msg_file_request ≡ false
    → IsPaid is_dir is_dso path 0 r (forward_query net key msg r)
unfolding forward_query due table_for count_queries is_query
forward-IsPaid is_dir is_dso path key net msg r other =
    ground (arith, count-append (letter_for is_dir is_dso) path r.sent (to_parent key msg ∷ []))

add_pending-IsPaid :
    (is_dir is_dso : Bool) (path key : CString) (md : Metadata) (from : Peer) (r : Relay)
    → IsPaid is_dir is_dso path 0 r (add_pending md key from r)
unfolding add_pending due table_for
add_pending-IsPaid is_dir is_dso path key md from r = omega arith

abbrev metadata_message : Metadata → CString → Message
unfolding metadata_request_type
metadata_message md key = record {
  header = record { msg_type = metadata_request_type md; len = length key + 1 };
  body = key ++ (0 ∷ []);
}

abbrev tls_message : List ℕ → Message
tls_message buffer = record {
  header = record { msg_type = ldcs_msg_statictls; len = length buffer };
  body = buffer;
}

metadata_type_lem :
    (md : Metadata) (key : CString)
    → (metadata_message md key).header.msg_type == ldcs_msg_file_request ≡ false
unfolding metadata_request_type
metadata_type_lem metadata_stat key = refl
metadata_type_lem metadata_lstat key = refl
metadata_type_lem metadata_loader key = refl

metadata_request-IsPaid :
    (is_dir is_dso : Bool) (path key : CString) (md : Metadata) (from : Peer) (net : Network)
    (r : Relay)
    → IsPaid is_dir is_dso path 0 r (handle_metadata_request net key md from r).0
unfolding handle_metadata_request metadata_request_type
metadata_request-IsPaid is_dir is_dso path key md from net r = ground (
  arith,
  forward-IsPaid is_dir is_dso path key net (metadata_message md key) (add_pending md key from r)
      (metadata_type_lem md key),
  add_pending-IsPaid is_dir is_dso path key md from r,
)

tls_request-IsPaid :
    (is_dir is_dso : Bool) (path key : CString) (encoded : Option (List ℕ)) (from : Peer)
    (net : Network) (r : Relay)
    → IsPaid is_dir is_dso path 0 r (handle_tls_send_request net encoded key from r).0
unfolding handle_tls_send_request forward_query due table_for count_queries is_query
tls_request-IsPaid is_dir is_dso path key none from net r = ground arith
tls_request-IsPaid is_dir is_dso path key (some buffer) from net r = ground (
  arith,
  count-append (letter_for is_dir is_dso) path r.sent (to_parent key (tls_message buffer) ∷ []),
)

call-IsPaid :
    (is_dir is_dso : Bool) (path : CString) (net : Network) (c : RelayCall) (r : Relay)
    → is_noted c ≡ true
    → IsPaid is_dir is_dso path (delivered path c) r (relay_call net c r)
unfolding relay_call delivered is_noted
call-IsPaid is_dir is_dso path net (call_send msg key force d) r h =
    send-IsPaid is_dir is_dso path key net msg force d r
call-IsPaid is_dir is_dso path net (call_send_metadata msg key force md) r h =
    send_metadata-IsPaid is_dir is_dso path key net msg force md r
call-IsPaid is_dir is_dso path net (call_send_tls key msg) r h =
    send_tls-IsPaid is_dir is_dso path key net msg r
call-IsPaid is_dir is_dso path net (call_request_file key d from) r h =
    request_file-IsPaid is_dir is_dso path key d from net r
call-IsPaid is_dir is_dso path net (call_request_directory key from) r h =
    request_directory-IsPaid is_dir is_dso path key from net r
call-IsPaid is_dir is_dso path net (call_client_file key true) r h =
    client_request-IsPaid is_dir is_dso path key net r
call-IsPaid is_dir is_dso path net (call_client_file key false) r h = cc
call-IsPaid is_dir is_dso path net (call_exist_test dir) r h = cc
call-IsPaid is_dir is_dso path net (call_add_pending md key from) r h =
    add_pending-IsPaid is_dir is_dso path key md from r
call-IsPaid is_dir is_dso path net (call_metadata_request key md from) r h =
    metadata_request-IsPaid is_dir is_dso path key md from net r
call-IsPaid is_dir is_dso path net (call_tls_request encoded key from) r h =
    tls_request-IsPaid is_dir is_dso path key encoded from net r

calls-IsPaid :
    (is_dir is_dso : Bool) (path : CString) (calls : List (Network × RelayCall)) (r : Relay)
    → All (λ c. is_noted c.1 ≡ true) calls
    → IsPaid is_dir is_dso path (deliveries path calls) r (relay_calls calls r)
unfolding relay_calls deliveries
calls-IsPaid is_dir is_dso path [] r h = omega arith
calls-IsPaid is_dir is_dso path ((net, c) ∷ calls) r h = omega (
  arith,
  call-IsPaid is_dir is_dso path net c r h.0,
  calls-IsPaid is_dir is_dso path calls (relay_call net c r) h.1,
)

-- In a run from empty tables in which no client asks for a plain file, nor for the existence of a
-- file whose directory must be asked for (a client may ask for dsos and for directories, and other
-- servers for anything), the queries for a path that go to the parent, counted for each kind of
-- query, are at most one more than the results for that path that were handed on in between, and
-- one more only while the path is noted as requested.
pub queries_outstanding :
    (is_dir is_dso : Bool) (path : CString) (model : DistModel) (calls : List (Network × RelayCall))
    → All (λ c. is_noted c.1 ≡ true) calls
    → let r = relay_calls calls (new_relay model) in
      count_queries (letter_for is_dir is_dso) path r.sent
      ≤ deliveries path calls + (if been_requested (table_for is_dir is_dso r) path then 1 else 0)
unfolding due count_queries table_for
queries_outstanding is_dir is_dso path model calls h =
    let paid = calls-IsPaid is_dir is_dso path calls (new_relay model) h in
    ground (arith, been_requested-new path)
