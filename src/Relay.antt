-- ===== src/Relay.antt =====
-- How a server passes results down the tree and queries up it: `handle_send_msg_to_keys`,
-- `handle_send_query` and their kin of src/server/auditserver/ldcs_audit_server_handlers.c, over the
-- request tables. A function returns the new state and whether its result is 0, not -1. A message
-- stands for itself with the secondary data that goes with it.
pub mod State
pub mod Results
pub mod Loop
pub mod Pull
pub mod Once
pub mod Queries
pub mod Outstanding
pub mod Repeats
pub mod Answers
mod Tests
unfoldable pub use State.*
unfoldable pub use Results.*
use spindle.Prelude.{
  ℕ, ◌+◌, List, [], ◌∷◌, ◌++◌, Option, none, some, Bool, true, false, not, ◌&&◌, ◌||◌, ◌==◌,
  if◌then◌else◌, CString, length, take,
}
use spindle.Cache.{max_path_len}
use spindle.Wire.{Header, Message}
use spindle.Requestors.{
  Peer, RequestorList, new_requestor_list, been_requested, add_requestor, get_requestors,
  get_requestors2, clear_requestor, peer_requested,
}

abbrev pub ldcs_msg_file_request : ℕ
ldcs_msg_file_request = 6

abbrev pub ldcs_msg_statictls : ℕ
ldcs_msg_statictls = 68

-- What `snprintf` leaves in `buffer_out`, and the length that is sent with it.
unfoldable pub request_message : ℕ → CString → Message
request_message kind path = record {
  header = record { msg_type = ldcs_msg_file_request; len = length (kind ∷ path) + 1 };
  body = take max_path_len (kind ∷ path) ++ (0 ∷ []);
}

-- `spindle_forward_query`, if it works.
unfoldable pub forward_query : Network → CString → Message → Relay → Relay
forward_query net key msg r =
    if net.forwards then record r { sent = r.sent ++ (to_parent key msg ∷ []) } else r

-- The letters 'D', 'S' and 'F'.
abbrev pub letter_dir : ℕ
letter_dir = 68

unfoldable pub letter_of : Bool → ℕ
letter_of is_dso = if is_dso then 83 else 70

unfoldable pub handle_send_directory_query : Network → CString → Relay → Relay
unfolding forward_query request_message
handle_send_directory_query net directory r =
    forward_query net directory (request_message letter_dir directory) r

unfoldable pub handle_send_file_query : Network → CString → Bool → Relay → Relay
unfolding forward_query request_message
handle_send_file_query net fullpath is_dso r =
    forward_query net fullpath (request_message (letter_of is_dso) fullpath) r

-- What `handle_send_query` finds out first.
unfoldable pub was_requested : Relay → CString → Bool → Bool → Bool
was_requested r path is_dir is_dso =
    if is_dir
    then been_requested r.file_requests path
    else if is_dso
    then been_requested r.dso_requests path || been_requested r.file_requests path
    else been_requested r.file_requests path

-- The result is always 0.
unfoldable pub handle_send_query : Network → CString → Bool → Bool → Relay → Relay
unfolding was_requested handle_send_directory_query handle_send_file_query
handle_send_query net path is_dir is_dso r =
    if was_requested r path is_dir is_dso
    then r
    else if is_dir
    then handle_send_directory_query net path r
    else handle_send_file_query net path is_dso r

-- The case REQ_FILE of `handle_request_file`.
unfoldable pub request_file : Network → CString → Bool → Peer → Relay → Relay
unfolding handle_send_query
request_file net pathname is_dso from r =
    let sent = handle_send_query net pathname false is_dso r in
    if is_dso
    then record sent { dso_requests = add_requestor sent.dso_requests pathname from }
    else record sent { file_requests = add_requestor sent.file_requests pathname from }

-- The cases REQ_DIRECTORY of `handle_request_directory` and of `handle_client_progress`.
unfoldable pub request_directory : Network → CString → Peer → Relay → Relay
unfolding handle_send_query
request_directory net dirname from r =
    let sent = handle_send_query net dirname true false r in
    record sent { file_requests = add_requestor sent.file_requests dirname from }

-- The case REQ_FILE of `handle_client_progress`.
unfoldable pub client_request_file : Network → CString → Bool → Relay → Relay
unfolding handle_send_query
client_request_file net globalpath is_dso r =
    let sent = handle_send_query net globalpath false is_dso r in
    record sent { dso_requests = add_requestor sent.dso_requests globalpath node_peer_client }

-- LDCS_MSG_STAT_NET_REQUEST, LDCS_MSG_LSTAT_NET_REQUEST, LDCS_MSG_LOADER_DATA_NET_REQ.
unfoldable pub metadata_request_type : Metadata → ℕ
metadata_request_type metadata_stat = 11
metadata_request_type metadata_lstat = 12
metadata_request_type metadata_loader = 37

unfoldable pub add_pending : Metadata → CString → Peer → Relay → Relay
unfolding set_table
add_pending md path from r = record r {
  pending_metadata =
      set_table r.pending_metadata md (add_requestor (r.pending_metadata md) path from);
}

unfoldable pub handle_metadata_request : Network → CString → Metadata → Peer → Relay → Relay × Bool
unfolding add_pending forward_query metadata_request_type
handle_metadata_request net pathname md from r =
    if been_requested (r.pending_metadata md) pathname then (r, true) else (
      forward_query net pathname
          (record {
            header = record { msg_type = metadata_request_type md; len = length pathname + 1 };
            body = pathname ++ (0 ∷ []);
          })
          (add_pending md pathname from r),
      net.forwards,
    )

-- `encoded` is what `static_tls_info_encode2` makes of the request, `none` for -1.
unfoldable pub handle_tls_send_request :
    Network → Option (List ℕ) → CString → Peer → Relay → Relay × Bool
unfolding forward_query
handle_tls_send_request net encoded tlskey from r =
    let added =
      if from == node_peer_client
      then r
      else record r { pending_tls_requests = add_requestor r.pending_tls_requests tlskey from } in
    if been_requested r.pending_tls_requests tlskey then (added, true) else (elim encoded [
      | none ↦ (added, false)
      | some buffer ↦ (
        forward_query net tlskey
            (record {
              header = record { msg_type = ldcs_msg_statictls; len = length buffer };
              body = buffer;
            })
            added,
        net.forwards,
      )
    ])

unfoldable pub handle_tls_send_results : Network → CString → Message → Relay → Relay × Bool
unfolding send_to_nodes is_sent_to_peer broadcast_sent
handle_tls_send_results net tlskey msg r =
    let cleared = record r {
      pending_tls_requests = clear_requestor r.pending_tls_requests tlskey;
    } in
    if peer_requested r.completed_tls_requests tlskey node_peer_all
    then (r, true)
    else elim r.dist_model [
      | ldcs_push ↦ (
        record cleared {
          completed_tls_requests = add_requestor r.completed_tls_requests tlskey node_peer_all;
          sent = r.sent ++ broadcast_sent net tlskey msg;
        },
        net.broadcasts,
      )
      | ldcs_pull ↦ elim (get_requestors r.pending_tls_requests tlskey) [
        | none ↦ (r, true)
        | some nodes ↦
            let l =
              send_to_nodes net msg tlskey (is_sent_to_peer tlskey) nodes
                r.completed_tls_requests in
            (
              record cleared { completed_tls_requests = l.completed; sent = r.sent ++ l.loop_sent },
              l.ok,
            )
      ]
    ]
