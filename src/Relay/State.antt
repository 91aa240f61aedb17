-- ===== src/Relay/State.antt =====
-- The state of the relay of src/server/auditserver/ldcs_audit_server_handlers.c, and what it sends.
use spindle.Prelude.{List, [], Bool, true, false, not, ◌||◌, ◌==◌, if◌then◌else◌, CString}
use spindle.Wire.{Message}
use spindle.Requestors.{Peer, RequestorList, new_requestor_list}

-- NODE_PEER_NULL, NODE_PEER_CLIENT and NODE_PEER_ALL.
abbrev pub node_peer_null : Peer
node_peer_null = 0

abbrev pub node_peer_client : Peer
node_peer_client = 1

abbrev pub node_peer_all : Peer
node_peer_all = 2

-- `ldcs_dist_model_t`
pub data DistModel : Type 0 where
  ldcs_pull ldcs_push : DistModel

-- `metadata_t`, but for `metadata_none`.
pub data Metadata : Type 0 where
  metadata_stat metadata_lstat metadata_loader : Metadata

-- What the network layer sent, with the key that it was sent for: to all children, to one, or to
-- the parent.
pub data Sent : Type 0 where
  to_children : CString → Message → Sent
  to_peer : CString → Peer → Message → Sent
  to_parent : CString → Message → Sent

-- Whether a send to each child, a broadcast, and a message to the parent succeed.
pub record Network : Type 0 where
  pub sends : Peer → Bool
  pub broadcasts : Bool
  pub forwards : Bool

-- The tables of `ldcs_process_data_t` (those for metadata by its kind), `have_done_broadcast`, and
-- a log of what was sent.
pub record Relay : Type 0 where
  pub dist_model : DistModel
  pub have_done_broadcast : Bool
  pub dso_requests : RequestorList
  pub file_requests : RequestorList
  pub completed_dso_requests : RequestorList
  pub completed_file_requests : RequestorList
  pub pending_metadata : Metadata → RequestorList
  pub completed_metadata : Metadata → RequestorList
  pub pending_tls_requests : RequestorList
  pub completed_tls_requests : RequestorList
  pub sent : List Sent

abbrev pub new_relay : DistModel → Relay
new_relay model = record {
  dist_model = model;
  have_done_broadcast = false;
  dso_requests = new_requestor_list;
  file_requests = new_requestor_list;
  completed_dso_requests = new_requestor_list;
  completed_file_requests = new_requestor_list;
  pending_metadata = λ md. new_requestor_list;
  completed_metadata = λ md. new_requestor_list;
  pending_tls_requests = new_requestor_list;
  completed_tls_requests = new_requestor_list;
  sent = [];
}

abbrev pub metadata_eq : Metadata → Metadata → Bool
metadata_eq metadata_stat metadata_stat = true
metadata_eq metadata_lstat metadata_lstat = true
metadata_eq metadata_loader metadata_loader = true
metadata_eq _ _ = false

-- The table of one kind, changed.
unfoldable pub set_table :
    (Metadata → RequestorList) → Metadata → RequestorList → Metadata → RequestorList
set_table tables md table other = if metadata_eq md other then table else tables other

unfoldable pub is_child : Peer → Bool
is_child node = not (node == node_peer_client || node == node_peer_null)
