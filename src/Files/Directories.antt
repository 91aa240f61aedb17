-- ===== src/Files/Directories.antt =====
-- The handlers of directories: reading, requests from other servers, and their packets.
use spindle.Prelude.{ℕ, List, Bool, true, false, if◌then◌else◌, Option, none, some, CString, length}
use spindle.Wire.{Message}
use spindle.Requestors.{Peer, add_requestor}
use spindle.Cache.{
  dir_parsed_and_exists, dir_parsed_and_not_exists, dir_not_parsed, file_found, file_not_found,
  find_dir_in_cache, Listing, process_directory, encode_dir_contents, decode_dir_contents,
}
use spindle.Relay.{Network, handle_send_msg_to_keys, request_directory}
use spindle.Files.{
  found_file, found_errcode, no_file, no_dir, read_directory, read_file, req_directory, req_file,
  alias_to, orig_file, FileServer, is_parsed, handle_howto_directory,
}

-- The result with the state: `some (s, false)` is -1.
abbrev pub Handled : Type 0
Handled = Option (FileServer × Bool)

unfoldable pub handle_read_directory : Listing → CString → FileServer → Handled
handle_read_directory ls dir s = elim (find_dir_in_cache s.cache dir) [
  | dir_not_parsed ↦ elim (process_directory ls s.cache dir) [
    | none ↦ none
    | some (c, found) ↦ some (record s { cache = c }, is_parsed found)
  ]
  | dir_parsed_and_exists ↦ some (s, true)
  | dir_parsed_and_not_exists ↦ some (s, true)
  | file_found ↦ some (s, true)
  | file_not_found ↦ some (s, true)
]

-- LDCS_MSG_CACHE_ENTRIES, LDCS_MSG_PRELOAD_DIR, LDCS_MSG_FILE_ERRCODE and LDCS_MSG_ALIAS.
abbrev pub ldcs_msg_cache_entries : ℕ
ldcs_msg_cache_entries = 26

abbrev pub ldcs_msg_preload_dir : ℕ
ldcs_msg_preload_dir = 46

abbrev pub ldcs_msg_file_errcode : ℕ
ldcs_msg_file_errcode = 5

abbrev pub ldcs_msg_alias : ℕ
ldcs_msg_alias = 55

abbrev pub message_of : ℕ → List ℕ → Message
message_of msg_type body = record {
  header = record { msg_type = msg_type; len = length body };
  body = body;
}

-- `handle_send_msg_to_keys` for a message that is no dso.
unfoldable pub send_to_keys : Network → Message → CString → Bool → FileServer → FileServer × Bool
send_to_keys net msg key force s =
    let res = handle_send_msg_to_keys net msg key force false s.relay in
    (record s { relay = res.0 }, res.1)

unfoldable pub handle_broadcast_dir : Network → CString → Bool → FileServer → Handled
unfolding send_to_keys
handle_broadcast_dir net dir is_preload s = elim (encode_dir_contents s.cache dir) [
  | none ↦ none
  | some none ↦ some (s, false)
  | some (some buffer) ↦ some (
      send_to_keys net
        (message_of (if is_preload then ldcs_msg_preload_dir else ldcs_msg_cache_entries) buffer)
        dir is_preload s)
]

unfoldable pub handle_read_and_broadcast_dir : Listing → Network → CString → FileServer → Handled
handle_read_and_broadcast_dir ls net dir s = elim (handle_read_directory ls dir s) [
  | none ↦ none
  | some (t, ok) ↦ if ok then handle_broadcast_dir net dir false t else some (t, false)
]

unfoldable pub note_file_request : CString → Peer → FileServer → FileServer
note_file_request path from s = record s {
  relay = (let r = s.relay in record r { file_requests = add_requestor r.file_requests path from });
}

unfoldable pub handle_request_directory : Listing → Network → Peer → CString → FileServer → Handled
unfolding note_file_request
handle_request_directory ls net from pathname s =
    let noted = note_file_request pathname from s in
    elim (handle_howto_directory s pathname) [
      | read_directory ↦ handle_read_and_broadcast_dir ls net pathname noted
      | req_directory ↦
          some (record s { relay = request_directory net pathname from s.relay }, true)
      | no_file ↦ handle_broadcast_dir net pathname false noted
      | found_file ↦ handle_broadcast_dir net pathname false noted
      | found_errcode ↦ none
      | no_dir ↦ none
      | read_file ↦ none
      | req_file ↦ none
      | alias_to ↦ none
      | orig_file ↦ none
    ]

-- The result of the broadcast is not read.
unfoldable pub handle_directory_recv : Network → Message → Bool → FileServer → Option FileServer
handle_directory_recv net msg is_preload s = elim (decode_dir_contents s.cache msg.body) [
  | none ↦ none
  | some (c, dirname) ↦
      elim (handle_broadcast_dir net dirname is_preload (record s { cache = c })) [
        | none ↦ none
        | some (t, ok) ↦ some t
      ]
]
