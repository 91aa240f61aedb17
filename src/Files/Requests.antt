-- ===== src/Files/Requests.antt =====
-- The requests of other servers, `handle_request` and `handle_request_file`.
use spindle.Prelude.{
  ℕ, zero, suc, [], ◌∷◌, Bool, true, false, ◌||◌, ◌==◌, if◌then◌else◌, Option, none, some, CString,
}
use spindle.Wire.{Message}
use spindle.Requestors.{Peer, add_requestor}
use spindle.Cache.{obj_dso, obj_file, get_buffer, Listing, c_string}
use spindle.Relay.{Network, request_file, request_directory}
use spindle.Files.{
  found_file, found_errcode, no_file, no_dir, read_directory, read_file, req_directory, req_file,
  alias_to, orig_file, FileServer, parse_filename_no_alloc, handle_howto_file,
}
use spindle.Files.Directories.{handle_read_and_broadcast_dir, handle_request_directory}
use spindle.Files.Results.{handle_broadcast_errorcode, handle_broadcast_alias}

-- What `handle_request_file` ends with: its own result, or the call of a handler that reads or
-- sends the file's contents (the last has the buffer and its size).
pub data RequestEnd : Type 0 where
  request_done : Bool → RequestEnd
  then_create_selfload_file then_read_and_broadcast_file : RequestEnd
  then_broadcast_file : ℕ → ℕ → RequestEnd

unfoldable pub note_request : Bool → CString → Peer → FileServer → FileServer
note_request is_dso path from s = record s {
  relay =
      (let r = s.relay in
        if is_dso
        then record r { dso_requests = add_requestor r.dso_requests path from }
        else record r { file_requests = add_requestor r.file_requests path from });
}

-- On fuel; out of it, and where an assertion fails, the result is `none`. With the end stands
-- `is_dso`, as the lookup left it.
unfoldable pub handle_request_file :
    ℕ
    → Listing
    → Network
    → Peer
    → Bool
    → CString
    → FileServer
    → Option (FileServer × Bool × RequestEnd)
unfolding note_request
handle_request_file zero ls net from is_dso pathname s = none
handle_request_file (suc fuel) ls net from is_dso pathname s =
    let (filename, dirname) = parse_filename_no_alloc pathname in
    let answer = handle_howto_file s pathname filename dirname is_dso in
    let dso = answer.dso in
    let noted = note_request dso pathname from s in
    let again = λ (t : FileServer). handle_request_file fuel ls net from dso pathname t in
    elim answer.result [
      | found_file ↦
          elim (get_buffer s.cache dirname filename (if dso then obj_dso else obj_file)) [
            | none ↦ some (s, dso, request_done false)
            | some (buffer, size, alias_name) ↦ some (noted, dso, then_broadcast_file buffer size)
          ]
      | found_errcode ↦
          let res = handle_broadcast_errorcode net pathname answer.errcode noted in
          some (res.0, dso, request_done res.1)
      | no_file ↦ some (s, dso, then_create_selfload_file)
      | no_dir ↦ some (s, dso, then_create_selfload_file)
      | orig_file ↦ some (s, dso, then_create_selfload_file)
      | read_directory ↦ elim (handle_read_and_broadcast_dir ls net dirname s) [
        | none ↦ none
        | some (t, ok) ↦ if ok then again t else some (t, dso, request_done false)
      ]
      | read_file ↦ some (noted, dso, then_read_and_broadcast_file)
      | req_directory ↦
          let asked = request_directory net dirname from s.relay in
          some
            (record s { relay = request_file net pathname dso from asked }, dso, request_done true)
      | req_file ↦
          some (
            record s { relay = request_file net pathname dso from s.relay },
            dso,
            request_done true,
          )
      | alias_to ↦ elim answer.alias_of [
        | none ↦ none
        | some target ↦
            let res = handle_broadcast_alias net pathname target noted in
            some (res.0, dso, request_done res.1)
      ]
    ]

-- A message that is not well formed is -1.
unfoldable pub handle_request :
    ℕ → Listing → Network → Peer → Message → FileServer → Option (FileServer × Bool × RequestEnd)
handle_request fuel ls net from msg s = elim msg.body [
  | [] ↦ none
  | msg_type ∷ rest ↦ elim (c_string rest) [
    | none ↦ none
    | some pathname ↦
        if msg_type == 68
        then (elim (handle_request_directory ls net from pathname s) [
          | none ↦ none
          | some (t, ok) ↦ some (t, false, request_done ok)
        ])
        else if msg_type == 70 || msg_type == 83
        then handle_request_file fuel ls net from (msg_type == 83) pathname s
        else some (s, false, request_done false)
  ]
]
