-- ===== src/Files/Results.antt =====
-- The messages by which servers pass on error codes and aliases.
use spindle.Prelude.{
  ℕ, ◌+◌, ◌-◌, ◌^◌, List, [], ◌∷◌, ◌++◌, Bool, false, ◌==◌, if◌then◌else◌, none, some, CString,
  length, take, drop,
}
use spindle.Wire.{Message, le_bytes, le_value}
use spindle.Cache.{Errcode, not_there, errno, update_alias, update_errcode, c_string}
use spindle.Relay.{Network}
use spindle.Files.{FileServer, parse_filename_no_alloc}
use spindle.Files.Directories.{
  Handled, ldcs_msg_file_errcode, ldcs_msg_alias, message_of, send_to_keys,
}

-- The bytes of an error code, -1 as a signed `int`.
unfoldable pub errcode_bytes : Errcode → List ℕ
errcode_bytes not_there = le_bytes 4 (2 ^ 32 - 1)
errcode_bytes (errno n) = le_bytes 4 n

unfoldable pub errcode_of_bytes : List ℕ → Errcode
errcode_of_bytes bs = if le_value bs == 2 ^ 32 - 1 then not_there else errno (le_value bs)

unfoldable pub errorcode_message : CString → Errcode → Message
unfolding errcode_bytes
errorcode_message pathname code =
    message_of ldcs_msg_file_errcode
      (errcode_bytes code ++ (le_bytes 4 (length pathname + 1) ++ (pathname ++ (0 ∷ []))))

unfoldable pub handle_broadcast_errorcode :
    Network → CString → Errcode → FileServer → FileServer × Bool
unfolding send_to_keys
handle_broadcast_errorcode net pathname code s =
    send_to_keys net (errorcode_message pathname code) pathname false s

-- A string that does not end within the message is none.
unfoldable pub handle_file_errcode : Network → Message → FileServer → Handled
unfolding errcode_of_bytes
handle_file_errcode net msg s =
    let code = errcode_of_bytes (take 4 msg.body) in
    let pathname_len = le_value (take 4 (drop 4 msg.body)) in
    elim (c_string (drop 8 msg.body)) [
      | none ↦ none
      | some pathname ↦
          let (filename, dirname) = parse_filename_no_alloc pathname in
          let c = (update_errcode s.cache filename dirname code).0 in
          if 8 + pathname_len == msg.header.len
          then some (handle_broadcast_errorcode net pathname code (record s { cache = c }))
          else none
    ]

unfoldable pub alias_message : CString → CString → Message
alias_message alias_from alias_name =
    message_of ldcs_msg_alias ((alias_from ++ (0 ∷ [])) ++ (alias_name ++ (0 ∷ [])))

unfoldable pub handle_broadcast_alias : Network → CString → CString → FileServer → FileServer × Bool
unfolding send_to_keys
handle_broadcast_alias net alias_from alias_name s =
    send_to_keys net (alias_message alias_from alias_name) alias_from false s

unfoldable pub handle_alias_recv : Network → Message → FileServer → Handled
handle_alias_recv net msg s = elim (c_string msg.body) [
  | none ↦ none
  | some alias_from ↦ elim (c_string (drop (length alias_from + 1) msg.body)) [
    | none ↦ none
    | some alias_name ↦
        let (filename, dirname) = parse_filename_no_alloc alias_from in
        let c = (update_alias s.cache filename dirname alias_name).0 in
        some (handle_broadcast_alias net alias_from alias_name (record s { cache = c }))
  ]
]
