-- ===== src/Files/Settled.antt =====
-- A request for a file reads at most one directory.
use spindle.Prelude.{
  [], Bool, true, false, if◌then◌else◌, Option, none, some, CString, ◌≡◌, refl, arith, Option-cases,
  inl, inr, length, ◌≤◌, ◌++◌,
}
use spindle.Cache.{
  Cache, dir_parsed_and_exists, dir_parsed_and_not_exists, dir_not_parsed, find_dir_in_cache,
  Listing, Errcode, max_path_len, encode_dir_contents, string_bytes, names_bytes,
}
use spindle.Cache.Packet.{fits_buffer}
use spindle.Cache.Dirs.{process_directory-find_dir, opens}
use spindle.Relay.{Network}
use spindle.Files.{
  HandleFileResult, read_directory, req_directory, alias_to, FileServer, handle_howto_directory,
  handle_howto_file, howto_missing, howto_entry, is_parsed, is_pointer, lookup_file,
}
use spindle.Files.Directories.{
  handle_read_directory, handle_broadcast_dir, handle_read_and_broadcast_dir, send_to_keys,
  message_of, ldcs_msg_preload_dir, ldcs_msg_cache_entries,
}

-- The results for which a directory is read first, or asked for.
unfoldable pub needs_directory : HandleFileResult → Bool
needs_directory read_directory = true
needs_directory req_directory = true
needs_directory _ = false

pub howto_entry_lem :
    (s : FileServer) (file dir : CString) (localpath : Option CString) (code : Errcode)
    → needs_directory (howto_entry s file dir localpath code).0 ≡ false
unfolding howto_entry needs_directory
howto_entry_lem s file dir (some path) code = refl
howto_entry_lem s file dir none code = ground arith

howto_missing_lem :
    (s : FileServer) (dir : CString)
    → is_parsed (find_dir_in_cache s.cache dir) ≡ true
    → needs_directory (howto_missing s dir) ≡ false
unfolding howto_missing needs_directory handle_howto_directory is_parsed
howto_missing_lem s dir parsed = ground arith

-- With its directory in the cache, a file needs none.
pub howto_file_settled :
    (s : FileServer) (pathname file dir : CString) (is_dso : Bool)
    → is_parsed (find_dir_in_cache s.cache dir) ≡ true
    → needs_directory (handle_howto_file s pathname file dir is_dso).result ≡ false
unfolding handle_howto_file needs_directory
howto_file_settled s pathname file dir is_dso parsed =
    let (dso, (found, localpath, code)) = lookup_file s.cache file dir is_dso in
    ground (arith, howto_missing_lem s dir parsed, howto_entry_lem s file dir localpath code)

-- A directory that is not parsed has no entry.
not_parsed_none :
    (c : Cache) (dir : CString) → find_dir_in_cache c dir ≡ dir_not_parsed → c dir [] ≡ none
unfolding find_dir_in_cache
not_parsed_none c dir e = elim (Option-cases (c dir [])) [
  | inl absent ↦ absent
  | inr (entry, there) ↦ ground (arith)
]

opens_parsed :
    (b : Bool) → is_parsed (if b then dir_parsed_and_exists else dir_parsed_and_not_exists) ≡ true
unfolding is_parsed
opens_parsed true = refl
opens_parsed false = refl

-- Reading a directory that is not parsed works, and then it is.
pub read_directory_parsed :
    (ls : Listing) (dir : CString) (s : FileServer)
    → find_dir_in_cache s.cache dir ≡ dir_not_parsed
    → (c : Cache) × (handle_read_directory ls dir s ≡ some (record s { cache = c }, true))
      × (is_parsed (find_dir_in_cache c dir) ≡ true)
unfolding handle_read_directory
read_directory_parsed ls dir s fresh =
    let (c, processed, found) =
      process_directory-find_dir ls s.cache dir (not_parsed_none s.cache dir fresh) in
    let parsed : is_parsed (find_dir_in_cache c dir) ≡ true =
      rw found (opens_parsed (opens (ls dir))) in
    (c, rw (handle_read_directory, fresh, processed, parsed) refl, parsed)

-- With room for its name in the buffer, a directory is broadcast, or -1 returned.
broadcast_dir_returns :
    (net : Network) (dir : CString) (is_preload : Bool) (s : FileServer)
    → length dir ≤ max_path_len
    → (t : FileServer) × (ok : Bool) × (handle_broadcast_dir net dir is_preload s ≡ some (t, ok))
      × (t.cache ≡ s.cache)
unfolding handle_broadcast_dir send_to_keys encode_dir_contents
broadcast_dir_returns net dir is_preload s short = elim (Option-cases (s.cache dir [])) [
  | inl absent ↦ (s, false, rw (handle_broadcast_dir, encode_dir_contents, absent) refl, refl)
  | inr (e, there) ↦
      let msg =
        message_of (if is_preload then ldcs_msg_preload_dir else ldcs_msg_cache_entries)
          (string_bytes dir ++ names_bytes e.direntries) in
      let res = send_to_keys net msg dir is_preload s in
      (
        res.0,
        res.1,
        rw (handle_broadcast_dir, encode_dir_contents, there, fits_buffer dir short) refl,
        refl,
      )
]

pub read_and_broadcast_parsed :
    (ls : Listing) (net : Network) (dir : CString) (s : FileServer)
    → length dir ≤ max_path_len
    → find_dir_in_cache s.cache dir ≡ dir_not_parsed
    → (t : FileServer) × (ok : Bool) × (handle_read_and_broadcast_dir ls net dir s ≡ some (t, ok))
      × (is_parsed (find_dir_in_cache t.cache dir) ≡ true)
unfolding handle_read_and_broadcast_dir
read_and_broadcast_parsed ls net dir s short fresh =
    let (c, done, parsed) = read_directory_parsed ls dir s fresh in
    let t = record s { cache = c } in
    let (u, ok, sent, same) = broadcast_dir_returns net dir false t short in
    (u, ok, rw (handle_read_and_broadcast_dir, done) sent, rw same parsed)

-- A directory is read only if it is not parsed.
pub howto_missing_read :
    (s : FileServer) (dir : CString)
    → howto_missing s dir ≡ read_directory
    → is_parsed (find_dir_in_cache s.cache dir) ≡ false
unfolding howto_missing handle_howto_directory is_parsed
howto_missing_read s dir e = ground arith

pub find_dir_states :
    (c : Cache) (dir : CString)
    → is_parsed (find_dir_in_cache c dir) ≡ false
    → find_dir_in_cache c dir ≡ dir_not_parsed
unfolding find_dir_in_cache is_parsed
find_dir_states c dir e = ground arith

pub alias_entry_lem :
    (s : FileServer) (file dir : CString) (localpath : Option CString) (code : Errcode)
    → (howto_entry s file dir localpath code).0 ≡ alias_to
    → is_pointer (howto_entry s file dir localpath code).1 ≡ true
unfolding howto_entry
alias_entry_lem s file dir (some path) code e = cc
alias_entry_lem s file dir none code e = ground arith
