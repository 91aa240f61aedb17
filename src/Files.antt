-- ===== src/Files.antt =====
-- How a server answers for directories and files: the handlers of requests, of directories, of error
-- codes and of aliases in src/server/auditserver/ldcs_audit_server_handlers.c, over the cache and
-- over the distribution of results. `none` is a failed assertion. A receiving handler stands for
-- its part before `handle_progress`, which looks at the clients.
pub mod Directories
pub mod Results
pub mod Requests
pub mod Settled
pub mod Total
pub mod Packets
pub mod Replies
mod Tests
use spindle.Prelude.{
  ℕ, zero, suc, ◌+◌, ◌-◌, ◌^◌, List, [], ◌∷◌, ◌++◌, Bool, true, false, not, ◌&&◌, ◌||◌, ◌==◌, ltb,
  if◌then◌else◌, Option, none, some, CString, str_eq, length, take, drop,
}
use spindle.Wire.{Header, Message, le_bytes, le_value}
use spindle.Requestors.{Peer, add_requestor}
use spindle.Cache.{
  Cache, Errcode, not_there, errno, is_error, CacheResult, dir_parsed_and_exists,
  dir_parsed_and_not_exists, dir_not_parsed, file_found, file_not_found, Fileobj, obj_dso, obj_file,
  find_dir_in_cache, find_file_dir_in_cache, get_alias, get_buffer, update_alias, update_errcode,
  Listing, process_directory, encode_dir_contents, decode_dir_contents, c_string, max_path_len,
}
use spindle.Paths.{slash}
use spindle.Relay.{
  Relay, Network, handle_send_msg_to_keys, handle_send_query, request_file, request_directory,
}

-- `handle_file_result_t`
pub data HandleFileResult : Type 0 where
  found_file found_errcode no_file no_dir read_directory read_file req_directory req_file alias_to
        orig_file :
      HandleFileResult

-- What the handlers read and write: the cache, the tables, whether the server has rank 0, the
-- option OPT_STOPRELOC, and the paths of local copies and of local files.
pub record FileServer : Type 0 where
  pub cache : Cache
  pub relay : Relay
  pub responsible : Bool
  pub stop_reloc : Bool
  pub cachepath : CString
  pub normalized_tmpdir : CString
  pub local_prefixes : List CString

-- `strncmp(prefix, path, strlen(prefix)) == 0`
unfoldable pub starts_with : CString → CString → Bool
starts_with [] path = true
starts_with (x ∷ xs) [] = false
starts_with (x ∷ xs) (y ∷ ys) = x == y && starts_with xs ys

-- `ldcs_is_a_cachedfile(filename) != NULL`
unfoldable pub is_a_cachedfile : FileServer → CString → Bool
unfolding starts_with
is_a_cachedfile s filename =
    starts_with s.cachepath filename || starts_with s.normalized_tmpdir filename

unfoldable pub has_local_prefix : List CString → CString → Bool
unfolding starts_with
has_local_prefix [] path = false
has_local_prefix ([] ∷ prefixes) path = has_local_prefix prefixes path
has_local_prefix ((ch ∷ chs) ∷ prefixes) path =
    if starts_with (ch ∷ chs) path then true else has_local_prefix prefixes path

unfoldable pub is_local_prefix : CString → List CString → Bool
unfolding has_local_prefix
is_local_prefix [] prefixes = false
is_local_prefix (ch ∷ chs) prefixes =
    if ch == slash then has_local_prefix prefixes (ch ∷ chs) else false

-- `strrchr(name, '/')`: what stands before the last slash and after it.
unfoldable pub last_slash : CString → Option (CString × CString)
last_slash [] = none
last_slash (ch ∷ chs) = elim (last_slash chs) [
  | some (front, back) ↦ some (ch ∷ front, back)
  | none ↦ if ch == slash then some ([], chs) else none
]

abbrev pub dir_or_root : CString → CString
dir_or_root [] = slash ∷ []
dir_or_root (ch ∷ chs) = ch ∷ chs

-- `*file` and `*dir`, each cut to MAX_PATH_LEN - 1 bytes.
unfoldable pub parse_filename_no_alloc : CString → CString × CString
unfolding last_slash
parse_filename_no_alloc name = elim (last_slash name) [
  | some (front, back) ↦ (take (max_path_len - 1) back, dir_or_root (take (max_path_len - 1) front))
  | none ↦ (take (max_path_len - 1) name, [])
]

unfoldable pub is_found : CacheResult → Bool
is_found file_found = true
is_found _ = false

unfoldable pub is_parsed : CacheResult → Bool
is_parsed dir_parsed_and_exists = true
is_parsed dir_parsed_and_not_exists = true
is_parsed _ = false

unfoldable pub handle_howto_directory : FileServer → CString → HandleFileResult
handle_howto_directory s dir = elim (find_dir_in_cache s.cache dir) [
  | dir_parsed_and_exists ↦ found_file
  | dir_parsed_and_not_exists ↦ no_file
  | dir_not_parsed ↦ if s.responsible then read_directory else req_directory
  | file_found ↦ if s.responsible then read_directory else req_directory
  | file_not_found ↦ if s.responsible then read_directory else req_directory
]

-- The result with `*is_dso`, `*localpath`, `*alias_to` and `*errcode`.
pub record FileAnswer : Type 0 where
  pub result : HandleFileResult
  pub dso : Bool
  pub localpath : Option CString
  pub alias_of : Option CString
  pub errcode : Errcode

abbrev pub is_pointer : Option CString → Bool
is_pointer none = false
is_pointer (some path) = true

-- `found_cached_file`
unfoldable pub found_cached_file : CacheResult × Option CString × Errcode → Bool
found_cached_file (file_found, localpath, code) = is_pointer localpath || is_error code
found_cached_file (_, localpath, code) = false

-- The lookups: as a dso, and as a file if that finds nothing; with `*is_dso`.
unfoldable pub lookup_file :
    Cache → CString → CString → Bool → Bool × (CacheResult × Option CString × Errcode)
unfolding found_cached_file
lookup_file cache file dir is_dso =
    let as_dso = find_file_dir_in_cache cache file dir obj_dso in
    let as_file = find_file_dir_in_cache cache file dir obj_file in
    if not is_dso
    then (false, as_file)
    else if found_cached_file as_dso
    then (true, as_dso)
    else (not (found_cached_file as_file), as_file)

-- A file that has no entry: the state of its directory.
unfoldable pub howto_missing : FileServer → CString → HandleFileResult
howto_missing s dir = elim (handle_howto_directory s dir) [
  | found_file ↦ no_file
  | no_file ↦ no_dir
  | found_errcode ↦ found_errcode
  | no_dir ↦ no_dir
  | read_directory ↦ read_directory
  | read_file ↦ read_file
  | req_directory ↦ req_directory
  | req_file ↦ req_file
  | alias_to ↦ alias_to
  | orig_file ↦ orig_file
]

-- A file that has an entry.
unfoldable pub howto_entry :
    FileServer → CString → CString → Option CString → Errcode → HandleFileResult × Option CString
howto_entry s file dir (some localpath) code = (found_file, none)
howto_entry s file dir none code =
    let target = (get_alias s.cache file dir).1 in
    if is_error code
    then (found_errcode, none)
    else if is_pointer target
    then (alias_to, target)
    else if s.stop_reloc
    then (orig_file, none)
    else if s.responsible
    then (read_file, none)
    else (req_file, none)

unfoldable pub handle_howto_file : FileServer → CString → CString → CString → Bool → FileAnswer
unfolding howto_entry lookup_file is_found
handle_howto_file s pathname file dir is_dso =
    if is_a_cachedfile s pathname
    then record {
      result = found_errcode;
      dso = is_dso;
      localpath = none;
      alias_of = none;
      errcode = errno 0;
    }
    else if is_local_prefix pathname s.local_prefixes
    then record {
      result = orig_file;
      dso = is_dso;
      localpath = none;
      alias_of = none;
      errcode = errno 0;
    }
    else let (dso, (found, localpath, code)) = lookup_file s.cache file dir is_dso in
      let how = howto_entry s file dir localpath code in
      if is_found found
      then record {
        result = how.0;
        dso = dso;
        localpath = localpath;
        alias_of = how.1;
        errcode = code;
      }
      else record {
        result = howto_missing s dir;
        dso = dso;
        localpath = localpath;
        alias_of = none;
        errcode = code;
      }
