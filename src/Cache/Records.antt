-- ===== src/Cache/Records.antt =====
-- What the cache of src/server/cache/ldcs_cache.cc answers about a file, and what is recorded of it.
use spindle.Prelude.{ℕ, [], ◌∷◌, Bool, true, false, if◌then◌else◌, Option, none, some, CString}
use spindle.Cache.Entries.{
  Errcode, is_missing, is_error, Contents, no_contents, CacheEntry, Cache, put, errno,
}

-- `ldcs_cache_result_t`
pub data CacheResult : Type 0 where
  dir_parsed_and_exists dir_parsed_and_not_exists dir_not_parsed file_found file_not_found :
      CacheResult

unfoldable pub find_dir_in_cache : Cache → CString → CacheResult
find_dir_in_cache cache dirname = elim (cache dirname []) [
  | none ↦ dir_not_parsed
  | some e ↦ if is_missing e.errcode then dir_parsed_and_not_exists else dir_parsed_and_exists
]

-- `ldcs_hash_fileobj_t`, and the contents that it picks.
pub data Fileobj : Type 0 where
  obj_dso obj_file obj_either : Fileobj

abbrev pub is_empty_path : CString → Bool
is_empty_path [] = true
is_empty_path (ch ∷ chs) = false

unfoldable pub contents_of : Fileobj → CacheEntry → Contents
contents_of obj_dso e = e.dso_contents
contents_of obj_file e = e.file_contents
contents_of obj_either e =
    if is_empty_path e.dso_contents.path then e.file_contents else e.dso_contents

-- A path as the pointer that is handed out: NULL for an empty one.
abbrev pub path_or_null : CString → Option CString
path_or_null [] = none
path_or_null (ch ∷ chs) = some (ch ∷ chs)

-- The result, `*localpath` and `*errcode`.
unfoldable pub find_file_dir_in_cache :
    Cache → CString → CString → Fileobj → CacheResult × Option CString × Errcode
unfolding contents_of
find_file_dir_in_cache cache filename dirname objt = elim (cache dirname filename) [
  | none ↦ (file_not_found, none, errno 0)
  | some e ↦ (file_found, path_or_null (contents_of objt e).path, e.errcode)
]

unfoldable pub get_alias : Cache → CString → CString → CacheResult × Option CString
get_alias cache filename dirname = elim (cache dirname filename) [
  | none ↦ (file_not_found, none)
  | some e ↦ (file_found, path_or_null e.alias)
]

unfoldable pub is_replicated : Cache → CString → CString → CacheResult × Bool
is_replicated cache filename dirname = elim (cache dirname filename) [
  | none ↦ (file_not_found, false)
  | some e ↦ (file_found, e.replication)
]

-- The updates change an entry that is there.
unfoldable pub change_entry :
    Cache → CString → CString → (CacheEntry → CacheEntry) → Cache × CacheResult
unfolding put
change_entry cache filename dirname change = elim (cache dirname filename) [
  | none ↦ (cache, file_not_found)
  | some e ↦ (put cache dirname filename (change e), file_found)
]

unfoldable pub update_alias : Cache → CString → CString → CString → Cache × CacheResult
unfolding change_entry
update_alias cache filename dirname alias_to =
    change_entry cache filename dirname (λ e. record e { alias = alias_to })

unfoldable pub update_replication : Cache → CString → CString → Bool → Cache × CacheResult
unfolding change_entry
update_replication cache filename dirname replication =
    change_entry cache filename dirname (λ e. record e { replication = replication })

abbrev pub without_path : Contents → Contents
without_path c = record c { path = [] }

unfoldable pub set_errcode : Errcode → CacheEntry → CacheEntry
set_errcode code e =
    if is_error code
    then record e {
      errcode = code;
      file_contents = without_path e.file_contents;
      dso_contents = without_path e.dso_contents;
    }
    else record e { errcode = code }

unfoldable pub update_errcode : Cache → CString → CString → Errcode → Cache × CacheResult
unfolding change_entry set_errcode
update_errcode cache filename dirname code = change_entry cache filename dirname (set_errcode code)

-- `localname` as it is stored: NULL as the empty path.
unfoldable pub set_buffer : Contents → Errcode → Bool → CacheEntry → CacheEntry
set_buffer contents code is_stripped e =
    if is_error code
    then record e { errcode = code; file_contents = no_contents; dso_contents = no_contents }
    else if is_stripped
    then record e { errcode = errno 0; dso_contents = contents }
    else record e { errcode = errno 0; file_contents = contents }

unfoldable pub update_buffer :
    Cache → CString → CString → Contents → Errcode → Bool → Cache × CacheResult
unfolding change_entry set_buffer
update_buffer cache filename dirname contents code is_stripped =
    change_entry cache filename dirname (set_buffer contents code is_stripped)

-- The buffer and its size, and the alias, which is not NULL; `none` is -1.
unfoldable pub get_buffer : Cache → CString → CString → Fileobj → Option (ℕ × ℕ × CString)
unfolding contents_of
get_buffer cache dirname filename objt = elim (cache dirname filename) [
  | none ↦ none
  | some e ↦ some ((contents_of objt e).buffer, (contents_of objt e).buffer_size, e.alias)
]
