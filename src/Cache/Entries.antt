-- ===== src/Cache/Entries.antt =====
-- The entries of src/server/cache/ldcs_cache.cc, and how one is added.
use spindle.Prelude.{
  ℕ, zero, suc, List, [], ◌∷◌, ◌++◌, Bool, true, false, ◌&&◌, if◌then◌else◌, Option, none, some,
  CString, str_eq,
}

-- The error code of an entry: -1 for a directory that is not there, or an `errno`, 0 for no error.
pub data Errcode : Type 0 where
  not_there : Errcode
  errno : ℕ → Errcode

abbrev pub is_missing : Errcode → Bool
is_missing not_there = true
is_missing (errno n) = false

abbrev pub is_error : Errcode → Bool
is_error not_there = true
is_error (errno zero) = false
is_error (errno (suc n)) = true

-- `cached_contents_t`; an empty path is none.
pub record Contents : Type 0 where
  pub path : CString
  pub buffer : ℕ
  pub buffer_size : ℕ

abbrev pub no_contents : Contents
no_contents = record { path = []; buffer = 0; buffer_size = 0 }

-- `entry_t`, under the key `path`; of the entries in `direntries` only the file names are read.
pub record CacheEntry : Type 0 where
  pub file_contents : Contents
  pub dso_contents : Contents
  pub alias : CString
  pub errcode : Errcode
  pub replication : Bool
  pub direntries : List CString

abbrev pub fresh_entry : CacheEntry
fresh_entry = record {
  file_contents = no_contents;
  dso_contents = no_contents;
  alias = [];
  errcode = errno 0;
  replication = false;
  direntries = [];
}

abbrev pub Cache : Type 0
Cache = CString → CString → Option CacheEntry

abbrev pub empty_cache : Cache
empty_cache dirname filename = none

unfoldable pub put : Cache → CString → CString → CacheEntry → Cache
put cache dirname filename e d f =
    if str_eq dirname d && str_eq filename f then some e else cache d f

unfoldable pub add_directory : Cache → CString → Bool → Cache
unfolding put
add_directory cache dirname exists = elim (cache dirname []) [
  | some e ↦ cache
  | none ↦
      put cache dirname []
        (if exists then fresh_entry else record fresh_entry { errcode = not_there })
]

-- The new entry, and its name at the end of its directory's list.
unfoldable pub add_file : Cache → CString → CString → Option Cache
unfolding put
add_file cache dirname filename = elim (cache dirname filename) [
  | some e ↦ some cache
  | none ↦
      let added = put cache dirname filename fresh_entry in
      elim (added dirname []) [
        | none ↦ none
        | some dir ↦
            some
              (put added dirname [] (record dir { direntries = dir.direntries ++ (filename ∷ []) }))
      ]
]
