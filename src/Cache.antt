-- ===== src/Cache.antt =====
-- The server's cache of directories and files, src/server/cache/ldcs_cache.cc. The hash map is a
-- function from a directory's and a file's name to an entry; a directory stands under the empty file
-- name. A buffer is its address, 0 for NULL. `none` is a failed assertion.
pub mod Entries
pub mod Records
pub mod Finds
pub mod Dirs
pub mod Strings
pub mod Names
pub mod Packet
pub mod Known
pub mod History
mod Tests
unfoldable pub use Entries.*
unfoldable pub use Records.*
use spindle.Prelude.{
  ℕ, zero, suc, ◌+◌, ◌-◌, List, [], ◌∷◌, ◌++◌, Bool, true, false, ◌&&◌, ◌==◌, ltb, if◌then◌else◌,
  Option, none, some, CString, str_eq, length, take, drop,
}
use spindle.Wire.{le_bytes, le_value}

-- What `readdir_r` reports of each file, as far as the cache reads it.
pub data FileType : Type 0 where
  dt_lnk dt_reg dt_unknown dt_dir dt_other : FileType

abbrev pub is_kept : FileType → Bool
is_kept dt_other = false
is_kept _ = true

-- The loop over the directory stream.
unfoldable pub cache_files : Cache → CString → List (FileType × CString) → Option Cache
unfolding add_file
cache_files cache dirname [] = some cache
cache_files cache dirname ((d_type, d_name) ∷ dents) =
    let rest = λ (c : Cache). cache_files c dirname dents in
    if is_kept d_type
    then (elim (add_file cache dirname d_name) [ none ↦ none | some c ↦ rest c ])
    else rest cache

-- What `opendir` and `readdir_r` give for each path, `none` for a directory that cannot be opened.
abbrev pub Listing : Type 0
Listing = CString → Option (List (FileType × CString))

unfoldable pub ls_and_cache_files : Listing → Cache → CString → Option Cache
unfolding add_directory cache_files
ls_and_cache_files ls cache dirname = elim (ls dirname) [
  | none ↦ some (add_directory cache dirname false)
  | some dents ↦ cache_files (add_directory cache dirname true) dirname dents
]

unfoldable pub process_directory : Listing → Cache → CString → Option (Cache × CacheResult)
unfolding ls_and_cache_files find_dir_in_cache
process_directory ls cache dirname = elim (cache dirname []) [
  | some e ↦ some (cache, dir_parsed_and_exists)
  | none ↦ elim (ls_and_cache_files ls cache dirname) [
    | none ↦ none
    | some c ↦ some (c, find_dir_in_cache c dirname)
  ]
]

-- The bytes of a string with its closing NUL, after their number as an `int`.
unfoldable pub string_bytes : CString → List ℕ
string_bytes s = le_bytes 4 (suc (length s)) ++ (s ++ (0 ∷ []))

unfoldable pub name_bytes : CString → List ℕ
unfolding string_bytes
name_bytes [] = le_bytes 4 0
name_bytes (ch ∷ chs) = string_bytes (ch ∷ chs)

unfoldable pub names_bytes : List CString → List ℕ
unfolding name_bytes
names_bytes [] = []
names_bytes (name ∷ names) = name_bytes name ++ names_bytes names

abbrev pub initial_buffer_size : ℕ
initial_buffer_size = 8192

-- The directory's name must fit the first buffer, or an assertion fails; `some none` is -1.
unfoldable pub encode_dir_contents : Cache → CString → Option (Option (List ℕ))
unfolding string_bytes names_bytes
encode_dir_contents cache dir = elim (cache dir []) [
  | none ↦ some none
  | some e ↦
      if ltb (length (string_bytes dir)) initial_buffer_size
      then some (some (string_bytes dir ++ names_bytes e.direntries))
      else none
]

abbrev pub max_path_len : ℕ
max_path_len = 4096

-- The string in some bytes, if they have a NUL.
unfoldable pub c_string : List ℕ → Option CString
c_string [] = none
c_string (b ∷ bs) = elim (c_string bs) [
  | none ↦ if b == 0 then some [] else none
  | some s ↦ if b == 0 then some [] else some (b ∷ s)
]

-- An `int` at the front of the packet, and what follows it.
unfoldable pub take_int : List ℕ → Option (ℕ × List ℕ)
take_int packet =
    if ltb (length packet) 4 then none else some (le_value (take 4 packet), drop 4 packet)

-- A string of that many bytes; `str[MAX_PATH_LEN]` is set to NUL.
unfoldable pub take_string : ℕ → List ℕ → Option (CString × List ℕ)
unfolding c_string
take_string n packet =
    if ltb (length packet) n
    then none
    else (elim (c_string
        (take max_path_len (take n packet) ++ (if ltb max_path_len n then 0 ∷ [] else []))) [
          | none ↦ none
          | some s ↦ some (s, drop n packet)
        ])

-- The loop over the file names, on fuel.
unfoldable pub decode_names : ℕ → Cache → CString → List ℕ → Option Cache
decode_names fuel cache dirname [] = some cache
decode_names zero cache dirname (b ∷ packet) = none
decode_names (suc fuel) cache dirname (b ∷ packet) = elim (take_int (b ∷ packet)) [
  | none ↦ none
  | some (zero, rest) ↦ decode_names fuel cache dirname rest
  | some (suc n, rest) ↦
      if ltb (max_path_len + 1) (suc n) then none else (elim (take_string (suc n) rest) [
        | none ↦ none
        | some (filename, after) ↦ elim (add_file cache dirname filename) [
          | none ↦ none
          | some c ↦ decode_names fuel c dirname after
        ]
      ])
]

-- The new cache and the directory's name.
unfoldable pub decode_dir_contents : Cache → List ℕ → Option (Cache × CString)
decode_dir_contents cache packet = elim (take_int packet) [
  | none ↦ none
  | some (zero, rest) ↦ none
  | some (suc n, rest) ↦
      if ltb max_path_len (suc n) then none else (elim (take_string (suc n) rest) [
        | none ↦ none
        | some (dirname, after) ↦
            elim (decode_names (length after) (add_directory cache dirname (ltb 0 (length after)))
              dirname after) [ none ↦ none | some c ↦ some (c, dirname) ]
      ])
]

unfoldable pub add_file_dir : Cache → CString → CString → Option Cache
unfolding add_file
add_file_dir cache dname fname = add_file cache dname fname

-- `pickone_cache`, a set of strings.
abbrev pub PickoneCache : Type 0
PickoneCache = List CString

unfoldable pub pickone_get : PickoneCache → CString → Bool
pickone_get [] key = false
pickone_get (k ∷ keys) key = if str_eq k key then true else pickone_get keys key

unfoldable pub pickone_set : PickoneCache → CString → PickoneCache
unfolding pickone_get
pickone_set keys key = if pickone_get keys key then keys else key ∷ keys
