-- ===== src/Localnames.antt =====
-- The names of local copies: `filemngt_calc_localname` of
-- src/server/auditserver/ldcs_audit_server_filemngt.c, which makes them, and
-- src/server/cache/global_name.c, which finds the original path again. The sizes of the array are not
-- cut to an int, which some hundred million files would exceed.
pub mod Make
pub mod Digits
pub mod Parts
pub mod Found
pub mod Grow
pub mod History
mod Tests
unfoldable pub use Make.*
use spindle.Prelude.{
  ℕ, zero, suc, ◌+◌, ◌-◌, ◌*◌, ◌/◌, ◌%◌, ◌^◌, List, [], ◌∷◌, ◌++◌, Option, none, some, Bool, true,
  false, not, ◌==◌, ◌&&◌, ◌||◌, ltb, leb, if◌then◌else◌, CString, str_eq, length, take, drop,
}
use spindle.Cache.{max_path_len}
use spindle.Paths.{slash}

abbrev pub initial_array_size : ℕ
initial_array_size = 10 * 1024

unfoldable pub init_global_name_list : CString → CString → LocalNames
init_global_name_list cachepath normalized_tmpdir = record {
  cachepath = cachepath;
  normalized_tmpdir = normalized_tmpdir;
  unique_str_num = 0;
  array_size = initial_array_size;
  hiwat = initial_array_size * 8 / 10;
  max_index = 0;
  global_names = λ index. none;
}

-- The numbers are `int`; `newsize * 8` fits one while the array has less than 2^27 names.
unfoldable pub grow_global_name_list : LocalNames → LocalNames
grow_global_name_list s = record s {
  hiwat = s.array_size * 2 * 8 / 10;
  array_size = s.array_size * 2;
}

-- `strncmp(prefix, name, strlen(prefix)) == 0`
unfoldable pub has_prefix : CString → CString → Bool
unfolding str_eq
has_prefix prefix name = str_eq (take (length prefix) name) prefix

-- `ldcs_is_a_cachedfile`, but what follows the cache path, at whose second byte its result points.
unfoldable pub after_cachepath : LocalNames → CString → Option CString
unfolding has_prefix
after_cachepath s filename =
    if has_prefix s.cachepath filename
    then some (drop (length s.cachepath) filename)
    else if has_prefix s.normalized_tmpdir filename
    then some (drop (length s.normalized_tmpdir) filename)
    else none

-- Steps back from there unless it is a slash; `none` where it lies past the end of the name.
unfoldable pub global_part : CString → Option CString
global_part [] = none
global_part (c ∷ []) = some (c ∷ [])
global_part (c ∷ d ∷ rest) = some (if d == slash then d ∷ rest else c ∷ d ∷ rest)

unfoldable pub file_of : CString → CString
unfolding split_last
file_of dname = elim (split_last dname) [ none ↦ dname | some parts ↦ parts.1 ]

-- `strchr(name, '-')`, empty for NULL.
unfoldable pub from_dash : CString → CString
from_dash [] = []
from_dash (c ∷ name) = if c == dash then c ∷ name else from_dash name

-- The value of a character for which `isxdigit` holds.
unfoldable pub hex_value : ℕ → Option ℕ
hex_value c =
    if leb 48 c && leb c 57
    then some (c - 48)
    else if leb 97 c && leb c 102
    then some (c - 87)
    else if leb 65 c && leb c 70
    then some (c - 55)
    else none

-- The loop of `get_global_file_index` and its conversion, from a byte on that is the first or not.
unfoldable pub scan_index : Bool → ℕ → CString → Option ℕ
unfolding hex_value
scan_index first index [] = if first then none else some index
scan_index first index (c ∷ file) =
    if c == dash && not first then some index else elim (hex_value c) [
      | none ↦ none
      | some digit ↦ scan_index false (index * 16 + digit) file
    ]

-- `%x` into an int, as glibc converts it; a negative one is no index.
unfoldable pub int_of : ℕ → Option ℕ
int_of value =
    let low = (if ltb value (2 ^ 64) then value else 2 ^ 64 - 1) % 2 ^ 32 in
    if ltb low (2 ^ 31) then some low else none

unfoldable pub get_global_file_index : CString → Option ℕ
unfolding scan_index int_of
get_global_file_index file =
    if ltb (length file) (max_path_len + 1)
    then elim (scan_index true 0 file) [ none ↦ none | some value ↦ int_of value ]
    else none

unfoldable pub index_of : CString → ℕ → Option ℕ
unfolding from_dash get_global_file_index str_eq
index_of fname size =
    if str_eq (take 11 (from_dash fname)) (dash ∷ spindlens)
    then elim (get_global_file_index fname) [
      | none ↦ none
      | some index ↦ if ltb (10 * size) index then none else some index
    ]
    else none

-- The global part of the name and its index, where it has them; `none` for a read past its end.
unfoldable pub parse_name : LocalNames → CString → Option (Option CString × Option ℕ)
unfolding after_cachepath global_part file_of index_of
parse_name s localpath = elim (after_cachepath s localpath) [
  | none ↦ some (none, none)
  | some part ↦ elim (global_part part) [
    | none ↦ none
    | some dname ↦ some (some dname, index_of (file_of dname) s.array_size)
  ]
]

-- Four rounds are enough for an index that `parse_name` gives.
unfoldable pub grow_until : ℕ → ℕ → LocalNames → LocalNames
unfolding grow_global_name_list
grow_until zero index s = s
grow_until (suc fuel) index s =
    let t = grow_until fuel index (grow_global_name_list s) in if ltb s.hiwat index then t else s

unfoldable pub put_name : CString → ℕ → LocalNames → LocalNames
put_name pathname index s = record s {
  max_index = if leb s.max_index index then index else s.max_index;
  global_names = λ i.
      if i == index
      then elim (s.global_names index) [ some old ↦ some old | none ↦ some pathname ]
      else s.global_names i;
}

unfoldable pub add_index : CString → Option ℕ → LocalNames → LocalNames
unfolding grow_until put_name
add_index pathname none s = s
add_index pathname (some index) s = put_name pathname index (grow_until 4 index s)

unfoldable pub add_global_name : CString → CString → LocalNames → Option LocalNames
unfolding parse_name add_index
add_global_name pathname localpath s = elim (parse_name s localpath) [
  | none ↦ none
  | some parsed ↦ some (add_index pathname parsed.1 s)
]

unfoldable pub name_at : LocalNames → Option ℕ → Option CString
name_at s none = none
name_at s (some index) = if leb index s.max_index then s.global_names index else none

unfoldable pub found_name : LocalNames → Option CString × Option ℕ → Option CString
unfolding name_at
found_name s (none, index) = none
found_name s (some dname, index) = elim (name_at s index) [
  | some name ↦ some name
  | none ↦ some (take max_path_len dname)
]

unfoldable pub lookup_global_name : CString → LocalNames → Option (Option CString)
unfolding parse_name found_name
lookup_global_name localpath s = elim (parse_name s localpath) [
  | none ↦ none
  | some parsed ↦ some (found_name s parsed)
]

-- What the server does for a file that it stores: the name of the copy, noted for its path.
unfoldable pub name_file : CString → CalcLocal → LocalNames → Option (CString × LocalNames)
unfolding calc_localname add_global_name
name_file pathname reqtype s = elim (calc_localname pathname reqtype s) [
  | none ↦ none
  | some named ↦ elim (add_global_name pathname named.0 named.1) [
    | none ↦ none
    | some t ↦ some (named.0, t)
  ]
]
