-- ===== src/Cache/Tests.antt =====
-- A cache with the directory "/l" and its files "." and "a".
use spindle.Prelude.{
  ℕ, List, [], ◌∷◌, if◌then◌else◌, Option, none, some, CString, str_eq, contains, All, ◌≡◌, refl,
  arith,
}
use spindle.Cache.{
  Cache, CacheEntry, empty_cache, fresh_entry, errno, put, add_directory, add_file,
  dir_parsed_and_exists, dir_parsed_and_not_exists, find_dir_in_cache, dt_reg, dt_dir, dt_other,
  Listing, cache_files, ls_and_cache_files, process_directory, encode_dir_contents,
  decode_dir_contents, change_entry, update_errcode, set_errcode,
}
use spindle.Cache.Finds.{is_known, is_listed}
use spindle.Cache.Dirs.{opens, process_directory-find_dir}
use spindle.Cache.Strings.{IsPath, IsFileName, not_empty}
use spindle.Cache.Names.{IsUnlisted}
use spindle.Cache.Packet.{decode-encode_dir_contents}
use spindle.Cache.History.{CacheCall, call_ls, call_errcode, calls, call, calls-is_known}

abbrev lib : CString
lib = 47 ∷ 108 ∷ []

abbrev dot_name : CString
dot_name = 46 ∷ []

abbrev file_a : CString
file_a = 97 ∷ []

-- "/l" has a directory ".", a file "a" and a socket "s"; nothing else can be opened.
abbrev disk : Listing
disk dir =
    if str_eq dir lib
    then some ((dt_dir, dot_name) ∷ (dt_reg, file_a) ∷ (dt_other, 115 ∷ []) ∷ [])
    else none

abbrev history : List CacheCall
history = call_ls lib ∷ call_errcode file_a lib (errno 13) ∷ []

abbrev cache_of : Option Cache → Cache
cache_of none = empty_cache
cache_of (some c) = c

abbrev known : Cache
known = cache_of (calls disk history empty_cache)

calls_succeed : calls disk history empty_cache ≡ some known
unfolding calls call ls_and_cache_files add_directory cache_files add_file put str_eq update_errcode
    change_entry set_errcode
calls_succeed = refl

calls-is_known_example : is_known (known lib file_a) ≡ is_listed (known lib []) file_a
unfolding str_eq
calls-is_known_example = calls-is_known disk history known lib file_a calls_succeed refl

process_directory-find_dir_example :
    (c' : Cache) × (process_directory disk empty_cache lib ≡ some (c', find_dir_in_cache c' lib))
    × (find_dir_in_cache c' lib
        ≡ (if opens (disk lib) then dir_parsed_and_exists else dir_parsed_and_not_exists))
process_directory-find_dir_example = process_directory-find_dir disk empty_cache lib refl

abbrev lib_entry : CacheEntry
lib_entry = record fresh_entry { direntries = dot_name ∷ file_a ∷ [] }

abbrev parsed : Cache
parsed = put empty_cache lib [] lib_entry

parsed-lib : parsed lib [] ≡ some lib_entry
unfolding put str_eq
parsed-lib = refl

lib-IsPath : IsPath lib
unfolding contains
lib-IsPath = record { no_nul = refl; short = omega arith }

names-IsFileName : All IsFileName lib_entry.direntries
unfolding contains str_eq
names-IsFileName = (
  record { is_path = record { no_nul = refl; short = omega arith }; some_name = refl },
  (record { is_path = record { no_nul = refl; short = omega arith }; some_name = refl }, tt),
)

names-IsUnlisted : IsUnlisted empty_cache lib lib_entry.direntries
unfolding str_eq
names-IsUnlisted = (refl, (refl, tt), (refl, tt, tt))

decode-encode_dir_contents_example :
    (packet : List ℕ) × (c : Cache) × (encode_dir_contents parsed lib ≡ some (some packet))
    × (decode_dir_contents empty_cache packet ≡ some (c, lib))
    × (encode_dir_contents c lib ≡ some (some packet))
    × (find_dir_in_cache c lib ≡ (
        if not_empty lib_entry.direntries
        then dir_parsed_and_exists
        else dir_parsed_and_not_exists))
decode-encode_dir_contents_example =
    decode-encode_dir_contents parsed empty_cache lib lib_entry parsed-lib lib-IsPath
      names-IsFileName refl names-IsUnlisted
