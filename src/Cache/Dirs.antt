-- ===== src/Cache/Dirs.antt =====
-- Reading a directory into the cache.
use spindle.Prelude.{
  List, [], ◌∷◌, ◌++◌, Bool, true, false, not, if◌then◌else◌, Option, none, some, CString, str_eq,
  str_eq_iff, ◌≡◌, refl, sym, ap, ◌∙◌, arith, Bool-cases, Option-cases, inl, inr,
}
use mathlib.Core.Path.{subst}
use spindle.Cache.{
  Cache, CacheEntry, fresh_entry, put, add_directory, add_file, CacheResult, dir_parsed_and_exists,
  dir_parsed_and_not_exists, find_dir_in_cache, FileType, is_kept, cache_files, Listing,
  ls_and_cache_files, process_directory, is_missing,
}
use spindle.Cache.Finds.{put_self, put-ne_file, is_there, is_new, no_dir, add_file-cases}
use spindle.Cache.Known.{AllListed, some_eq, add_file-AllListed}

-- What adding files to a directory keeps of its entry, which is there.
record IsParsed (missing : Bool) (c : Cache) (d : CString) : Type 0 where
  entry : CacheEntry
  is_entry : c d [] ≡ some entry
  known_missing : is_missing entry.errcode ≡ missing

-- The directory's entry is not the one that is added.
untouched :
    (c : Cache) (d f : CString) (e : CacheEntry)
    → c d [] ≡ some e
    → c d f ≡ none
    → put c d f fresh_entry d [] ≡ some e
untouched c d f e there missing = elim (Bool-cases (str_eq f [])) [
  | inr ne ↦ put-ne_file c d f [] fresh_entry ne ∙ there
  | inl is_dir ↦
      let both : some e ≡ none =
        sym there ∙ subst (λ n. c d n ≡ none) ((str_eq_iff f []).0 is_dir) missing in
      cc
]

add_file-IsParsed :
    (missing : Bool) (c : Cache) (d f : CString)
    → IsParsed missing c d
    → (c' : Cache) × (add_file c d f ≡ some c') × IsParsed missing c' d
add_file-IsParsed missing c d f p = elim (add_file-cases c d f) [
  | is_there e k r ↦ (c, r, p)
  | no_dir k l r ↦
      let both = untouched c d f p.entry p.is_entry k in
      let wrong : none ≡ some p.entry = sym l ∙ both in cc
  | is_new dir k l r ↦
      let both : some dir ≡ some p.entry = sym l ∙ untouched c d f p.entry p.is_entry k in
      let same : dir ≡ p.entry = ground arith in
      (
        _,
        r,
        record {
          entry = record dir { direntries = dir.direntries ++ (f ∷ []) };
          is_entry = put_self (put c d f fresh_entry) d [] _;
          known_missing = ap (λ e. is_missing e.errcode) same ∙ p.known_missing;
        },
      )
]

cache_files-IsParsed :
    (missing : Bool) (c : Cache) (d : CString) (dents : List (FileType × CString))
    → IsParsed missing c d
    → (c' : Cache) × (cache_files c d dents ≡ some c') × IsParsed missing c' d
unfolding cache_files
cache_files-IsParsed missing c d [] p = (c, refl, p)
cache_files-IsParsed missing c d ((d_type, d_name) ∷ dents) p = elim (Bool-cases (is_kept d_type)) [
  | inr skipped ↦ rw (cache_files, skipped) (cache_files-IsParsed missing c d dents p)
  | inl kept ↦
      let (next, added, q) = add_file-IsParsed missing c d d_name p in
      rw (cache_files, kept, added) (cache_files-IsParsed missing next d dents q)
]

added_dir-IsParsed :
    (c : Cache) (d : CString) (exists : Bool)
    → c d [] ≡ none
    → IsParsed (not exists) (add_directory c d exists) d
unfolding add_directory
added_dir-IsParsed c d true fresh =
    rw (add_directory, fresh)
      (record { entry = _; is_entry = put_self c d [] _; known_missing = refl })
added_dir-IsParsed c d false fresh =
    rw (add_directory, fresh)
      (record { entry = _; is_entry = put_self c d [] _; known_missing = refl })

-- What a lookup of the directory then answers.
dir_state : Bool → CacheResult
dir_state true = dir_parsed_and_not_exists
dir_state false = dir_parsed_and_exists

find_dir-IsParsed :
    (missing : Bool) (c : Cache) (d : CString)
    → IsParsed missing c d
    → find_dir_in_cache c d ≡ dir_state missing
unfolding find_dir_in_cache dir_state
find_dir-IsParsed true c d p = rw (find_dir_in_cache, p.is_entry, p.known_missing) refl
find_dir-IsParsed false c d p = rw (find_dir_in_cache, p.is_entry, p.known_missing) refl

-- Whether the operating system opens a directory.
unfoldable pub opens : Option (List (FileType × CString)) → Bool
opens none = false
opens (some dents) = true

-- A directory that is not in the cache is read without a failed assertion; then the cache knows
-- whether the directory could be opened, and answers so from then on.
pub process_directory-find_dir :
    (ls : Listing) (c : Cache) (d : CString)
    → c d [] ≡ none
    → (c' : Cache) × (process_directory ls c d ≡ some (c', find_dir_in_cache c' d))
      × (find_dir_in_cache c' d
          ≡ (if opens (ls d) then dir_parsed_and_exists else dir_parsed_and_not_exists))
unfolding process_directory ls_and_cache_files opens dir_state
process_directory-find_dir ls c d fresh = elim (Option-cases (ls d)) [
  | inl closed ↦
      let p = added_dir-IsParsed c d false fresh in
      (
        add_directory c d false,
        rw (process_directory, fresh, ls_and_cache_files, closed) refl,
        rw closed (find_dir-IsParsed true (add_directory c d false) d p),
      )
  | inr (dents, opened) ↦
      let (c', done, q) =
        cache_files-IsParsed false (add_directory c d true) d dents
          (added_dir-IsParsed c d true fresh) in
      (
        c',
        rw (process_directory, fresh, ls_and_cache_files, opened, done) refl,
        rw opened (find_dir-IsParsed false c' d q),
      )
]

pub cache_files-AllListed :
    (c c' : Cache) (d : CString) (dents : List (FileType × CString))
    → AllListed c
    → cache_files c d dents ≡ some c'
    → AllListed c'
unfolding cache_files
cache_files-AllListed c c' d [] h e = subst AllListed (some_eq e) h
cache_files-AllListed c c' d ((d_type, d_name) ∷ dents) h e = elim (Bool-cases (is_kept d_type)) [
  | inr skipped ↦ cache_files-AllListed c c' d dents h (rw (cache_files, skipped) at e)
  | inl kept ↦ elim (Option-cases (add_file c d d_name)) [
    | inl failed ↦ ground (arith, e, kept, failed)
    | inr (next, added) ↦
        cache_files-AllListed next c' d dents (add_file-AllListed c next d d_name h added)
          (ground (arith, e, kept, added))
  ]
]
