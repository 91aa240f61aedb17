-- ===== src/Cache/Packet.antt =====
-- A directory's packet: what one server encodes, another decodes into its own cache.
use spindle.Prelude.{
  ℕ, suc, List, [], ◌∷◌, ◌++◌, Bool, true, false, ltb, if◌then◌else◌, Option, none, some, CString,
  length, ◌≤◌, ◌≡◌, refl, ap, ◌∙◌, arith, append_assoc, length-append, All,
}
use spindle.Wire.{le_bytes, length-le_bytes}
use spindle.Cache.{
  Cache, CacheEntry, fresh_entry, not_there, put, add_directory, dir_parsed_and_exists,
  dir_parsed_and_not_exists, find_dir_in_cache, string_bytes, names_bytes, encode_dir_contents,
  max_path_len, initial_buffer_size, decode_dir_contents,
}
use spindle.Cache.Finds.{put_self, put-ne_file}
use spindle.Cache.Strings.{not_empty, IsPath, IsFileName, take_int-le_bytes, take_string-nul}
use spindle.Cache.Names.{
  add_names, names_bytes-cons, decode_names-names_bytes, IsUnlisted, add_names-direntries,
}

-- A directory that is encoded is not empty of names exactly where its entry lists some.
names_bytes_ne :
    (names : List CString)
    → All IsFileName names
    → ltb 0 (length (names_bytes names)) ≡ not_empty names
unfolding names_bytes
names_bytes_ne [] a = refl
names_bytes_ne (name ∷ names) (n, a) =
    let packet = ap length (names_bytes-cons name names n) in
    ground (
      arith,
      packet,
      length-append (le_bytes 4 (suc (length name))) ((name ++ (0 ∷ [])) ++ names_bytes names),
      length-le_bytes 4 (suc (length name)),
    )

decode_dir-add_names :
    (c : Cache) (d : CString) (names : List CString)
    → IsPath d
    → All IsFileName names
    → decode_dir_contents c (string_bytes d ++ names_bytes names)
      ≡ elim (add_names (add_directory c d (not_empty names)) d names)
          as (λ x. Option (Cache × CString)) [ none ↦ none | some c' ↦ some (c', d) ]
unfolding decode_dir_contents string_bytes
decode_dir-add_names c d names p a =
    let n = suc (length d) in
    let text = d ++ (0 ∷ []) in
    let taken = take_int-le_bytes n (text ++ names_bytes names) (omega (arith, p.short)) in
    let fits : ltb max_path_len n ≡ false = ground (arith, p.short) in
    rw
      (
        append_assoc (le_bytes 4 n) text (names_bytes names),
        decode_dir_contents,
        taken,
        fits,
        take_string-nul d (names_bytes names) p,
        names_bytes_ne names a,
        decode_names-names_bytes (length (names_bytes names)) (add_directory c d (not_empty names))
            d names a (omega arith),
      )
      refl

add_directory-fresh :
    (c : Cache) (d : CString) (exists : Bool)
    → c d [] ≡ none
    → add_directory c d exists
      ≡ put c d [] (if exists then fresh_entry else record fresh_entry { errcode = not_there })
unfolding add_directory
add_directory-fresh c d exists h = rw (add_directory, h) refl

IsUnlisted-add_directory :
    (c : Cache) (d : CString) (e : CacheEntry) (names : List CString)
    → All IsFileName names
    → IsUnlisted c d names
    → IsUnlisted (put c d [] e) d names
IsUnlisted-add_directory c d e [] a u = tt
IsUnlisted-add_directory c d e (name ∷ names) (n, a) (missing, different, u) = (
  put-ne_file c d [] name e n.some_name ∙ missing,
  different,
  IsUnlisted-add_directory c d e names a u,
)

pub fits_buffer :
    (d : CString)
    → length d ≤ max_path_len
    → ltb (length (string_bytes d)) initial_buffer_size ≡ true
unfolding string_bytes
fits_buffer d short = ground (
  arith,
  length-append (le_bytes 4 (suc (length d))) (d ++ (0 ∷ [])),
  length-append d (0 ∷ []),
  length-le_bytes 4 (suc (length d)),
)

pub encode_lem :
    (c : Cache) (d : CString) (e : CacheEntry)
    → c d [] ≡ some e
    → IsPath d
    → encode_dir_contents c d ≡ some (some (string_bytes d ++ names_bytes e.direntries))
unfolding encode_dir_contents
encode_lem c d e there p =
    rw (encode_dir_contents, there, fits_buffer d (omega (arith, p.short))) refl

-- The entry that the decoder makes for the directory.
abbrev dir_entry : List CString → CacheEntry
dir_entry names =
    record (if not_empty names then fresh_entry else record fresh_entry { errcode = not_there }) {
      direntries = names;
    }

find_dir-dir_entry :
    (c : Cache) (d : CString) (names : List CString)
    → c d [] ≡ some (dir_entry names)
    → find_dir_in_cache c d
      ≡ (if not_empty names then dir_parsed_and_exists else dir_parsed_and_not_exists)
unfolding find_dir_in_cache
find_dir-dir_entry c d [] h = rw (find_dir_in_cache, h) refl
find_dir-dir_entry c d (name ∷ names) h = rw (find_dir_in_cache, h) refl

first_names :
    (names : List CString)
    → (if not_empty names
          then fresh_entry
          else record fresh_entry { errcode = not_there }).direntries
        ++ names
      ≡ names
first_names [] = refl
first_names (name ∷ names) = refl

-- What a server encodes of a directory whose entry lists proper names, another server, whose cache
-- has neither the directory nor any of the names in it, decodes: its cache then encodes the same
-- bytes, and takes the directory for one that exists exactly if the packet has a name.
pub decode-encode_dir_contents :
    (from to : Cache) (d : CString) (e : CacheEntry)
    → from d [] ≡ some e
    → IsPath d
    → All IsFileName e.direntries
    → to d [] ≡ none
    → IsUnlisted to d e.direntries
    → (packet : List ℕ) × (c : Cache) × (encode_dir_contents from d ≡ some (some packet))
      × (decode_dir_contents to packet ≡ some (c, d))
      × (encode_dir_contents c d ≡ some (some packet))
      × (find_dir_in_cache c d
          ≡ (if not_empty e.direntries then dir_parsed_and_exists else dir_parsed_and_not_exists))
decode-encode_dir_contents from to d e there p a fresh u =
    let names = e.direntries in
    let first =
      if not_empty names then fresh_entry else record fresh_entry { errcode = not_there } in
    let (c, done, dir) =
      add_names-direntries (put to d [] first) d first names (put_self to d [] first) a
        (IsUnlisted-add_directory to d first names a u) in
    let entry : c d [] ≡ some (dir_entry names) =
      dir ∙ ap (λ l. some (record first { direntries = l })) (first_names names) in
    (
      string_bytes d ++ names_bytes names,
      c,
      encode_lem from d e there p,
      rw
          (
            decode_dir-add_names to d names p a,
            add_directory-fresh to d (not_empty names) fresh,
            done,
          )
          refl,
      encode_lem c d (dir_entry names) entry p,
      find_dir-dir_entry c d names entry,
    )
