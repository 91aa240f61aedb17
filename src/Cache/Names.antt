-- ===== src/Cache/Names.antt =====
-- The file names of a directory's packet, and what adding them to a cache does.
use spindle.Prelude.{
  ℕ, zero, suc, ◌+◌, ◌≤◌, List, [], ◌∷◌, ◌++◌, false, ltb, Option, none, some, CString, str_eq,
  length, ◌≡◌, refl, sym, ap, ◌∙◌, arith, Option-cases, inl, inr, append-nil, append_assoc,
  length-append, All,
}
use spindle.Wire.{le_bytes, length-le_bytes}
use spindle.Cache.{
  Cache, CacheEntry, fresh_entry, put, add_file, string_bytes, name_bytes, names_bytes,
  max_path_len, decode_names,
}
use spindle.Cache.Finds.{put_self, put-ne_file}
use spindle.Cache.Strings.{IsPath, IsFileName, take_int-le_bytes, take_string-nul}

-- The names added one after the other.
unfoldable pub add_names : Cache → CString → List CString → Option Cache
add_names c d [] = some c
add_names c d (name ∷ names) = elim (add_file c d name) [
  | none ↦ none
  | some c' ↦ add_names c' d names
]

-- One name read from the front of the packet.
pub decode_names_step :
    (fuel : ℕ) (c : Cache) (d name : CString) (rest : List ℕ)
    → IsPath name
    → decode_names (suc fuel) c d (le_bytes 4 (suc (length name)) ++ ((name ++ (0 ∷ [])) ++ rest))
      ≡ elim (add_file c d name) as (λ x. Option Cache) [
        | none ↦ none
        | some c' ↦ decode_names fuel c' d rest
      ]
unfolding le_bytes decode_names
decode_names_step fuel c d name rest p =
    let n = suc (length name) in
    let taken = take_int-le_bytes n ((name ++ (0 ∷ [])) ++ rest) (omega (arith, p.short)) in
    let fits : ltb (max_path_len + 1) n ≡ false = ground (arith, p.short) in
    rw (decode_names, taken, fits, take_string-nul name rest p) refl

pub names_bytes-cons :
    (name : CString) (names : List CString)
    → IsFileName name
    → names_bytes (name ∷ names)
      ≡ le_bytes 4 (suc (length name)) ++ ((name ++ (0 ∷ [])) ++ names_bytes names)
unfolding names_bytes name_bytes string_bytes str_eq
names_bytes-cons [] names n = ground (arith, n.some_name)
names_bytes-cons (ch ∷ chs) names n =
    append_assoc (le_bytes 4 (suc (suc (length chs)))) ((ch ∷ chs) ++ (0 ∷ [])) (names_bytes names)

pub decode_names-names_bytes :
    (fuel : ℕ) (c : Cache) (d : CString) (names : List CString)
    → All IsFileName names
    → length (names_bytes names) ≤ fuel
    → decode_names fuel c d (names_bytes names) ≡ add_names c d names
unfolding add_names
decode_names-names_bytes zero c d [] a h = unfold names_bytes decode_names in refl
decode_names-names_bytes (suc fuel) c d [] a h = unfold names_bytes decode_names in refl
decode_names-names_bytes zero c d (name ∷ names) (n, a) h =
    let packet = ap length (names_bytes-cons name names n) in
    absurd (
      omega (
        arith,
        packet,
        length-append (le_bytes 4 (suc (length name))) ((name ++ (0 ∷ [])) ++ names_bytes names),
        length-le_bytes 4 (suc (length name)),
      ))
decode_names-names_bytes (suc fuel) c d (name ∷ names) (n, a) h =
    let text = (name ++ (0 ∷ [])) ++ names_bytes names in
    let shorter : length (names_bytes names) ≤ fuel = omega (
      arith,
      ap length (names_bytes-cons name names n),
      length-append (le_bytes 4 (suc (length name))) text,
      length-le_bytes 4 (suc (length name)),
      length-append (name ++ (0 ∷ [])) (names_bytes names),
    ) in
    rw
      (names_bytes-cons name names n, decode_names_step fuel c d name (names_bytes names) n.is_path)
      (elim (Option-cases (add_file c d name)) [
        | inl e ↦ rw (add_names, e) refl
        | inr (c', e) ↦ rw (add_names, e) (decode_names-names_bytes fuel c' d names a shorter)
      ])

-- Names that have no entry in a directory, and are all different.
abbrev pub IsUnlisted : Cache → CString → List CString → Type 0
IsUnlisted c d [] = Unit
IsUnlisted c d (name ∷ names) =
    (c d name ≡ none) × All (λ other. str_eq name other ≡ false) names × IsUnlisted c d names

pub IsUnlisted-put :
    (c : Cache) (d name : CString) (e e' : CacheEntry) (names : List CString)
    → All IsFileName names
    → All (λ other. str_eq name other ≡ false) names
    → IsUnlisted c d names
    → IsUnlisted (put (put c d name e) d [] e') d names
IsUnlisted-put c d name e e' [] a ne u = tt
IsUnlisted-put c d name e e' (next ∷ names) (n, a) (now, ne) (missing, different, u) = (
  put-ne_file (put c d name e) d [] next e' n.some_name ∙ put-ne_file c d name next e now ∙ missing,
  different,
  IsUnlisted-put c d name e e' names a ne u,
)

pub some_name_ne : (s : CString) → str_eq [] s ≡ false → str_eq s [] ≡ false
unfolding str_eq
some_name_ne [] h = h
some_name_ne (ch ∷ s) h = refl

-- The cache with one more file in a directory that is there.
abbrev pub with_file : Cache → CString → CString → CacheEntry → Cache
with_file c d name e =
    put (put c d name fresh_entry) d [] (record e { direntries = e.direntries ++ (name ∷ []) })

pub add_file-with_file :
    (c : Cache) (d name : CString) (e : CacheEntry)
    → c d [] ≡ some e
    → c d name ≡ none
    → str_eq name [] ≡ false
    → add_file c d name ≡ some (with_file c d name e)
unfolding add_file
add_file-with_file c d name e there missing ne =
    let dir : put c d name fresh_entry d [] ≡ some e =
      put-ne_file c d name [] fresh_entry ne ∙ there in
    rw (add_file, missing, dir) refl

pub add_names-direntries :
    (c : Cache) (d : CString) (e : CacheEntry) (names : List CString)
    → c d [] ≡ some e
    → All IsFileName names
    → IsUnlisted c d names
    → (c' : Cache) × (add_names c d names ≡ some c')
      × (c' d [] ≡ some (record e { direntries = e.direntries ++ names }))
unfolding add_names
add_names-direntries c d e [] there a u =
    (c, refl, there ∙ ap (λ l. some (record e { direntries = l })) (sym (append-nil e.direntries)))
add_names-direntries c d e (name ∷ names) there (n, a) (missing, different, u) =
    let added = add_file-with_file c d name e there missing (some_name_ne name n.some_name) in
    let e' = record e { direntries = e.direntries ++ (name ∷ []) } in
    let (c', done, dir) =
      add_names-direntries (with_file c d name e) d e' names
        (put_self (put c d name fresh_entry) d [] e') a
        (IsUnlisted-put c d name fresh_entry e' names a different u) in
    (
      c',
      rw (add_names, added) done,
      dir
          ∙ ap (λ l. some (record e { direntries = l }))
              (append_assoc e.direntries (name ∷ []) names),
    )
