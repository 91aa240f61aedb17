-- ===== src/Cache/Known.antt =====
-- Every directory's entry lists exactly the files of the directory that have an entry.
use spindle.Prelude.{
  [], ◌∷◌, ◌++◌, Bool, true, false, ◌||◌, if◌then◌else◌, Option, none, some, CString, str_eq,
  str_eq_iff, ◌≡◌, refl, sym, ap, ◌∙◌, arith, Bool-cases, Option-cases, inl, inr,
}
use mathlib.Core.Path.{subst}
use spindle.Cache.{
  Cache, CacheEntry, fresh_entry, not_there, put, add_directory, add_file, change_entry,
}
use spindle.Cache.Finds.{
  put_self, put-ne_file, put-ne_dir, is_known, lists_name, is_listed, lists_name-append, is_there,
  is_new, no_dir, add_file-cases,
}

abbrev pub AllListed : Cache → Type 0
AllListed c = (d f : CString) → str_eq f [] ≡ false → is_known (c d f) ≡ is_listed (c d []) f

empty_ne : (f : CString) → str_eq f [] ≡ false → str_eq [] f ≡ false
unfolding str_eq
empty_ne [] h = h
empty_ne (ch ∷ f) h = refl

-- A write under a directory's own key that keeps what is listed.
put_dir-AllListed :
    (c : Cache) (d : CString) (e : CacheEntry)
    → AllListed c
    → ((f : CString) → str_eq f [] ≡ false → is_known (c d f) ≡ is_listed (some e) f)
    → AllListed (put c d [] e)
put_dir-AllListed c d e h same d' f ne = elim (Bool-cases (str_eq d d')) [
  | inr other ↦ rw (put-ne_dir c d [] d' f e other, put-ne_dir c d [] d' [] e other) (h d' f ne)
  | inl this ↦
      rw (← (str_eq_iff d d').0 this, put-ne_file c d [] f e (empty_ne f ne), put_self c d [] e)
        (same f ne)
]

-- A write under the key of a file that is there already.
put_file-AllListed :
    (c : Cache) (d f : CString) (e : CacheEntry)
    → AllListed c
    → is_known (c d f) ≡ true
    → str_eq f [] ≡ false
    → AllListed (put c d f e)
unfolding is_known
put_file-AllListed c d f e h there ne d' g gn = elim (Bool-cases (str_eq d d')) [
  | inr other ↦ rw (put-ne_dir c d f d' g e other, put-ne_dir c d f d' [] e other) (h d' g gn)
  | inl this ↦
      rw (← (str_eq_iff d d').0 this, put-ne_file c d f [] e ne)
        (elim (Bool-cases (str_eq f g)) [
          | inr other ↦ rw (put-ne_file c d f g e other) (h d g gn)
          | inl same ↦ rw (← (str_eq_iff f g).0 same, put_self c d f e) (sym there ∙ h d f ne)
        ])
]

no_names :
    (c : Cache) (d f : CString) (exists : Bool)
    → c d [] ≡ none
    → is_listed (c d []) f
      ≡ is_listed
          (some (if exists then fresh_entry else record fresh_entry { errcode = not_there }))
          f
unfolding is_listed lists_name
no_names c d f true h = rw h refl
no_names c d f false h = rw h refl

pub add_directory-AllListed :
    (c : Cache) (d : CString) (exists : Bool) → AllListed c → AllListed (add_directory c d exists)
unfolding add_directory
add_directory-AllListed c d exists h = elim (Option-cases (c d [])) [
  | inr (e, there) ↦ rw (add_directory, there) h
  | inl fresh ↦
      rw (add_directory, fresh)
        (put_dir-AllListed c d _ h (λ f ne. h d f ne ∙ no_names c d f exists fresh))
]

pub some_eq : {c c' : Cache} → Path (Option Cache) (some c) (some c') → c ≡ c'
some_eq h = cc

or_true : (b : Bool) → (b || true) ≡ true
or_true true = refl
or_true false = refl

or_false : (b : Bool) → (b || false) ≡ b
or_false true = refl
or_false false = refl

names_of_fresh : (g : CString) → false ≡ lists_name fresh_entry.direntries g
unfolding lists_name
names_of_fresh g = refl

-- What the directory listed before a file is added to it.
listed_before :
    (c : Cache) (d f g : CString) (dir : CacheEntry)
    → c d f ≡ none
    → put c d f fresh_entry d [] ≡ some dir
    → is_listed (c d []) g ≡ lists_name dir.direntries g
unfolding is_listed
listed_before c d f g dir k l = elim (Bool-cases (str_eq f [])) [
  | inr ne ↦
      let there : c d [] ≡ some dir = sym (put-ne_file c d f [] fresh_entry ne) ∙ l in rw there refl
  | inl e ↦
      let none_yet : c d [] ≡ none = subst (λ n. c d n ≡ none) ((str_eq_iff f []).0 e) k in
      let same : some fresh_entry ≡ some dir =
        sym (
          subst (λ n. put c d n fresh_entry d n ≡ some fresh_entry) ((str_eq_iff f []).0 e)
            (put_self c d f fresh_entry))
        ∙ subst (λ n. put c d n fresh_entry d [] ≡ some dir) ((str_eq_iff f []).0 e) l in
      let fresh : fresh_entry ≡ dir = ground arith in rw (none_yet, ← fresh) (names_of_fresh g)
]

-- The names that a directory lists once a file is added to it.
module _ (c : Cache) (d f : CString) (dir : CacheEntry) (h : AllListed c) (k : c d f ≡ none)
    (l : put c d f fresh_entry d [] ≡ some dir) where
  abbrev added : Cache
  added = put (put c d f fresh_entry) d [] (record dir { direntries = dir.direntries ++ (f ∷ []) })

  added_known :
      (g : CString)
      → str_eq g [] ≡ false
      → is_known (put c d f fresh_entry d g) ≡ lists_name (dir.direntries ++ (f ∷ [])) g
  unfolding is_known lists_name
  added_known g gn = elim (Bool-cases (str_eq f g)) [
    | inl e ↦
        rw
          (
            lists_name-append dir.direntries (f ∷ []) g,
            e,
            ← (str_eq_iff f g).0 e,
            put_self c d f fresh_entry,
          )
          (sym (or_true (lists_name dir.direntries f)))
    | inr e ↦
        rw (put-ne_file c d f g fresh_entry e, lists_name-append dir.direntries (f ∷ []) g, e)
          (h d g gn ∙ listed_before c d f g dir k l ∙ sym (or_false (lists_name dir.direntries g)))
  ]

  added-AllListed : AllListed added
  unfolding is_listed
  added-AllListed d' g gn = elim (Bool-cases (str_eq d d')) [
    | inr other ↦
        rw
          (
            put-ne_dir (put c d f fresh_entry) d [] d' g _ other,
            put-ne_dir (put c d f fresh_entry) d [] d' [] _ other,
            put-ne_dir c d f d' g fresh_entry other,
            put-ne_dir c d f d' [] fresh_entry other,
          )
          (h d' g gn)
    | inl this ↦
        rw
          (
            ← (str_eq_iff d d').0 this,
            put-ne_file (put c d f fresh_entry) d [] g _ (empty_ne g gn),
            put_self (put c d f fresh_entry) d [] _,
          )
          (added_known g gn)
  ]

pub add_file-AllListed :
    (c c' : Cache) (d f : CString) → AllListed c → add_file c d f ≡ some c' → AllListed c'
add_file-AllListed c c' d f h e = elim (add_file-cases c d f) [
  | is_there old k r ↦ subst AllListed (some_eq (sym r ∙ e)) h
  | no_dir k l r ↦ ground (arith, e, r)
  | is_new dir k l r ↦ subst AllListed (some_eq (sym r ∙ e)) (added-AllListed c d f dir h k l)
]

known_some : (e : CacheEntry) → is_known (some e) ≡ true
unfolding is_known
known_some e = refl

listed_same :
    (e e' : CacheEntry) (g : CString)
    → e'.direntries ≡ e.direntries
    → is_listed (some e) g ≡ is_listed (some e') g
unfolding is_listed
listed_same e e' g same = ap (λ names. lists_name names g) (sym same)

-- A change of an entry that keeps the names it lists.
pub change_entry-AllListed :
    (c : Cache) (f d : CString) (change : CacheEntry → CacheEntry)
    → ((e : CacheEntry) → (change e).direntries ≡ e.direntries)
    → AllListed c
    → AllListed (change_entry c f d change).0
unfolding change_entry
change_entry-AllListed c f d change same h = elim (Option-cases (c d f)) [
  | inl missing ↦ rw (change_entry, missing) h
  | inr (e, there) ↦
      rw (change_entry, there)
        (elim (Bool-cases (str_eq f [])) [
          | inr ne ↦ put_file-AllListed c d f (change e) h (rw there (known_some e)) ne
          | inl is_dir ↦
              let root : c d [] ≡ some e =
                subst (λ n. c d n ≡ some e) ((str_eq_iff f []).0 is_dir) there in
              subst (λ n. AllListed (put c d n (change e))) (sym ((str_eq_iff f []).0 is_dir))
                (put_dir-AllListed c d (change e) h
                  (λ g gn. h d g gn ∙ rw root (listed_same e (change e) g (same e))))
        ])
]
