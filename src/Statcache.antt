-- ===== src/Statcache.antt =====
-- The results of stat, lstat and of the search of the loader that a server has, by path:
-- src/server/cache/stat_cache.cc. A `std::map` is a list
-- that has a key once.
mod Tests
use spindle.Prelude.{
  ℕ, List, [], ◌∷◌, ◌++◌, Option, none, some, Bool, true, false, if◌then◌else◌, CString, str_eq,
  ◌≡◌, refl, arith, str_eq_iff, str_eq_refl, Bool-cases, Option-cases, inl, inr, ap, ◌∙◌, sym, ◌==◌,
}
use spindle.Relay.{metadata_eq, Metadata, metadata_stat, metadata_lstat, metadata_loader}

-- A path with the name of the local copy, or NULL where there is no file.
abbrev pub StatTable : Type 0
StatTable = List (CString × Option CString)

pub record StatCache : Type 0 where
  pub stat_table : StatTable
  pub lstat_table : StatTable
  pub ldso_table : StatTable

unfoldable pub find_stat : CString → StatTable → Option (Option CString)
find_stat pathname [] = none
find_stat pathname ((key, value) ∷ table) =
    if str_eq key pathname then some value else find_stat pathname table

-- `std::map::insert` leaves a key that is there.
unfoldable pub insert_stat : CString → Option CString → StatTable → StatTable
unfolding find_stat
insert_stat pathname value table = elim (find_stat pathname table) [
  | some old ↦ table
  | none ↦ (pathname, value) ∷ table
]

unfoldable pub add_stat_cache : CString → Option CString → Metadata → StatCache → StatCache
unfolding insert_stat
add_stat_cache pathname value metadata_stat s = record s {
  stat_table = insert_stat pathname value s.stat_table;
}
add_stat_cache pathname value metadata_lstat s = record s {
  lstat_table = insert_stat pathname value s.lstat_table;
}
add_stat_cache pathname value metadata_loader s = record s {
  ldso_table = insert_stat pathname value s.ldso_table;
}

abbrev pub table_of : Metadata → StatCache → StatTable
table_of metadata_stat s = s.stat_table
table_of metadata_lstat s = s.lstat_table
table_of metadata_loader s = s.ldso_table

-- `none` for the result -1.
unfoldable pub lookup_stat_cache : CString → Metadata → StatCache → Option (Option CString)
unfolding find_stat
lookup_stat_cache pathname stattype s = find_stat pathname (table_of stattype s)

-- An addition: the path, its value and the kind of the result.
abbrev pub StatResult : Type 0
StatResult = CString × (Option CString × Metadata)

unfoldable pub add_results : List StatResult → StatCache → StatCache
unfolding add_stat_cache
add_results [] s = s
add_results ((pathname, (value, stattype)) ∷ results) s =
    add_results results (add_stat_cache pathname value stattype s)

abbrev pub empty_stat_cache : StatCache
empty_stat_cache = record { stat_table = []; lstat_table = []; ldso_table = [] }

-- The first value that was added for a path and a kind.
unfoldable pub first_result : CString → Metadata → List StatResult → Option (Option CString)
first_result pathname stattype [] = none
first_result pathname stattype ((key, (value, kind)) ∷ results) =
    if metadata_eq kind stattype
    then if str_eq key pathname then some value else first_result pathname stattype results
    else first_result pathname stattype results

or_else : Option (Option CString) → Option (Option CString) → Option (Option CString)
or_else none other = other
or_else (some value) other = some value

or_else-none : (o : Option (Option CString)) → or_else o none ≡ o
unfolding or_else
or_else-none none = refl
or_else-none (some value) = refl

or_else_assoc :
    (o p q : Option (Option CString)) → or_else (or_else o p) q ≡ or_else o (or_else p q)
unfolding or_else
or_else_assoc none p q = refl
or_else_assoc (some value) p q = refl

insert_stat_new :
    (key : CString) (value : Option CString) (table : StatTable)
    → find_stat key table ≡ none
    → insert_stat key value table ≡ (key, value) ∷ table
unfolding insert_stat
insert_stat_new key value table missing = rw (insert_stat, missing) refl

insert_stat_old :
    (key : CString) (value old : Option CString) (table : StatTable)
    → find_stat key table ≡ some old
    → insert_stat key value table ≡ table
unfolding insert_stat
insert_stat_old key value old table found = rw (insert_stat, found) refl

find-insert_stat :
    (key pathname : CString) (value : Option CString) (table : StatTable)
    → find_stat pathname (insert_stat key value table)
      ≡ or_else (find_stat pathname table) (if str_eq key pathname then some value else none)
unfolding find_stat or_else
find-insert_stat key pathname value table =
    let at : str_eq key pathname ≡ true → find_stat key table ≡ find_stat pathname table =
      λ e. ap (λ k. find_stat k table) ((str_eq_iff key pathname).0 e) in
    elim (Option-cases (find_stat key table)) [
      | inl missing ↦
          ap (find_stat pathname) (insert_stat_new key value table missing)
          ∙ (elim (Bool-cases (str_eq key pathname)) [
            | inl e ↦
                let there : find_stat pathname table ≡ none = sym (at e) ∙ missing in
                rw (e, there) refl
            | inr e ↦ rw e (sym (or_else-none (find_stat pathname table)))
          ])
      | inr (old, found) ↦
          ap (find_stat pathname) (insert_stat_old key value old table found)
          ∙ (elim (Bool-cases (str_eq key pathname)) [
            | inl e ↦
                let there : find_stat pathname table ≡ some old = sym (at e) ∙ found in
                rw (e, there) refl
            | inr e ↦ rw e (sym (or_else-none (find_stat pathname table)))
          ])
    ]

-- What an addition changes, for each kind.
lookup_stat_cache-add :
    (key pathname : CString) (value : Option CString) (kind stattype : Metadata) (s : StatCache)
    → lookup_stat_cache pathname stattype (add_stat_cache key value kind s)
      ≡ or_else (lookup_stat_cache pathname stattype s) (
          if metadata_eq kind stattype
          then (if str_eq key pathname then some value else none)
          else none)
unfolding lookup_stat_cache add_stat_cache
lookup_stat_cache-add key pathname value metadata_stat metadata_stat s =
    find-insert_stat key pathname value s.stat_table
lookup_stat_cache-add key pathname value metadata_lstat metadata_lstat s =
    find-insert_stat key pathname value s.lstat_table
lookup_stat_cache-add key pathname value metadata_loader metadata_loader s =
    find-insert_stat key pathname value s.ldso_table
lookup_stat_cache-add key pathname value metadata_stat metadata_lstat s = sym (or_else-none _)
lookup_stat_cache-add key pathname value metadata_stat metadata_loader s = sym (or_else-none _)
lookup_stat_cache-add key pathname value metadata_lstat metadata_stat s = sym (or_else-none _)
lookup_stat_cache-add key pathname value metadata_lstat metadata_loader s = sym (or_else-none _)
lookup_stat_cache-add key pathname value metadata_loader metadata_stat s = sym (or_else-none _)
lookup_stat_cache-add key pathname value metadata_loader metadata_lstat s = sym (or_else-none _)

or_else_if :
    (kind here : Bool) (value : Option CString) (rest : Option (Option CString))
    → or_else (if kind then (if here then some value else none) else none) rest
      ≡ (if kind then (if here then some value else rest) else rest)
unfolding or_else
or_else_if true true value rest = refl
or_else_if true false value rest = refl
or_else_if false here value rest = refl

lookup_empty :
    (pathname : CString) (stattype : Metadata)
    → lookup_stat_cache pathname stattype empty_stat_cache ≡ none
unfolding lookup_stat_cache
lookup_empty pathname metadata_stat = refl
lookup_empty pathname metadata_lstat = refl
lookup_empty pathname metadata_loader = refl

lookup_results_from :
    (pathname : CString) (stattype : Metadata) (results : List StatResult) (s : StatCache)
    → lookup_stat_cache pathname stattype (add_results results s)
      ≡ or_else (lookup_stat_cache pathname stattype s) (first_result pathname stattype results)
unfolding add_results first_result
lookup_results_from pathname stattype [] s = sym (or_else-none _)
lookup_results_from pathname stattype ((key, (value, kind)) ∷ results) s =
    lookup_results_from pathname stattype results (add_stat_cache key value kind s)
    ∙ ap (λ o. or_else o (first_result pathname stattype results))
        (lookup_stat_cache-add key pathname value kind stattype s)
    ∙ or_else_assoc (lookup_stat_cache pathname stattype s) _ _
    ∙ ap (or_else (lookup_stat_cache pathname stattype s)) (
        or_else_if (metadata_eq kind stattype) (str_eq key pathname) value
          (first_result pathname stattype results))

-- A lookup gives what was added first for its path and its kind: later results for the path are
-- dropped, and the kinds do not mix.
pub lookup_stat_cache-add_results :
    (pathname : CString) (stattype : Metadata) (results : List StatResult)
    → lookup_stat_cache pathname stattype (add_results results empty_stat_cache)
      ≡ first_result pathname stattype results
unfolding or_else
lookup_stat_cache-add_results pathname stattype results =
    lookup_results_from pathname stattype results empty_stat_cache
    ∙ ap (λ o. or_else o (first_result pathname stattype results)) (lookup_empty pathname stattype)
