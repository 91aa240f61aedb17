-- ===== src/Cache/Finds.antt =====
-- The cache as a map: what stands under a key after a write, and the names that a directory lists.
use spindle.Prelude.{
  List, [], ◌∷◌, ◌++◌, Bool, true, false, ◌||◌, Option, none, some, CString, str_eq, str_eq_refl,
  ◌≡◌, refl, arith, Option-cases, inl, inr,
}
use spindle.Cache.{Cache, CacheEntry, fresh_entry, put, add_file}

pub put_self : (c : Cache) (d f : CString) (e : CacheEntry) → put c d f e d f ≡ some e
unfolding put
put_self c d f e = rw (str_eq_refl d, str_eq_refl f) refl

pub put-ne_file :
    (c : Cache) (d f g : CString) (e : CacheEntry) → str_eq f g ≡ false → put c d f e d g ≡ c d g
unfolding put
put-ne_file c d f g e h = rw (str_eq_refl d, h) refl

pub put-ne_dir :
    (c : Cache) (d f d' g : CString) (e : CacheEntry)
    → str_eq d d' ≡ false
    → put c d f e d' g ≡ c d' g
unfolding put
put-ne_dir c d f d' g e h = rw h refl

-- Whether an entry is there, and whether its directory's entry lists it.
unfoldable pub is_known : Option CacheEntry → Bool
is_known none = false
is_known (some e) = true

unfoldable pub lists_name : List CString → CString → Bool
lists_name [] f = false
lists_name (name ∷ names) f = str_eq name f || lists_name names f

unfoldable pub is_listed : Option CacheEntry → CString → Bool
unfolding lists_name
is_listed none f = false
is_listed (some dir) f = lists_name dir.direntries f

pub lists_name-append :
    (names more : List CString) (f : CString)
    → lists_name (names ++ more) f ≡ (lists_name names f || lists_name more f)
unfolding lists_name
lists_name-append [] more f = refl
lists_name-append (name ∷ names) more f = ground (arith, lists_name-append names more f)

-- What adding a file leaves, in a directory that is there.
pub data AddCase (c : Cache) (d f : CString) : Type 0 where
  is_there : (e : CacheEntry) → c d f ≡ some e → add_file c d f ≡ some c → AddCase c d f
  is_new :
      (dir : CacheEntry)
      → c d f ≡ none
      → put c d f fresh_entry d [] ≡ some dir
      → add_file c d f
        ≡ some (
            put
              (put c d f fresh_entry)
              d
              []
              (record dir { direntries = dir.direntries ++ (f ∷ []) }))
      → AddCase c d f
  no_dir : c d f ≡ none → put c d f fresh_entry d [] ≡ none → add_file c d f ≡ none → AddCase c d f

pub add_file-cases : (c : Cache) (d f : CString) → AddCase c d f
unfolding add_file
add_file-cases c d f = elim (Option-cases (c d f)) [
  | inr (e, h) ↦ is_there e h (rw (add_file, h) refl)
  | inl h ↦ elim (Option-cases (put c d f fresh_entry d [])) [
    | inl k ↦ no_dir h k (rw (add_file, h, k) refl)
    | inr (dir, k) ↦ is_new dir h k (rw (add_file, h, k) refl)
  ]
]
