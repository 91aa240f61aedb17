-- ===== src/Cache/History.antt =====
-- The cache after any calls, from an empty one.
use spindle.Prelude.{
  List, [], ◌∷◌, Bool, true, false, Option, none, some, CString, str_eq, ◌≡◌, refl, arith,
  Option-cases, inl, inr,
}
use mathlib.Core.Path.{subst}
use spindle.Cache.{
  Cache, CacheEntry, empty_cache, add_directory, add_file, Errcode, Contents, update_alias,
  update_replication, update_errcode, update_buffer, set_errcode, set_buffer, Listing,
  ls_and_cache_files,
}
use spindle.Cache.Finds.{is_known, is_listed}
use spindle.Cache.Known.{
  AllListed, some_eq, add_directory-AllListed, add_file-AllListed, change_entry-AllListed,
}
use spindle.Cache.Dirs.{cache_files-AllListed}

pub data CacheCall : Type 0 where
  call_add_directory : CString → Bool → CacheCall
  call_add_file : CString → CString → CacheCall
  call_ls : CString → CacheCall
  call_alias : CString → CString → CString → CacheCall
  call_replication : CString → CString → Bool → CacheCall
  call_errcode : CString → CString → Errcode → CacheCall
  call_buffer : CString → CString → Contents → Errcode → Bool → CacheCall

-- One call; `none` is a failed assertion.
unfoldable pub call : Listing → CacheCall → Cache → Option Cache
call ls (call_add_directory d exists) c = some (add_directory c d exists)
call ls (call_add_file d f) c = add_file c d f
call ls (call_ls d) c = ls_and_cache_files ls c d
call ls (call_alias f d to) c = some (update_alias c f d to).0
call ls (call_replication f d replication) c = some (update_replication c f d replication).0
call ls (call_errcode f d code) c = some (update_errcode c f d code).0
call ls (call_buffer f d contents code stripped) c =
    some (update_buffer c f d contents code stripped).0

unfoldable pub calls : Listing → List CacheCall → Cache → Option Cache
unfolding call
calls ls [] c = some c
calls ls (e ∷ es) c = elim (call ls e c) [ none ↦ none | some c' ↦ calls ls es c' ]

set_errcode-direntries :
    (code : Errcode) (e : CacheEntry) → (set_errcode code e).direntries ≡ e.direntries
unfolding set_errcode
set_errcode-direntries code e = ground arith

set_buffer-direntries :
    (contents : Contents) (code : Errcode) (stripped : Bool) (e : CacheEntry)
    → (set_buffer contents code stripped e).direntries ≡ e.direntries
unfolding set_buffer
set_buffer-direntries contents code stripped e = ground arith

ls-AllListed :
    (ls : Listing) (c c' : Cache) (d : CString)
    → AllListed c
    → ls_and_cache_files ls c d ≡ some c'
    → AllListed c'
unfolding ls_and_cache_files
ls-AllListed ls c c' d h e = elim (Option-cases (ls d)) [
  | inl closed ↦
      let same : some (add_directory c d false) ≡ some c' = ground (arith, e, closed) in
      subst AllListed (some_eq same) (add_directory-AllListed c d false h)
  | inr (dents, opened) ↦
      cache_files-AllListed (add_directory c d true) c' d dents (add_directory-AllListed c d true h)
        (ground (arith, e, opened))
]

call-AllListed :
    (ls : Listing) (e : CacheCall) (c c' : Cache)
    → AllListed c
    → call ls e c ≡ some c'
    → AllListed c'
unfolding call update_alias update_replication update_errcode update_buffer
call-AllListed ls (call_add_directory d exists) c c' h e =
    subst AllListed (some_eq e) (add_directory-AllListed c d exists h)
call-AllListed ls (call_add_file d f) c c' h e = add_file-AllListed c c' d f h e
call-AllListed ls (call_ls d) c c' h e = ls-AllListed ls c c' d h e
call-AllListed ls (call_alias f d to) c c' h e =
    subst AllListed (some_eq e) (change_entry-AllListed c f d _ (λ x. refl) h)
call-AllListed ls (call_replication f d replication) c c' h e =
    subst AllListed (some_eq e) (change_entry-AllListed c f d _ (λ x. refl) h)
call-AllListed ls (call_errcode f d code) c c' h e =
    subst AllListed (some_eq e)
      (change_entry-AllListed c f d (set_errcode code) (set_errcode-direntries code) h)
call-AllListed ls (call_buffer f d contents code stripped) c c' h e = subst AllListed (some_eq e) (
    change_entry-AllListed c f d (set_buffer contents code stripped)
      (set_buffer-direntries contents code stripped) h)

calls-AllListed :
    (ls : Listing) (es : List CacheCall) (c c' : Cache)
    → AllListed c
    → calls ls es c ≡ some c'
    → AllListed c'
unfolding calls
calls-AllListed ls [] c c' h e = subst AllListed (some_eq e) h
calls-AllListed ls (x ∷ es) c c' h e = elim (Option-cases (call ls x c)) [
  | inl failed ↦ ground (arith, e, failed)
  | inr (next, done) ↦
      calls-AllListed ls es next c' (call-AllListed ls x c next h done) (ground (arith, e, done))
]

empty-AllListed : AllListed empty_cache
unfolding is_known is_listed
empty-AllListed d f ne = refl

-- After any calls on an empty cache that fail no assertion, a file has an entry exactly when the
-- entry of its directory lists it.
pub calls-is_known :
    (ls : Listing) (es : List CacheCall) (c : Cache) (d f : CString)
    → calls ls es empty_cache ≡ some c
    → str_eq f [] ≡ false
    → is_known (c d f) ≡ is_listed (c d []) f
calls-is_known ls es c d f e ne = calls-AllListed ls es empty_cache c empty-AllListed e d f ne
