-- ===== src/Shm/Updated.antt =====
-- `shmcache_update` of an entry that is in progress.
use spindle.Prelude.{
  ℕ, ◌+◌, ◌-◌, List, [], ◌∷◌, Option, none, some, true, ◌==◌, ◌≡◌, refl, sym, ap, ◌∙◌, arith,
  contains, Bool-cases, inl, inr, CString, length,
}
use spindle.Shm.{
  Mapping, no_mapping, in_progress, mapped, ShmEntry, Sheep, Shm, change, is_busy, is_in_progress,
  set_entry, found_entry, find_cached, has_name,
}
use spindle.Shm.Lists.{total-without}
use spindle.Shm.Clean.{entry_cost, result_cost, name_cost, free_libname_lem}
use spindle.Shm.Malloc.{Cleaned, Cleaned-none, Returns, malloc_sheep_cache_lem}
use spindle.Shm.Steps.{change_self, change_ne, change_field, set_entry-IsCache}
use spindle.Shm.Added.{or_undo_lem, Cleaned-extra}
use spindle.Shm.Held.{Held, Held-step, Recorded, Recorded-more, waiting-is_busy, table_cost, count}
use spindle.Shm.Ops.{with_result, set_result, mapping_of, unnamed}

pub is_in_progress_lem : (value : Mapping) → is_in_progress value ≡ true → value ≡ in_progress
unfolding is_in_progress
is_in_progress_lem no_mapping h = cc
is_in_progress_lem in_progress h = refl
is_in_progress_lem (mapped text) h = cc

find_entry_congr :
    (f g : ℕ → ShmEntry) (key : ℕ) (name : CString) (l : List ℕ)
    → ((b : ℕ) → has_name key name (f b) ≡ has_name key name (g b))
    → find_cached f key name l ≡ find_cached g key name l
unfolding find_cached
find_entry_congr f g key name [] same = refl
find_entry_congr f g key name (b ∷ l) same =
    ground (arith, same b, find_entry_congr f g key name l same)

Recorded-same :
    (w : List (CString × Mapping)) (e f : ShmEntry) → e ≡ f → Recorded w f → Recorded w e
Recorded-same w e f same stored = rw same stored

-- The entry has the value, and whatever search found it still does.
pub record Updated {Heap : Type 0} (limit : ℕ) (waiters : List ℕ) (w : List (CString × Mapping))
    (a : ℕ) (value : Mapping) (s t : Shm Heap) : Type 0 where
  pub held : Held limit waiters w t
  pub value_at : (t.entries a).result ≡ value
  pub finds : (name : CString) → found_entry name s ≡ some a → found_entry name t ≡ some a

module _ {Heap : Type 0} (limit a : ℕ) (waiters : List ℕ) (w : List (CString × Mapping))
    (name : CString) (s : Shm Heap) (held : Held limit waiters w s)
    (there : contains a s.lru ≡ true) (named : (s.entries a).libname ≡ some name)
    (open_entry : (s.entries a).result ≡ in_progress) where
  open_entry-is_busy : is_busy (s.entries a) ≡ true
  unfolding is_busy is_in_progress
  open_entry-is_busy = rw open_entry refl

  with_result_lem :
      (value : Mapping) (u : Shm Heap)
      → Cleaned limit (table_cost + result_cost value) s u
      → Updated limit waiters ((name, value) ∷ w) a value s (with_result a value u)
  unfolding with_result set_entry found_entry entry_cost result_cost has_name
  with_result_lem value u c =
      let entry = record (u.entries a) { result = value } in
      let same_at : (b : ℕ) → u.entries b ≡ s.entries b = λ b. ap (λ f. f b) c.same_entries in
      let in_u = c.stays a open_entry-is_busy there in
      let open_u : result_cost (u.entries a).result ≡ 0 =
        ap (λ e. result_cost e.result) (same_at a) ∙ ap result_cost open_entry in
      let stored : Recorded ((name, value) ∷ w) entry =
        inr (name, ap (λ e. e.libname) (same_at a) ∙ named, inl (refl, refl)) in
      let changed : (b : ℕ) → a ≡ b → change a entry u.entries b ≡ entry =
        λ b same. ap (change a entry u.entries) (sym same) ∙ change_self a entry u.entries in
      record {
        held =
            Held-step limit waiters w ((name, value) ∷ w) s (with_result a value u) held
              (set_entry-IsCache limit _ table_cost a entry u c.cache in_u refl refl
                (omega (arith, open_u)))
              (λ b h. c.stays b (waiting-is_busy limit waiters w b s held h) (held.here b h))
              (Recorded-more w name value)
              (λ b h. elim (Bool-cases (a == b)) [
                | inl e ↦
                    let same : a ≡ b = ground arith in
                    inr (
                      ap (λ e. e.pending_count) (changed b same)
                          ∙ ap (λ e. e.pending_count) (same_at a)
                          ∙ held.pending a there
                          ∙ ap (λ c. count c waiters) same,
                      Recorded-same ((name, value) ∷ w) _ _ (changed b same) stored,
                    )
                | inr e ↦
                    let other : change a entry u.entries b ≡ u.entries b =
                      change_ne a b entry u.entries (λ f. ground arith) in
                    inl (c.older b h, other ∙ same_at b)
              ]);
        value_at = ap (λ e. e.result) (change_self a entry u.entries);
        finds = λ str found.
            find_entry_congr (change a entry u.entries) u.entries _ str _
              (λ b. change_field (has_name _ str) a b entry u.entries refl)
            ∙ c.finds _ a str in_u found;
      }

  unnamed_lem :
      (sheep : Sheep Heap) (u : Shm Heap)
      → Cleaned limit table_cost s u
      → (t : Shm Heap) × (unnamed sheep limit a u ≡ some t)
  unfolding unnamed entry_cost
  unnamed_lem sheep u c =
      let in_u = c.stays a open_entry-is_busy there in
      let libname : (u.entries a).libname ≡ some name =
        ap (λ f. (f a).libname) c.same_entries ∙ named in
      let rest = u.heap_used - name_cost (u.entries a).libname in
      let (h, done) = free_libname_lem sheep (u.entries a).libname name rest u libname (
        omega
          (arith, c.cache.counted, total-without (λ b. entry_cost (u.entries b)) a u.lru in_u)) in
      rw done (_, refl)

  pub set_result_lem :
      (sheep : Sheep Heap) (value : Option CString)
      → Returns (set_result sheep limit a value s) (λ b t.
        b ≡ true → Updated limit waiters ((name, mapping_of value) ∷ w) a (mapping_of value) s t)
  unfolding set_result mapping_of result_cost
  set_result_lem sheep none =
      let kept =
        Cleaned-extra sheep limit table_cost (table_cost + result_cost no_mapping) s s (omega arith)
          (Cleaned-none sheep limit table_cost s held.cache) in
      (true, with_result a no_mapping s, refl, λ _. with_result_lem no_mapping s kept)
  set_result_lem sheep (some text) =
      let (b, u, done, c) =
        malloc_sheep_cache_lem sheep limit table_cost (length text + 1) s held.cache in
      or_undo_lem sheep limit _ (unnamed sheep limit a) _ _ b u done
        (λ e. let (t, lost) = unnamed_lem sheep u (rw e at c) in (t, lost, λ f. cc))
        (λ e. (
          true,
          with_result a (mapped text) u,
          refl,
          λ _. with_result_lem (mapped text) u (rw e at c),
        ))
