-- ===== src/Shm/Added.antt =====
-- `shmcache_add_worker` of a new entry: with or without space, and what it leaves of the others.
use spindle.Prelude.{
  ℕ, ◌+◌, List, ◌∷◌, Option, some, Bool, true, false, ◌≡◌, refl, sym, ap, ◌∙◌, arith, contains, inl,
  inr, ◌⊎◌, CString, length, str_eq_refl,
}
use spindle.Shm.{
  Mapping, no_mapping, in_progress, mapped, ShmEntry, Sheep, Shm, change, str_hash, is_busy, ◌>>=◌,
  sheep_alloc_size, free_block, free_sheep_entry, free_sheep_str, sizeof_entry, found_entry,
  find_cached, has_name,
}
use spindle.Shm.Lists.{contains-mark_recently_used, mark_recently_used_cases, total}
use spindle.Shm.Clean.{IsCache, entry_cost, name_cost, result_cost, spent}
use spindle.Shm.Malloc.{Cleaned, Cleaned-trans, Returns, malloc_sheep_cache_lem, retry_lem}
use spindle.Shm.Steps.{change_self, free_block-IsCache}
use spindle.Shm.Linked.{linked-IsCache, change_cached}
use spindle.Shm.Ops.{new_shm_entry, linked, or_undo, add_value, add_name, add_worker}

-- Every entry was there or is the new one, those kept stay as they are; after a success the search
-- finds the new one, and after a failure there is none.
pub record Added {Heap : Type 0} (limit extra : ℕ) (name : CString) (value : Mapping) (s : Shm Heap)
    (b : Bool) (t : Shm Heap) : Type 0 where
  pub cache : IsCache limit extra t
  pub origin :
      (a : ℕ)
      → contains a t.lru ≡ true
      → ((contains a s.lru ≡ true) × (t.entries a ≡ s.entries a))
        ⊎ ((a ≡ s.next_entry) × (t.entries a ≡ new_shm_entry name value))
  pub stays :
      (a : ℕ)
      → is_busy (s.entries a) ≡ true
      → contains a s.lru ≡ true
      → (contains a t.lru ≡ true) × (t.entries a ≡ s.entries a)
  pub none_new :
      b ≡ false
      → (a : ℕ) → contains a t.lru ≡ true
      → (contains a s.lru ≡ true) × (t.entries a ≡ s.entries a)
  pub made :
      b ≡ true
      → (found_entry name t ≡ some s.next_entry)
        × (t.entries s.next_entry ≡ new_shm_entry name value)

find_entry_head :
    (entries : ℕ → ShmEntry) (key a : ℕ) (name : CString) (chain : List ℕ)
    → has_name key name (entries a) ≡ true
    → find_cached entries key name (a ∷ chain) ≡ some a
unfolding find_cached
find_entry_head entries key a name chain e = rw e refl

has_name-new :
    (name : CString) (value : Mapping)
    → has_name (str_hash name) name (new_shm_entry name value) ≡ true
unfolding has_name new_shm_entry
has_name-new name value = ground (arith, str_eq_refl name)

found_entry-linked :
    {Heap : Type 0} (name : CString) (value : Mapping) (t : Shm Heap)
    → found_entry name (linked name value t) ≡ some t.next_entry
unfolding found_entry linked
found_entry-linked name value t =
    let entries = change t.next_entry (new_shm_entry name value) t.entries in
    let key = str_hash name in
    ap (find_cached entries key name) (change_self key (t.next_entry ∷ t.table key) t.table)
    ∙ find_entry_head entries key t.next_entry name (t.table key) (
        ap (has_name key name) (change_self t.next_entry (new_shm_entry name value) t.entries)
        ∙ has_name-new name value)

module _ {Heap : Type 0} (sheep : Sheep Heap) (limit : ℕ) where
  pub Cleaned-extra : (e f : ℕ) (s t : Shm Heap) → e ≡ f → Cleaned limit e s t → Cleaned limit f s t
  Cleaned-extra e f s t same c = rw (← same) c

  undo_lem :
      (extra size : ℕ) (s t : Shm Heap)
      → Cleaned limit (extra + sheep_alloc_size size) s t
      → (u : Shm Heap) × (free_block sheep size t ≡ some u) × Cleaned limit extra s u
  undo_lem extra size s t c =
      let (h, done, is) = free_block-IsCache sheep limit extra size t c.cache in
      (
        spent sheep (extra + total (λ a. entry_cost (t.entries a)) t.lru) h t,
        done,
        record {
          cache = is;
          same_entries = c.same_entries;
          same_next = c.same_next;
          older = c.older;
          stays = c.stays;
          finds = c.finds;
        },
      )

  Added-none :
      (extra : ℕ) (name : CString) (value : Mapping) (s t : Shm Heap)
      → Cleaned limit extra s t
      → Added limit extra name value s false t
  Added-none extra name value s t c = record {
    cache = c.cache;
    origin = λ a h. inl (c.older a h, ap (λ f. f a) c.same_entries);
    stays = λ a kept h. (c.stays a kept h, ap (λ f. f a) c.same_entries);
    none_new = λ e a h. (c.older a h, ap (λ f. f a) c.same_entries);
    made = λ h. cc;
  }

  linked-Added :
      (extra : ℕ) (name : CString) (value : Mapping) (s t : Shm Heap)
      → Cleaned limit (extra + entry_cost (new_shm_entry name value)) s t
      → Returns (some (true, linked name value t)) (Added limit extra name value s)
  unfolding linked
  linked-Added extra name value s t c =
      let entry = new_shm_entry name value in
      let more = extra + entry_cost entry in
      let old : (a : ℕ)
          → contains a t.lru ≡ true
          → change t.next_entry entry t.entries a ≡ s.entries a =
        λ a h. change_cached limit more t c.cache a entry h ∙ ap (λ f. f a) c.same_entries in
      let new : (a : ℕ) → t.next_entry ≡ a → change t.next_entry entry t.entries a ≡ entry =
        λ a same.
          ap (change t.next_entry entry t.entries) (sym same)
          ∙ change_self t.next_entry entry t.entries in
      (
        true,
        linked name value t,
        refl,
        record {
          cache = linked-IsCache limit extra name value t c.cache;
          origin = λ a h. elim (mark_recently_used_cases t.next_entry a t.lru h) [
            | inl same ↦ inr (sym same ∙ c.same_next, new a same)
            | inr there ↦ inl (c.older a there, old a there)
          ];
          stays = λ a kept h.
              let there = c.stays a kept h in
              (
                ground (arith, there, contains-mark_recently_used t.next_entry a t.lru),
                old a there,
              );
          none_new = λ e a h. absurd (cc e);
          made = λ _.
              (found_entry-linked name value t ∙ ap some c.same_next, new s.next_entry c.same_next);
        },
      )

  pub or_undo_lem :
      (Good : Bool → Shm Heap → Type 0) (undo : Shm Heap → Option (Shm Heap))
      (next : Shm Heap → Option (Bool × Shm Heap)) (first : Option (Bool × Shm Heap)) (b : Bool)
      (t : Shm Heap)
      → first ≡ some (b, t)
      → (b ≡ false → (u : Shm Heap) × (undo t ≡ some u) × Good false u)
      → (b ≡ true → Returns (next t) Good)
      → Returns (first >>= or_undo undo next) Good
  unfolding or_undo
  or_undo_lem Good undo next first true t e last more = rw e (more refl)
  or_undo_lem Good undo next first false t e last more =
      let (u, done, good) = last refl in rw (e, done) (false, u, refl, good)

  add_value_lem :
      (extra : ℕ) (name : CString) (value : Mapping) (s t : Shm Heap)
      → Cleaned limit
          (extra + sheep_alloc_size sizeof_entry + sheep_alloc_size (length name + 1))
          s
          t
      → Returns (add_value sheep limit name value t) (Added limit extra name value s)
  unfolding add_value free_sheep_entry free_sheep_str entry_cost name_cost result_cost new_shm_entry
  add_value_lem extra name no_mapping s t c =
      linked-Added extra name no_mapping s t (Cleaned-extra _ _ s t (omega arith) c)
  add_value_lem extra name in_progress s t c =
      linked-Added extra name in_progress s t (Cleaned-extra _ _ s t (omega arith) c)
  add_value_lem extra name (mapped text) s t c =
      let before = extra + sheep_alloc_size sizeof_entry + sheep_alloc_size (length name + 1) in
      let named = extra + sheep_alloc_size (length name + 1) in
      let (b, u, done, more) =
        malloc_sheep_cache_lem sheep limit before (length text + 1) t c.cache in
      or_undo_lem _ (λ t. free_sheep_entry sheep t >>= free_sheep_str sheep name) _ _ b u done
        (λ e.
          let kept : Cleaned limit before s u =
            rw e at (Cleaned-trans sheep limit _ _ s t u c more) in
          let (v, first, c1) =
            undo_lem named sizeof_entry s u (Cleaned-extra _ _ s u (omega arith) kept) in
          let (w, second, c2) = undo_lem extra (length name + 1) s v c1 in
          (w, rw first second, Added-none extra name (mapped text) s w c2))
        (λ e.
          let made : Cleaned limit (before + sheep_alloc_size (length text + 1)) s u =
            rw e at (Cleaned-trans sheep limit _ _ s t u c more) in
          linked-Added extra name (mapped text) s u (Cleaned-extra _ _ s u (omega arith) made))

  pub add_worker_lem :
      (extra : ℕ) (name : CString) (value : Mapping) (s : Shm Heap)
      → IsCache limit extra s
      → Returns (add_worker sheep limit name value s) (Added limit extra name value s)
  unfolding add_worker add_name free_sheep_entry
  add_worker_lem extra name value s is =
      let with_entry = extra + sheep_alloc_size sizeof_entry in
      let (b, t, done, c) = malloc_sheep_cache_lem sheep limit extra sizeof_entry s is in
      retry_lem sheep limit _ (add_name sheep limit name value) _ b t done
        (λ e. Added-none extra name value s t (rw e at c))
        (λ e.
          let c1 : Cleaned limit with_entry s t = rw e at c in
          let (d, u, again, c2) =
            malloc_sheep_cache_lem sheep limit with_entry (length name + 1) t c1.cache in
          or_undo_lem _ (free_sheep_entry sheep) (add_value sheep limit name value) _ d u again
            (λ f.
              let c3 : Cleaned limit with_entry s u =
                rw f at (Cleaned-trans sheep limit _ _ s t u c1 c2) in
              let (v, undone, c4) = undo_lem extra sizeof_entry s u c3 in
              (v, undone, Added-none extra name value s v c4))
            (λ f.
              add_value_lem extra name value s u
                (rw f at (Cleaned-trans sheep limit _ _ s t u c1 c2))))
