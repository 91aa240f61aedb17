-- ===== src/Shm/Ops.antt =====
-- The operations of src/client/shm_cache/shmcache.c on a cache whose hash table could be allocated.
use spindle.Prelude.{
  ℕ, ◌+◌, ◌-◌, ◌*◌, ◌%◌, ◌^◌, [], ◌∷◌, Option, none, some, Bool, true, false, CString, length, take,
  if◌then◌else◌,
}
use spindle.Cache.{max_path_len}
use spindle.Shm.{
  Mapping, no_mapping, in_progress, mapped, ShmEntry, Sheep, Shm, hash_size, sizeof_entry,
  sizeof_sheep_ptr, ◌>>=◌, mark_recently_used, is_in_progress, change, free_sheep_str,
  free_sheep_entry, free_libname, free_result, retry, malloc_sheep_cache, str_hash, lookup_worker,
  set_entry,
}

unfoldable pub mapping_of : Option CString → Mapping
mapping_of none = no_mapping
mapping_of (some text) = mapped text

unfoldable pub new_shm_entry : CString → Mapping → ShmEntry
unfolding str_hash
new_shm_entry name value = record {
  libname = some name;
  result = value;
  hash_key = str_hash name;
  pending_count = 0;
}

-- What a caller is told: a name is copied to a buffer of MAX_PATH_LEN + 1 bytes.
unfoldable pub returned : Mapping → Mapping
returned no_mapping = no_mapping
returned in_progress = in_progress
returned (mapped text) = mapped (take max_path_len text)

unfoldable pub result_of : (ℕ → ShmEntry) → Option ℕ → Option Mapping
result_of entries none = none
result_of entries (some a) = some (entries a).result

unfoldable pub if_allocated : {A : Type 0} → Bool × A → Option A
if_allocated (true, s) = some s
if_allocated (false, s) = none

module _ {Heap : Type 0} where
  -- The end of `shmcache_add_worker`.
  unfoldable pub linked : CString → Mapping → Shm Heap → Shm Heap
  unfolding change new_shm_entry mark_recently_used str_hash
  linked name value s =
      let a = s.next_entry in
      let key = str_hash name in
      record s {
        entries = change a (new_shm_entry name value) s.entries;
        table = change key (a ∷ s.table key) s.table;
        lru = mark_recently_used a s.lru;
        next_entry = a + 1;
      }

  unfoldable pub with_result : ℕ → Mapping → Shm Heap → Shm Heap
  unfolding set_entry
  with_result a value s = set_entry a (record (s.entries a) { result = value }) s

  -- The result is `none` for -1.
  unfoldable pub shmcache_lookup : CString → Shm Heap → Option Mapping × Shm Heap
  unfolding lookup_worker result_of
  shmcache_lookup name s = let (found, t) = lookup_worker name s in (result_of t.entries found, t)

  unfoldable pub count_wait : Option ℕ × Shm Heap → Option (ℕ × Bool) × Shm Heap
  unfolding is_in_progress set_entry
  count_wait (none, s) = (none, s)
  count_wait (some a, s) =
      let entry = s.entries a in
      if is_in_progress entry.result
      then (
        some (a, true),
        set_entry a (record entry { pending_count = (entry.pending_count + 1) % 2 ^ 32 }) s,
      )
      else (some (a, false), s)

  -- `shmcache_waitfor_update` up to its loop: the entry, and whether it is counted as pending.
  unfoldable pub begin_wait : CString → Shm Heap → Option (ℕ × Bool) × Shm Heap
  unfolding lookup_worker count_wait
  begin_wait name s = count_wait (lookup_worker name s)

  -- Its end, for an entry that it counted; the loop has seen that the entry is not in progress.
  unfoldable pub end_wait : ℕ → Shm Heap → Mapping × Shm Heap
  unfolding returned set_entry
  end_wait a s =
      let entry = s.entries a in
      (
        returned entry.result,
        set_entry a (record entry { pending_count = (entry.pending_count + (2 ^ 32 - 1)) % 2 ^ 32 })
            s,
      )

  unfoldable pub empty_shm : Heap → Shm Heap
  empty_shm h = record {
    table = λ key. [];
    lru = [];
    entries = λ a. new_shm_entry [] no_mapping;
    next_entry = 0;
    heap_used = 0;
    heap = h;
  }

  -- What follows an allocation: if it failed, what was allocated before is freed, and the result is -1.
  unfoldable pub or_undo :
      (Shm Heap → Option (Shm Heap))
      → (Shm Heap → Option (Bool × Shm Heap))
      → Bool × Shm Heap
      → Option (Bool × Shm Heap)
  or_undo undo next (true, t) = next t
  or_undo undo next (false, t) = undo t >>= λ u. some (false, u)

module _ {Heap : Type 0} (sheep : Sheep Heap) (limit : ℕ) where
  unfoldable pub add_value : CString → Mapping → Shm Heap → Option (Bool × Shm Heap)
  unfolding linked or_undo malloc_sheep_cache free_sheep_entry free_sheep_str
  add_value name no_mapping s = some (true, linked name no_mapping s)
  add_value name in_progress s = some (true, linked name in_progress s)
  add_value name (mapped text) s =
      malloc_sheep_cache sheep limit (length text + 1) s
      >>= or_undo (λ t. free_sheep_entry sheep t >>= free_sheep_str sheep name)
          λ t. some (true, linked name (mapped text) t)

  unfoldable pub add_name : CString → Mapping → Shm Heap → Option (Bool × Shm Heap)
  unfolding add_value
  add_name name value s =
      malloc_sheep_cache sheep limit (length name + 1) s
      >>= or_undo (free_sheep_entry sheep) (add_value name value)

  -- `shmcache_add_worker(libname, mapped_name, 0)`
  unfoldable pub add_worker : CString → Mapping → Shm Heap → Option (Bool × Shm Heap)
  unfolding add_name retry
  add_worker name value s =
      malloc_sheep_cache sheep limit sizeof_entry s >>= retry (add_name name value)

  -- Without space for the new name, the entry loses its own.
  unfoldable pub unnamed : ℕ → Shm Heap → Option (Shm Heap)
  unfolding set_entry free_libname
  unnamed a s = free_libname sheep (s.entries a).libname s >>= λ t.
      some
        (set_entry a (record (t.entries a) { libname = none; result = no_mapping; hash_key = 0 }) t)

  unfoldable pub set_result : ℕ → Option CString → Shm Heap → Option (Bool × Shm Heap)
  unfolding with_result unnamed or_undo
  set_result a none s = some (true, with_result a no_mapping s)
  set_result a (some text) s =
      malloc_sheep_cache sheep limit (length text + 1) s
      >>= or_undo (unnamed a) (λ t. some (true, with_result a (mapped text) t))

  unfoldable pub update_found : Option CString → Option ℕ × Shm Heap → Option (Bool × Shm Heap)
  unfolding set_result free_result
  update_found value (none, s) = some (false, s)
  update_found value (some a, s) = free_result sheep (s.entries a).result s >>= set_result a value

  unfoldable pub shmcache_update : CString → Option CString → Shm Heap → Option (Bool × Shm Heap)
  unfolding lookup_worker update_found
  shmcache_update name value s = update_found value (lookup_worker name s)

  unfoldable pub shmcache_add : CString → Option CString → Shm Heap → Option (Bool × Shm Heap)
  unfolding add_worker mapping_of
  shmcache_add name value s = add_worker name (mapping_of value) s

  unfoldable pub add_missing :
      CString → Option Mapping × Shm Heap → Option (Option Mapping × Shm Heap)
  unfolding add_worker returned
  add_missing name (some value, s) = some (some (returned value), s)
  add_missing name (none, s) = add_worker name in_progress s >>= λ added. some (none, added.1)

  unfoldable pub shmcache_lookup_or_add : CString → Shm Heap → Option (Option Mapping × Shm Heap)
  unfolding shmcache_lookup add_missing
  shmcache_lookup_or_add name s = add_missing name (shmcache_lookup name s)

  -- `init_cache` of the first client, for a limit other than 0; the result is `none` where the cache
  -- is disabled.
  unfoldable pub init_cache : Heap → Option (Option (Shm Heap))
  unfolding malloc_sheep_cache empty_shm if_allocated
  init_cache h =
      malloc_sheep_cache sheep limit (sizeof_sheep_ptr * hash_size) (empty_shm h) >>= λ result.
      some (if_allocated result)
