-- ===== src/Shm.antt =====
-- The cache in the memory that the clients of a node share, src/client/shm_cache/shmcache.c. Entries
-- are numbered in the order of their creation, which stands for their addresses; the list by age
-- holds the last used entry first, and a chain of the hash table its entries in their order. The
-- allocator, src/biter/sheep.c, is a parameter. Sizes are not cut to 64 bits, since strings in memory
-- are far shorter.
pub mod Entries
pub mod Lists
pub mod Clean
pub mod Malloc
pub mod Ops
pub mod Steps
pub mod Linked
pub mod Added
pub mod Held
pub mod Updated
pub mod Effects
pub mod Reach
pub mod Order
mod Tests
unfoldable pub use Entries.*
use spindle.Prelude.{
  ℕ, zero, suc, ◌+◌, ◌-◌, ◌*◌, ◌/◌, ◌%◌, ◌^◌, List, [], ◌∷◌, ◌++◌, Option, none, some, Bool, true,
  false, not, ◌==◌, ◌&&◌, ◌||◌, ltb, leb, if◌then◌else◌, CString, str_eq, contains, length, take,
}
use spindle.Cache.{max_path_len}

module _ {Heap : Type 0} where
  unfoldable pub unlinked : ℕ → Shm Heap → Shm Heap
  unfolding without change
  unlinked a s =
      let key = (s.entries a).hash_key in
      record s { table = change key (without a (s.table key)) s.table; lru = without a s.lru }

  -- A round of a loop of `malloc_sheep_cache` after the cleaning: with nothing to clean, the result is
  -- NULL.
  unfoldable pub retry :
      (Shm Heap → Option (Bool × Shm Heap)) → Bool × Shm Heap → Option (Bool × Shm Heap)
  retry again (true, t) = again t
  retry again (false, t) = some (false, t)

  unfoldable pub allocated : ℕ → Heap → Shm Heap → Shm Heap
  allocated need h s = record s { heap_used = s.heap_used + need; heap = h }

  unfoldable pub found_entry : CString → Shm Heap → Option ℕ
  unfolding find_cached str_hash
  found_entry name s = find_cached s.entries (str_hash name) name (s.table (str_hash name))

  unfoldable pub mark_used : ℕ → Shm Heap → Shm Heap
  unfolding mark_recently_used
  mark_used a s = record s { lru = mark_recently_used a s.lru }

  -- `none` for the result -1.
  unfoldable pub lookup_worker : CString → Shm Heap → Option ℕ × Shm Heap
  unfolding found_entry mark_used
  lookup_worker name s = elim (found_entry name s) [
    | none ↦ (none, s)
    | some a ↦ (some a, mark_used a s)
  ]

  unfoldable pub set_entry : ℕ → ShmEntry → Shm Heap → Shm Heap
  unfolding change
  set_entry a entry s = record s { entries = change a entry s.entries }

module _ {Heap : Type 0} (sheep : Sheep Heap) where
  unfoldable pub freed : ℕ → Shm Heap → Shm Heap
  unfolding sheep_alloc_size
  freed size s = record s {
    heap_used = s.heap_used - sheep_alloc_size size;
    heap = sheep.free_sheep (sheep_alloc_size size) s.heap;
  }

  unfoldable pub free_block : ℕ → Shm Heap → Option (Shm Heap)
  unfolding freed
  free_block size s = if leb (sheep_alloc_size size) s.heap_used then some (freed size s) else none

  unfoldable pub free_sheep_str : CString → Shm Heap → Option (Shm Heap)
  unfolding free_block
  free_sheep_str str s = free_block (length str + 1) s

  unfoldable pub free_sheep_entry : Shm Heap → Option (Shm Heap)
  unfolding free_block
  free_sheep_entry s = free_block sizeof_entry s

  unfoldable pub free_libname : Option CString → Shm Heap → Option (Shm Heap)
  unfolding free_sheep_str
  free_libname none s = none
  free_libname (some str) s = free_sheep_str str s

  -- What is neither NULL nor the mark.
  unfoldable pub free_result : Mapping → Shm Heap → Option (Shm Heap)
  unfolding free_sheep_str
  free_result no_mapping s = some s
  free_result in_progress s = some s
  free_result (mapped text) s = free_sheep_str text s

  unfoldable pub free_all : ShmEntry → Shm Heap → Option (Shm Heap)
  unfolding free_libname free_result free_sheep_entry
  free_all entry s = do
    t ← free_libname entry.libname s
    u ← free_result entry.result t
    free_sheep_entry u

  -- The rest of `clean_oldest_entry`: for an entry that its chain has not, the search of its
  -- predecessor reads through NULL.
  unfoldable pub clean_entry : ℕ → Shm Heap → Option (Shm Heap)
  unfolding unlinked free_all
  clean_entry a s =
      if contains a (s.table (s.entries a).hash_key)
      then free_all (s.entries a) (unlinked a s)
      else none

  -- Whether an entry was cleaned, or the result is -1.
  unfoldable pub clean_oldest_entry : Shm Heap → Option (Bool × Shm Heap)
  unfolding oldest clean_entry
  clean_oldest_entry s = elim (oldest s.entries s.lru) [
    | none ↦ some (false, s)
    | some a ↦ clean_entry a s >>= λ t. some (true, t)
  ]

  -- The first loop, and whether there is room then; `none` also if it runs out of fuel.
  unfoldable pub make_room : ℕ → ℕ → ℕ → Shm Heap → Option (Bool × Shm Heap)
  unfolding clean_oldest_entry retry
  make_room zero limit need s = none
  make_room (suc fuel) limit need s =
      if not (limit == 0) && ltb limit (s.heap_used + need)
      then clean_oldest_entry s >>= retry (make_room fuel limit need)
      else some (true, s)

  -- The second loop, and the addition after it.
  unfoldable pub allocate : ℕ → ℕ → Shm Heap → Option (Bool × Shm Heap)
  unfolding clean_oldest_entry retry sheep_alloc_size allocated
  allocate zero size s = none
  allocate (suc fuel) size s = elim (sheep.malloc_sheep size s.heap) [
    | some h ↦ some (true, allocated (sheep_alloc_size size) h s)
    | none ↦ clean_oldest_entry s >>= retry (allocate fuel size)
  ]

  -- Whether it succeeds. The list by age bounds the rounds.
  unfoldable pub malloc_sheep_cache : ℕ → ℕ → Shm Heap → Option (Bool × Shm Heap)
  unfolding make_room allocate retry
  malloc_sheep_cache limit size s =
      make_room (suc (length s.lru)) limit (sheep_alloc_size size) s
      >>= retry (λ t. allocate (suc (length t.lru)) size t)
