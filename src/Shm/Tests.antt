-- ===== src/Shm/Tests.antt =====
-- A cache with room for two settled names, which three names go through while a client waits.
use spindle.Prelude.{
  ℕ, ◌+◌, ◌-◌, ◌++◌, List, [], ◌∷◌, Option, none, some, Bool, true, false, ◌≡◌, refl, arith,
  contains, str_eq, CString, leb, if◌then◌else◌, ◌⊎◌, All,
}
use spindle.Shm.{
  Mapping, no_mapping, in_progress, mapped, Sheep, Shm, found_entry, is_in_progress, is_busy,
  clean_oldest_entry,
}
use spindle.Shm.Clean.{IsCache}
use spindle.Shm.Held.{table_cost, count, IsStored}
use spindle.Shm.Ops.{
  mapping_of, shmcache_lookup, shmcache_lookup_or_add, shmcache_add, shmcache_update, begin_wait,
  init_cache, empty_shm,
}
use spindle.Shm.Reach.{
  Reach, begun, looked_up_or_added, added, updated, waits, Reach-IsCache, waiters_stay,
  lookup-IsStored, operations_return, lookup-update,
}
use spindle.Shm.Order.{clean_oldest_entry_order}

-- An allocator that counts the bytes that are left.
abbrev counter : Sheep ℕ
counter = record {
  malloc_sheep = λ size left. if leb size left then some (left - size) else none;
  free_sheep = λ size left. left + size;
}

abbrev small : ℕ
small = 4324

abbrev cache_of : {A : Type 0} → Shm ℕ → (A → Shm ℕ) → Option A → Shm ℕ
cache_of other f none = other
cache_of other f (some a) = f a

abbrev no_cache : Shm ℕ
no_cache = empty_shm 0

abbrev cache_0 : Shm ℕ
cache_0 = cache_of no_cache (cache_of no_cache (λ s. s)) (init_cache counter small 100000)

abbrev cache_1 : Shm ℕ
cache_1 = cache_of no_cache (λ r. r.1) (shmcache_lookup_or_add counter small (97 ∷ []) cache_0)

abbrev cache_2 : Shm ℕ
cache_2 = (begin_wait (97 ∷ []) cache_1).1

abbrev cache_3 : Shm ℕ
cache_3 =
    cache_of no_cache (λ r. r.1) (shmcache_update counter small (97 ∷ []) (some (120 ∷ [])) cache_2)

abbrev cache_4 : Shm ℕ
cache_4 =
    cache_of no_cache (λ r. r.1) (shmcache_add counter small (98 ∷ []) (some (121 ∷ [])) cache_3)

abbrev cache_5 : Shm ℕ
cache_5 = cache_of no_cache (λ r. r.1) (shmcache_add counter small (99 ∷ []) none cache_4)

reach_2 : Reach counter small (0 ∷ []) [] cache_2
unfolding str_eq contains init_cache shmcache_lookup_or_add begin_wait
reach_2 =
    waits (97 ∷ []) 0 cache_2
      (looked_up_or_added (97 ∷ []) none cache_1 (begun 100000 cache_0 (omega arith) refl) refl)
      (omega arith) refl

abbrev stored_5 : List (CString × Mapping)
stored_5 = (99 ∷ [], no_mapping) ∷ (98 ∷ [], mapped (121 ∷ [])) ∷ (97 ∷ [], mapped (120 ∷ [])) ∷ []

reach_5 : Reach counter small (0 ∷ []) stored_5 cache_5
unfolding str_eq contains init_cache shmcache_lookup_or_add begin_wait shmcache_update shmcache_add
    mapping_of found_entry is_in_progress
reach_5 =
    added (99 ∷ []) none true cache_5
      (added (98 ∷ []) (some (121 ∷ [])) true cache_4
        (updated (97 ∷ []) (some (120 ∷ [])) 0 cache_3 reach_2 refl refl refl) refl)
      refl

-- The second name is gone, since a client waits on the first.
second_gone : cache_5.lru ≡ 2 ∷ 0 ∷ []
unfolding str_eq contains init_cache shmcache_lookup_or_add begin_wait shmcache_update shmcache_add
second_gone = refl

Reach-IsCache_example : IsCache small table_cost cache_5
Reach-IsCache_example = Reach-IsCache counter small (0 ∷ []) stored_5 cache_5 reach_5

waiters_stay_example :
    (contains 0 cache_5.lru ≡ true) × ((cache_5.entries 0).pending_count ≡ count 0 (0 ∷ []))
unfolding contains
waiters_stay_example = waiters_stay counter small (0 ∷ []) stored_5 cache_5 0 reach_5 refl

lookup-IsStored_example :
    (mapped (120 ∷ []) ≡ in_progress) ⊎ IsStored (97 ∷ []) (mapped (120 ∷ [])) stored_5
unfolding str_eq contains init_cache shmcache_lookup_or_add begin_wait shmcache_update shmcache_add
    shmcache_lookup
lookup-IsStored_example =
    lookup-IsStored counter small (0 ∷ []) stored_5 cache_5 (shmcache_lookup (97 ∷ []) cache_5).1
      (97 ∷ []) (mapped (120 ∷ [])) reach_5 refl

none_apart : (found : Option ℕ) (a : ℕ) → found ≡ none → found ≡ some a → ⊥
none_apart found a missing there = cc

operations_return_example :
    ((answer : Option Mapping) × (t : Shm ℕ) × (shmcache_lookup_or_add counter small
          (100 ∷ [])
          cache_5
        ≡ some (answer, t)))
    × ((b : Bool) × (t : Shm ℕ) × (shmcache_add counter small (100 ∷ []) (some (119 ∷ [])) cache_5
          ≡ some (b, t)))
    × ((b : Bool) × (t : Shm ℕ) × (shmcache_update counter small
            (100 ∷ [])
            (some (119 ∷ []))
            cache_5
          ≡ some (b, t)))
unfolding str_eq contains init_cache shmcache_lookup_or_add begin_wait shmcache_update shmcache_add
    found_entry
operations_return_example =
    operations_return counter small (0 ∷ []) stored_5 cache_5 (100 ∷ []) (some (119 ∷ [])) reach_5
      (λ a h. absurd (none_apart (found_entry (100 ∷ []) cache_5) a refl h))

lookup-update_example : (shmcache_lookup (97 ∷ []) cache_3).0 ≡ some (mapped (120 ∷ []))
unfolding str_eq contains init_cache shmcache_lookup_or_add begin_wait shmcache_update found_entry
    is_in_progress mapping_of
lookup-update_example =
    lookup-update counter small (0 ∷ []) [] cache_2 cache_3 (97 ∷ []) (some (120 ∷ [])) 0 reach_2
      refl refl refl

clean_oldest_entry_order_example :
    ((clean_oldest_entry counter cache_5 ≡ some (false, cache_5))
      × All (λ b. is_busy (cache_5.entries b) ≡ true) cache_5.lru)
    ⊎ ((a : ℕ) × (t : Shm ℕ) × (front back : List ℕ) × (clean_oldest_entry counter cache_5
          ≡ some (true, t))
        × (cache_5.lru ≡ front ++ (a ∷ back))
        × (t.lru ≡ front ++ back)
        × (is_busy (cache_5.entries a) ≡ false)
        × All (λ b. is_busy (cache_5.entries b) ≡ true) back)
clean_oldest_entry_order_example =
    clean_oldest_entry_order counter small table_cost cache_5 Reach-IsCache_example

-- A cache with room for a name, but not for what it maps to.
abbrev tight : ℕ
tight = 4190

abbrev tight_1 : Shm ℕ
tight_1 =
    cache_of no_cache (λ r. r.1)
      (shmcache_lookup_or_add counter tight (97 ∷ [])
        (cache_of no_cache (cache_of no_cache (λ s. s)) (init_cache counter tight 100000)))

abbrev tight_2 : Shm ℕ
tight_2 =
    cache_of no_cache (λ r. r.1) (shmcache_update counter tight (97 ∷ []) (some (120 ∷ [])) tight_1)

-- After a failed update, the next cleaning reads through NULL.
failed_update_then_add : shmcache_add counter tight (98 ∷ []) none tight_2 ≡ none
unfolding str_eq contains init_cache shmcache_lookup_or_add shmcache_update shmcache_add
failed_update_then_add = refl
