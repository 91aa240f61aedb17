-- ===== src/Shm/Reach.antt =====
-- The histories of a cache that clients share, and what holds after each.
use spindle.Prelude.{
  ℕ, suc, ◌^◌, ◌<◌, List, [], ◌∷◌, Option, none, some, Bool, true, false, ◌≡◌, refl, sym, ap, ◌∙◌,
  contains, inl, inr, ◌⊎◌, CString, length, Option-cases,
}
use spindle.Shm.{Mapping, in_progress, Sheep, Shm, is_in_progress, mark_used, found_entry, without}
use spindle.Shm.Clean.{IsCache}
use spindle.Shm.Steps.{found_entry-named}
use spindle.Shm.Added.{add_worker_lem}
use spindle.Shm.Held.{Held, table_cost, count, IsStored}
use spindle.Shm.Effects.{
  logged, lookup_worker-some, lookup_worker-none, lookup-Held, init_cache_lem, lookup_or_add-Held,
  IsStored-same, add-Held, update-Held, update_missing, wait-Held, waited-Held,
}
use spindle.Shm.Ops.{
  new_shm_entry, shmcache_update, mapping_of, shmcache_lookup, shmcache_lookup_or_add, shmcache_add,
  begin_wait, end_wait, init_cache, result_of,
}

-- The clients that wait, the values that were stored, and the cache, after a history of calls in
-- which each update is of a name in progress and finds space for its value, and fewer than 2^32
-- clients wait at once, as the count of an entry has 32 bits. The code can leave these histories:
-- `shmcache_update` can fail for want of space (its entry is then half removed), and, since
-- `shmcache_lookup_or_add` ignores a failed addition, a client that found no space may later
-- update a name that another client has added and settled.
pub data Reach {Heap : Type 0} (sheep : Sheep Heap) (limit : ℕ)
    : List ℕ → List (CString × Mapping) → Shm Heap → Type 0 where
  begun :
      (h : Heap) (s : Shm Heap)
      → 0 < limit
      → init_cache sheep limit h ≡ some (some s)
      → Reach sheep limit [] [] s
  looked_up :
      {ws : List ℕ} {w : List (CString × Mapping)} {s : Shm Heap} (name : CString)
      → Reach sheep limit ws w s
      → Reach sheep limit ws w (shmcache_lookup name s).1
  looked_up_or_added :
      {ws : List ℕ} {w : List (CString × Mapping)} {s : Shm Heap} (name : CString)
      (answer : Option Mapping) (t : Shm Heap)
      → Reach sheep limit ws w s
      → shmcache_lookup_or_add sheep limit name s ≡ some (answer, t)
      → Reach sheep limit ws w t
  added :
      {ws : List ℕ} {w : List (CString × Mapping)} {s : Shm Heap} (name : CString)
      (value : Option CString) (b : Bool) (t : Shm Heap)
      → Reach sheep limit ws w s
      → shmcache_add sheep limit name value s ≡ some (b, t)
      → Reach sheep limit ws (logged b name value w) t
  updated :
      {ws : List ℕ} {w : List (CString × Mapping)} {s : Shm Heap} (name : CString)
      (value : Option CString) (a : ℕ) (t : Shm Heap)
      → Reach sheep limit ws w s
      → found_entry name s ≡ some a
      → is_in_progress (s.entries a).result ≡ true
      → shmcache_update sheep limit name value s ≡ some (true, t)
      → Reach sheep limit ws ((name, mapping_of value) ∷ w) t
  waits :
      {ws : List ℕ} {w : List (CString × Mapping)} {s : Shm Heap} (name : CString) (a : ℕ)
      (t : Shm Heap)
      → Reach sheep limit ws w s
      → suc (length ws) < 2 ^ 32
      → begin_wait name s ≡ (some (a, true), t)
      → Reach sheep limit (a ∷ ws) w t
  waited :
      {ws : List ℕ} {w : List (CString × Mapping)} {s : Shm Heap} (a : ℕ)
      → Reach sheep limit ws w s
      → contains a ws ≡ true
      → Reach sheep limit (without a ws) w (end_wait a s).1

module _ {Heap : Type 0} (sheep : Sheep Heap) (limit : ℕ) where
  lookup_found :
      (name : CString) (a : ℕ) (s : Shm Heap)
      → found_entry name s ≡ some a
      → shmcache_lookup name s ≡ (some (s.entries a).result, mark_used a s)
  unfolding shmcache_lookup result_of mark_used
  lookup_found name a s e = rw (lookup_worker-some sheep limit name a s e) refl

  lookup_missing :
      (name : CString) (s : Shm Heap)
      → found_entry name s ≡ none
      → shmcache_lookup name s ≡ (none, s)
  unfolding shmcache_lookup result_of
  lookup_missing name s e = rw (lookup_worker-none sheep limit name s e) refl

  pub Reach-Held :
      (ws : List ℕ) (w : List (CString × Mapping)) (s : Shm Heap)
      → Reach sheep limit ws w s
      → Held limit ws w s
  Reach-Held ws w s (begun h s' positive started) =
      let (cache, done, held) = init_cache_lem sheep limit h positive in held s' cc
  Reach-Held ws w s (looked_up name r) = lookup-Held sheep limit ws w name _ (Reach-Held _ _ _ r)
  Reach-Held ws w s (looked_up_or_added name answer t r e) =
      let (_, u, done, held) = lookup_or_add-Held sheep limit ws w name _ (Reach-Held _ _ _ r) in
      let same : u ≡ t = cc in rw (← same) held
  Reach-Held ws w s (added name value b t r e) =
      let (c, u, done, held) = add-Held sheep limit _ _ name value _ (Reach-Held _ _ _ r) in
      let same : u ≡ t = cc in let made : c ≡ b = cc in rw (← same) (rw made at held)
  Reach-Held ws w s (updated name value a t r found open_entry e) =
      let (c, u, done, good) =
        update-Held sheep limit _ _ name value a _ (Reach-Held _ _ _ r) found open_entry in
      let same : u ≡ t = cc in
      let ok : c ≡ true = cc in let result = good ok in rw (← same) result.held
  Reach-Held ws w s (waits name a t r few e) =
      wait-Held sheep limit _ _ name a _ t (Reach-Held _ _ _ r) few e
  Reach-Held ws w s (waited a r waiting) =
      waited-Held sheep limit _ _ a _ (Reach-Held _ _ _ r) waiting

  -- After any history in which fewer than 2^32 clients wait at once and each update is of a name in
  -- progress and finds space for its value, the list by age and the hash chains hold the same
  -- entries, once each and in the chain of their own hash, and `heap_used` is what the table and
  -- they take, within the limit.
  pub Reach-IsCache :
      (ws : List ℕ) (w : List (CString × Mapping)) (s : Shm Heap)
      → Reach sheep limit ws w s
      → IsCache limit table_cost s
  Reach-IsCache ws w s r = Held.cache (Reach-Held ws w s r)

  -- After any history in which fewer than 2^32 clients wait at once and each update is of a name in
  -- progress and finds space for its value, an entry that clients wait on is in the cache and
  -- counts them: no other client's allocation took it.
  pub waiters_stay :
      (ws : List ℕ) (w : List (CString × Mapping)) (s : Shm Heap) (a : ℕ)
      → Reach sheep limit ws w s
      → contains a ws ≡ true
      → (contains a s.lru ≡ true) × ((s.entries a).pending_count ≡ count a ws)
  waiters_stay ws w s a r waiting =
      let held = Reach-Held ws w s r in (held.here a waiting, held.pending a (held.here a waiting))

  -- After any history in which fewer than 2^32 clients wait at once and each update is of a name in
  -- progress and finds space for its value, what a lookup finds settled was stored for that very
  -- name by an addition or an update that succeeded.
  pub lookup-IsStored :
      (ws : List ℕ) (w : List (CString × Mapping)) (s t : Shm Heap) (name : CString)
      (value : Mapping)
      → Reach sheep limit ws w s
      → shmcache_lookup name s ≡ (some value, t)
      → (value ≡ in_progress) ⊎ IsStored name value w
  lookup-IsStored ws w s t name value r looked =
      let held = Reach-Held ws w s r in
      elim (Option-cases (found_entry name s)) [
        | inl e ↦
            let answer = ap (λ p. p.0) (sym (lookup_missing name s e) ∙ looked) in
            absurd (cc answer)
        | inr (a, e) ↦
            let answer : (s.entries a).result ≡ value =
              cc (ap (λ p. p.0) (sym (lookup_found name a s e) ∙ looked)) in
            let (there, named) = found_entry-named limit table_cost a name s held.cache e in
            elim (held.recorded a there) [
              | inl open_entry ↦ inl (sym answer ∙ open_entry)
              | inr (str, is, stored) ↦
                  let same : str ≡ name = cc in
                  inr (rw (← same) (IsStored-same str w _ value (sym answer) stored))
            ]
      ]

  -- After any history in which fewer than 2^32 clients wait at once and each update is of a name in
  -- progress and finds space for its value, a lookup-or-add, an addition, and an update of a name
  -- that is missing or in progress, each return, through whatever cleaning they do: they neither
  -- fail an assertion nor read through NULL.
  pub operations_return :
      (ws : List ℕ) (w : List (CString × Mapping)) (s : Shm Heap) (name : CString)
      (value : Option CString)
      → Reach sheep limit ws w s
      → ((a : ℕ) → found_entry name s ≡ some a → is_in_progress (s.entries a).result ≡ true)
      → ((answer : Option Mapping) × (t : Shm Heap) × (shmcache_lookup_or_add sheep limit name s
            ≡ some (answer, t)))
        × ((b : Bool) × (t : Shm Heap) × (shmcache_add sheep limit name value s ≡ some (b, t)))
        × ((b : Bool) × (t : Shm Heap) × (shmcache_update sheep limit name value s ≡ some (b, t)))
  operations_return ws w s name value r open_entry =
      let held = Reach-Held ws w s r in
      let (answer, t, looked, _) = lookup_or_add-Held sheep limit ws w name s held in
      let (b, u, done, _) = add-Held sheep limit ws w name value s held in
      (
        (answer, t, looked),
        (b, u, done),
        elim (Option-cases (found_entry name s)) [
          | inl e ↦ (false, s, update_missing sheep limit name value s e)
          | inr (a, e) ↦
              let (c, v, updated_to, _) =
                update-Held sheep limit ws w name value a s held e (open_entry a e) in
              (c, v, updated_to)
        ],
      )

  -- After any history in which fewer than 2^32 clients wait at once and each update is of a name in
  -- progress and finds space for its value, a lookup that follows a further successful update of a
  -- name in progress gives the new value.
  pub lookup-update :
      (ws : List ℕ) (w : List (CString × Mapping)) (s t : Shm Heap) (name : CString)
      (value : Option CString) (a : ℕ)
      → Reach sheep limit ws w s
      → found_entry name s ≡ some a
      → is_in_progress (s.entries a).result ≡ true
      → shmcache_update sheep limit name value s ≡ some (true, t)
      → (shmcache_lookup name t).0 ≡ some (mapping_of value)
  unfolding found_entry mark_used
  lookup-update ws w s t name value a r found open_entry done =
      let held = Reach-Held ws w s r in
      let (b, u, again, good) = update-Held sheep limit ws w name value a s held found open_entry in
      let same : u ≡ t = cc in
      let ok : b ≡ true = cc in
      let result = good ok in
      rw (← same)
        (ap (λ p. p.0) (lookup_found name a u (result.finds name found)) ∙ ap some result.value_at)

  -- So does one that follows a successful addition.
  pub lookup-add :
      (ws : List ℕ) (w : List (CString × Mapping)) (s t : Shm Heap) (name : CString)
      (value : Option CString)
      → Reach sheep limit ws w s
      → shmcache_add sheep limit name value s ≡ some (true, t)
      → (shmcache_lookup name t).0 ≡ some (mapping_of value)
  unfolding shmcache_add new_shm_entry
  lookup-add ws w s t name value r done =
      let held = Reach-Held ws w s r in
      let (b, u, again, result) =
        add_worker_lem sheep limit table_cost name (mapping_of value) s held.cache in
      let same : u ≡ t = cc in
      let ok : b ≡ true = cc in
      let (found, entry) = result.made ok in
      rw (← same)
        (ap (λ p. p.0) (lookup_found name s.next_entry u found) ∙ ap (λ e. some e.result) entry)
