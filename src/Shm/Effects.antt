-- ===== src/Shm/Effects.antt =====
-- Each operation keeps what clients wait on and record, and returns.
use spindle.Prelude.{
  ℕ, suc, ◌+◌, ◌*◌, ◌%◌, ◌^◌, ◌<◌, List, [], ◌∷◌, Option, none, some, Bool, true, false, ◌==◌, ◌≡◌,
  ◌≢◌, refl, sym, ap, ◌∙◌, arith, contains, Bool-cases, inl, inr, CString, length, Option-cases,
}
use spindle.Shm.{
  Mapping, in_progress, ShmEntry, Sheep, Shm, change, is_in_progress, sheep_alloc_size, mark_used,
  set_entry, found_entry, sizeof_sheep_ptr, hash_size, without, lookup_worker, free_result,
}
use spindle.Shm.Lists.{contains-mark_recently_used, contains-without}
use spindle.Shm.Clean.{IsCache, entry_cost}
use spindle.Shm.Malloc.{Cleaned, Returns, malloc_sheep_cache_lem, with_need}
use spindle.Shm.Steps.{change_self, change_ne, change_field, set_entry-IsCache, found_entry-named}
use spindle.Shm.Added.{add_worker_lem}
use spindle.Shm.Held.{
  Held, Recorded, Recorded-more, mark_used-Held, Added-Held, table_cost, count, IsStored, count_le,
  count-without_self, count-without_ne, length-without_le,
}
use spindle.Shm.Updated.{Updated, set_result_lem, is_in_progress_lem}
use spindle.Shm.Ops.{
  new_shm_entry, add_worker, update_found, shmcache_update, mapping_of, shmcache_lookup,
  shmcache_lookup_or_add, shmcache_add, begin_wait, end_wait, init_cache, empty_shm, if_allocated,
  add_missing, result_of, count_wait, returned,
}

pub IsStored-same :
    (str : CString) (w : List (CString × Mapping)) (q r : Mapping)
    → r ≡ q
    → IsStored str q w
    → IsStored str r w
IsStored-same str w q r same stored = rw same stored

Recorded-of :
    (w : List (CString × Mapping)) (e f : ShmEntry)
    → e.result ≡ f.result
    → e.libname ≡ f.libname
    → Recorded w f
    → Recorded w e
Recorded-of w e f result name (inl open_entry) = inl (result ∙ open_entry)
Recorded-of w e f result name (inr (str, named, stored)) =
    inr (str, name ∙ named, IsStored-same str w f.result e.result result stored)

-- The values that were stored, once an addition of one was tried.
abbrev pub logged :
    Bool → CString → Option CString → List (CString × Mapping) → List (CString × Mapping)
logged true name value w = (name, mapping_of value) ∷ w
logged false name value w = w

Recorded-logged :
    (w : List (CString × Mapping)) (name : CString) (value : Option CString) (b : Bool)
    (entry : ShmEntry)
    → Recorded w entry
    → Recorded (logged b name value w) entry
Recorded-logged w name value true entry r = Recorded-more w name (mapping_of value) entry r
Recorded-logged w name value false entry r = r

module _ {Heap : Type 0} (sheep : Sheep Heap) (limit : ℕ) where
  pub lookup_worker-none :
      (name : CString) (s : Shm Heap) → found_entry name s ≡ none → lookup_worker name s ≡ (none, s)
  unfolding lookup_worker
  lookup_worker-none name s e = rw (lookup_worker, e) refl

  pub lookup_worker-some :
      (name : CString) (a : ℕ) (s : Shm Heap)
      → found_entry name s ≡ some a
      → lookup_worker name s ≡ (some a, mark_used a s)
  unfolding lookup_worker
  lookup_worker-some name a s e = rw (lookup_worker, e) refl

  pub Held-found :
      (ws : List ℕ) (w : List (CString × Mapping)) (name : CString) (a : ℕ) (s : Shm Heap)
      → Held limit ws w s
      → found_entry name s ≡ some a
      → Held limit ws w (mark_used a s)
  Held-found ws w name a s held found =
      mark_used-Held limit ws w a s held
        (found_entry-named limit table_cost a name s held.cache found).0

  pub lookup-Held :
      (ws : List ℕ) (w : List (CString × Mapping)) (name : CString) (s : Shm Heap)
      → Held limit ws w s
      → Held limit ws w (shmcache_lookup name s).1
  unfolding shmcache_lookup
  lookup-Held ws w name s held = elim (Option-cases (found_entry name s)) [
    | inl e ↦ rw (shmcache_lookup, lookup_worker-none name s e) held
    | inr (a, e) ↦
        rw (shmcache_lookup, lookup_worker-some name a s e) (Held-found ws w name a s held e)
  ]

  empty_shm-IsCache : (h : Heap) → 0 < limit → IsCache limit 0 (empty_shm h)
  unfolding empty_shm contains
  empty_shm-IsCache h positive = record {
    distinct = tt;
    chain_distinct = λ key. tt;
    fresh = λ a e. cc;
    named = λ a e. cc;
    chained = λ a e. cc;
    aged = λ key a e. cc;
    counted = refl;
    bounded = omega arith;
    limited = positive;
  }

  pub Held-begun :
      (h : Heap) (b : Bool) (t s : Shm Heap)
      → Cleaned limit (with_need sheep limit b 0 table_cost) (empty_shm h) t
      → if_allocated (b, t) ≡ some s
      → Held limit [] [] s
  unfolding if_allocated contains empty_shm sheep_alloc_size
  Held-begun h false t s c e = cc
  Held-begun h true t s c e =
      let same : t ≡ s = cc in
      rw (← same) (record {
        cache = c.cache;
        few = omega arith;
        here = λ a h. cc;
        pending = λ a h. absurd (cc (c.older a h));
        recorded = λ a h. absurd (cc (c.older a h));
      })

  -- The initialisation ends, with a cache or without.
  pub init_cache_lem :
      (h : Heap)
      → 0 < limit
      → (cache : Option (Shm Heap)) × (init_cache sheep limit h ≡ some cache)
        × ((s : Shm Heap) → cache ≡ some s → Held limit [] [] s)
  unfolding init_cache
  init_cache_lem h positive =
      let (b, t, done, c) =
        malloc_sheep_cache_lem sheep limit 0 (sizeof_sheep_ptr * hash_size) (empty_shm h)
          (empty_shm-IsCache h positive) in
      (if_allocated (b, t), rw done refl, λ s e. Held-begun h b t s c e)

  pub add_worker-Held :
      (ws : List ℕ) (w : List (CString × Mapping)) (v : Bool → List (CString × Mapping))
      (name : CString) (value : Mapping) (s : Shm Heap)
      → Held limit ws w s
      → ((b : Bool) (entry : ShmEntry) → Recorded w entry → Recorded (v b) entry)
      → Recorded (v true) (new_shm_entry name value)
      → Returns (add_worker sheep limit name value s) (λ b t. Held limit ws (v b) t)
  add_worker-Held ws w v name value s held more new =
      let (b, t, done, result) = add_worker_lem sheep limit table_cost name value s held.cache in
      (
        b,
        t,
        done,
        Added-Held limit ws w (v b) name value b s t held result (more b) (λ ok. rw ok new),
      )

  pub lookup_or_add-Held :
      (ws : List ℕ) (w : List (CString × Mapping)) (name : CString) (s : Shm Heap)
      → Held limit ws w s
      → (answer : Option Mapping) × (t : Shm Heap) × (shmcache_lookup_or_add sheep limit name s
          ≡ some (answer, t))
        × Held limit ws w t
  unfolding shmcache_lookup_or_add shmcache_lookup add_missing result_of new_shm_entry
  lookup_or_add-Held ws w name s held = elim (Option-cases (found_entry name s)) [
    | inl e ↦
        let (b, t, done, kept) =
          add_worker-Held ws w (λ b. w) name in_progress s held (λ b entry r. r) (inl refl) in
        (none, t, rw (lookup_worker-none name s e, done) refl, kept)
    | inr (a, e) ↦ (
      some (returned (s.entries a).result),
      mark_used a s,
      rw (lookup_worker-some name a s e) refl,
      Held-found ws w name a s held e,
    )
  ]

  pub add-Held :
      (ws : List ℕ) (w : List (CString × Mapping)) (name : CString) (value : Option CString)
      (s : Shm Heap)
      → Held limit ws w s
      → Returns
          (shmcache_add sheep limit name value s)
          (λ b t. Held limit ws (logged b name value w) t)
  unfolding shmcache_add new_shm_entry
  add-Held ws w name value s held =
      add_worker-Held ws w (λ b. logged b name value w) name (mapping_of value) s held
        (Recorded-logged w name value) (inr (name, refl, inl (refl, refl)))

  pub update-Held :
      (ws : List ℕ) (w : List (CString × Mapping)) (name : CString) (value : Option CString) (a : ℕ)
      (s : Shm Heap)
      → Held limit ws w s
      → found_entry name s ≡ some a
      → is_in_progress (s.entries a).result ≡ true
      → Returns (shmcache_update sheep limit name value s) (λ b t.
        b ≡ true
        → Updated limit ws ((name, mapping_of value) ∷ w) a (mapping_of value) (mark_used a s) t)
  unfolding shmcache_update update_found free_result mark_used
  update-Held ws w name value a s held found open_entry =
      let e : (s.entries a).result ≡ in_progress = is_in_progress_lem _ open_entry in
      let (there, named) = found_entry-named limit table_cost a name s held.cache found in
      let marked = contains-mark_recently_used a a s.lru in
      let result =
        set_result_lem limit a ws w name (mark_used a s) (Held-found ws w name a s held found)
          (ground (arith, marked)) named e sheep value in
      let (b, t, done, good) = result in
      (b, t, rw (lookup_worker-some name a s found, e) done, good)

  -- A name that is not there is not updated.
  pub update_missing :
      (name : CString) (value : Option CString) (s : Shm Heap)
      → found_entry name s ≡ none
      → shmcache_update sheep limit name value s ≡ some (false, s)
  unfolding shmcache_update update_found
  update_missing name value s e = rw (lookup_worker-none name s e) refl

  Held-pending :
      (ws vs : List ℕ) (w : List (CString × Mapping)) (a n : ℕ) (s : Shm Heap)
      → Held limit ws w s
      → contains a s.lru ≡ true
      → length vs < 2 ^ 32
      → ((b : ℕ) → contains b vs ≡ true → contains b s.lru ≡ true)
      → ((b : ℕ) → a ≢ b → count b vs ≡ count b ws)
      → n ≡ count a vs
      → Held limit vs w (set_entry a (record (s.entries a) { pending_count = n }) s)
  unfolding set_entry entry_cost
  Held-pending ws vs w a n s held there few here same counts =
      let entry = record (s.entries a) { pending_count = n } in
      record {
        cache =
            set_entry-IsCache limit table_cost table_cost a entry s held.cache there refl refl refl;
        few = few;
        here = here;
        pending = λ b h. elim (Bool-cases (a == b)) [
          | inl e ↦
              let at : a ≡ b = ground arith in
              ap (λ c. (change a entry s.entries c).pending_count) (sym at)
              ∙ ap (λ e. e.pending_count) (change_self a entry s.entries)
              ∙ counts
              ∙ ap (λ c. count c vs) at
          | inr e ↦
              let other : a ≢ b = λ at. ground arith in
              ap (λ e. e.pending_count) (change_ne a b entry s.entries other)
              ∙ held.pending b h
              ∙ sym (same b other)
        ];
        recorded = λ b h.
            Recorded-of w (change a entry s.entries b) (s.entries b)
              (change_field (λ e. e.result) a b entry s.entries refl)
              (change_field (λ e. e.libname) a b entry s.entries refl) (held.recorded b h);
      }

  counted_wait :
      (ws : List ℕ) (w : List (CString × Mapping)) (name : CString) (a : ℕ) (s : Shm Heap)
      → Held limit ws w s
      → suc (length ws) < 2 ^ 32
      → found_entry name s ≡ some a
      → Held limit (a ∷ ws) w (
          set_entry a
            (record (s.entries a) { pending_count = ((s.entries a).pending_count + 1) % 2 ^ 32 })
            (mark_used a s))
  unfolding count contains mark_used
  counted_wait ws w name a s held few found =
      let after = Held-found ws w name a s held found in
      let there : contains a (mark_used a s).lru ≡ true =
        ground (arith, contains-mark_recently_used a a s.lru) in
      Held-pending ws (a ∷ ws) w a _ (mark_used a s) after there few
        (λ b h. elim (Bool-cases (a == b)) [
          | inl e ↦
              let at : a ≡ b = ground arith in
              ap (λ c. contains c (mark_used a s).lru) (sym at) ∙ there
          | inr e ↦ after.here b (ground (arith, h, e))
        ])
        (λ b ne. ground arith) (ground (arith, after.pending a there, count_le a ws))

  pub wait-Held :
      (ws : List ℕ) (w : List (CString × Mapping)) (name : CString) (a : ℕ) (s t : Shm Heap)
      → Held limit ws w s
      → suc (length ws) < 2 ^ 32
      → begin_wait name s ≡ (some (a, true), t)
      → Held limit (a ∷ ws) w t
  unfolding begin_wait count_wait mark_used
  wait-Held ws w name a s t held few done = elim (Option-cases (found_entry name s)) [
    | inl e ↦
        let result : count_wait (none, s) ≡ (some (a, true), t) =
          ap count_wait (sym (lookup_worker-none name s e)) ∙ done in
        absurd (cc (ap (λ p. p.0) result))
    | inr (b, e) ↦
        let result : count_wait (some b, mark_used b s) ≡ (some (a, true), t) =
          ap count_wait (sym (lookup_worker-some name b s e)) ∙ done in
        elim (Bool-cases (is_in_progress (s.entries b).result)) [
          | inl open_entry ↦
              let counted = rw open_entry at result in
              let at : b ≡ a = cc (ap (λ p. p.0) counted) in
              let now = ap (λ p. p.1) counted in
              rw (← now) (rw (← at) (counted_wait ws w name b s held few e))
          | inr settled ↦ let counted = rw settled at result in absurd (cc (ap (λ p. p.0) counted))
        ]
  ]

  pub waited-Held :
      (ws : List ℕ) (w : List (CString × Mapping)) (a : ℕ) (s : Shm Heap)
      → Held limit ws w s
      → contains a ws ≡ true
      → Held limit (without a ws) w (end_wait a s).1
  unfolding end_wait
  waited-Held ws w a s held waiting =
      let there = held.here a waiting in
      Held-pending ws (without a ws) w a _ s held there
        (omega (arith, held.few, length-without_le a ws))
        (λ b h. held.here b (contains-without a b ws h)) (λ b ne. count-without_ne a b ws ne)
        (omega
          (arith, held.pending a there, held.few, count_le a ws, count-without_self a ws waiting))
