-- ===== src/Shm/Held.antt =====
-- The clients that wait for an update of the shared cache, and what was stored for a name.
use spindle.Prelude.{
  ℕ, suc, ◌*◌, ◌^◌, ◌<◌, ◌≤◌, List, [], ◌∷◌, some, Bool, true, false, ◌==◌, ◌≡◌, ◌≢◌, refl, sym, ap,
  ◌∙◌, arith, contains, if◌then◌else◌, Bool-cases, inl, inr, ◌⊎◌, CString, length,
}
use spindle.Shm.{
  Mapping, in_progress, ShmEntry, Shm, is_busy, sheep_alloc_size, mark_used, sizeof_sheep_ptr,
  hash_size, without,
}
use spindle.Shm.Lists.{contains-mark_recently_used}
use spindle.Shm.Clean.{IsCache}
use spindle.Shm.Steps.{mark_used-IsCache}
use spindle.Shm.Linked.{next_entry_new}
use spindle.Shm.Added.{Added}
use spindle.Shm.Ops.{new_shm_entry}

-- How many wait on an entry.
unfoldable pub count : ℕ → List ℕ → ℕ
count a [] = 0
count a (b ∷ l) = if b == a then suc (count a l) else count a l

pub count_le : (a : ℕ) (l : List ℕ) → count a l ≤ length l
unfolding count
count_le a [] = omega arith
count_le a (b ∷ l) = ground (arith, count_le a l)

pub count_none : (a : ℕ) (l : List ℕ) → contains a l ≡ false → count a l ≡ 0
unfolding count contains
count_none a [] h = refl
count_none a (b ∷ l) h = ground (arith, count_none a l)

pub count_pos : (a : ℕ) (l : List ℕ) → contains a l ≡ true → 0 < count a l
unfolding count contains
count_pos a [] h = cc
count_pos a (b ∷ l) h = ground (arith, count_pos a l)

pub count-without_self :
    (a : ℕ) (l : List ℕ) → contains a l ≡ true → suc (count a (without a l)) ≡ count a l
unfolding count contains without
count-without_self a [] h = cc
count-without_self a (b ∷ l) h = ground (arith, count-without_self a l)

pub count-without_ne : (a b : ℕ) (l : List ℕ) → a ≢ b → count b (without a l) ≡ count b l
unfolding count without
count-without_ne a b [] ne = refl
count-without_ne a b (c ∷ l) ne = ground (arith, count-without_ne a b l ne)

pub length-without_le : (a : ℕ) (l : List ℕ) → length (without a l) ≤ length l
unfolding without
length-without_le a [] = omega arith
length-without_le a (b ∷ l) = ground (arith, length-without_le a l)

-- A name was once stored with a value.
abbrev pub IsStored : CString → Mapping → List (CString × Mapping) → Type 0
IsStored name value [] = ⊥
IsStored name value ((str, result) ∷ w) = ((str ≡ name) × (result ≡ value)) ⊎ IsStored name value w

abbrev pub Recorded : List (CString × Mapping) → ShmEntry → Type 0
Recorded w entry =
    (entry.result ≡ in_progress)
    ⊎ ((str : CString) × (entry.libname ≡ some str) × IsStored str entry.result w)

abbrev pub table_cost : ℕ
table_cost = sheep_alloc_size (sizeof_sheep_ptr * hash_size)

-- The entries that clients wait on are there and count them; every settled entry was stored so.
pub record Held {Heap : Type 0} (limit : ℕ) (waiters : List ℕ) (w : List (CString × Mapping))
    (s : Shm Heap) : Type 0 where
  pub cache : IsCache limit table_cost s
  pub few : length waiters < 2 ^ 32
  pub here : (a : ℕ) → contains a waiters ≡ true → contains a s.lru ≡ true
  pub pending : (a : ℕ) → contains a s.lru ≡ true → (s.entries a).pending_count ≡ count a waiters
  pub recorded : (a : ℕ) → contains a s.lru ≡ true → Recorded w (s.entries a)

pub Recorded-more :
    (w : List (CString × Mapping)) (name : CString) (value : Mapping) (entry : ShmEntry)
    → Recorded w entry
    → Recorded ((name, value) ∷ w) entry
Recorded-more w name value entry (inl e) = inl e
Recorded-more w name value entry (inr (str, named, stored)) = inr (str, named, inr stored)

module _ {Heap : Type 0} (limit : ℕ) where
  pub waiting-is_busy :
      (waiters : List ℕ) (w : List (CString × Mapping)) (a : ℕ) (s : Shm Heap)
      → Held limit waiters w s
      → contains a waiters ≡ true
      → is_busy (s.entries a) ≡ true
  unfolding is_busy
  waiting-is_busy waiters w a s held h =
      ground (arith, held.pending a (held.here a h), count_pos a waiters h)

  -- A step that keeps what is waited on, and changes or makes entries with the right count and a
  -- recorded value only.
  pub Held-step :
      (waiters : List ℕ) (w v : List (CString × Mapping)) (s t : Shm Heap)
      → Held limit waiters w s
      → IsCache limit table_cost t
      → ((a : ℕ) → contains a waiters ≡ true → contains a t.lru ≡ true)
      → ((entry : ShmEntry) → Recorded w entry → Recorded v entry)
      → ((a : ℕ)
          → contains a t.lru ≡ true
          → ((contains a s.lru ≡ true) × (t.entries a ≡ s.entries a))
            ⊎ (((t.entries a).pending_count ≡ count a waiters) × Recorded v (t.entries a)))
      → Held limit waiters v t
  Held-step waiters w v s t held is here more origin = record {
    cache = is;
    few = held.few;
    here = here;
    pending = λ a h. elim (origin a h) [
      | inl (there, same) ↦ ap (λ e. e.pending_count) same ∙ held.pending a there
      | inr (counts, stored) ↦ counts
    ];
    recorded = λ a h. elim (origin a h) [
      | inl (there, same) ↦ more (t.entries a) (rw same (held.recorded a there))
      | inr (counts, stored) ↦ stored
    ];
  }

  pub mark_used-Held :
      (waiters : List ℕ) (w : List (CString × Mapping)) (a : ℕ) (s : Shm Heap)
      → Held limit waiters w s
      → contains a s.lru ≡ true
      → Held limit waiters w (mark_used a s)
  unfolding mark_used
  mark_used-Held waiters w a s held there =
      Held-step waiters w w s (mark_used a s) held
        (mark_used-IsCache limit table_cost a s held.cache there)
        (λ b h. ground (arith, held.here b h, contains-mark_recently_used a b s.lru)) (λ entry h. h)
        (λ b h. inl (ground (arith, contains-mark_recently_used a b s.lru), refl))

  -- What an addition of a value, or of the mark, leaves.
  pub Added-Held :
      (waiters : List ℕ) (w v : List (CString × Mapping)) (name : CString) (value : Mapping)
      (b : Bool) (s t : Shm Heap)
      → Held limit waiters w s
      → Added limit table_cost name value s b t
      → ((entry : ShmEntry) → Recorded w entry → Recorded v entry)
      → (b ≡ true → Recorded v (new_shm_entry name value))
      → Held limit waiters v t
  unfolding new_shm_entry
  Added-Held waiters w v name value b s t held added more new =
      Held-step waiters w v s t held added.cache
        (λ a h. (added.stays a (waiting-is_busy waiters w a s held h) (held.here a h)).0) more
        (λ a h. elim (origin a h) [
          | inl old ↦ inl old
          | inr (next, same, made) ↦
              let fresh : contains s.next_entry waiters ≡ false =
                elim (Bool-cases (contains s.next_entry waiters)) [
                  | inl e ↦
                      absurd (
                        cc (held.here s.next_entry e, next_entry_new limit table_cost s held.cache))
                  | inr e ↦ e
                ] in
              inr (
                ap (λ e. e.pending_count) same
                    ∙ sym (ap (λ c. count c waiters) next ∙ count_none s.next_entry waiters fresh),
                rw same (new made),
              )
        ])
    where
      origin :
          (a : ℕ)
          → contains a t.lru ≡ true
          → ((contains a s.lru ≡ true) × (t.entries a ≡ s.entries a))
            ⊎ ((a ≡ s.next_entry) × (t.entries a ≡ new_shm_entry name value) × (b ≡ true))
      origin a h = elim (Bool-cases b) [
        | inr failed ↦ inl (added.none_new failed a h)
        | inl made ↦ elim (added.origin a h) [
          | inl old ↦ inl old
          | inr (next, same) ↦ inr (next, same, made)
        ]
      ]
