-- ===== src/Shm/Malloc.antt =====
-- `malloc_sheep_cache`: what its cleaning leaves, and that its loops end.
use spindle.Prelude.{
  ℕ, zero, suc, ◌+◌, ◌≤◌, ◌<◌, List, [], ◌∷◌, Option, some, Bool, true, false, ◌==◌, ◌&&◌, ◌≡◌, ◌≢◌,
  refl, sym, ap, ◌∙◌, arith, contains, length, ltb, not, if◌then◌else◌, Bool-cases, Option-cases,
  inl, inr, CString,
}
use spindle.Shm.{
  ShmEntry, Sheep, Shm, change, find_cached, has_name, unlinked, without, ◌>>=◌, sheep_alloc_size,
  oldest, is_busy, clean_oldest_entry, retry, make_room, allocated, allocate, malloc_sheep_cache,
}
use spindle.Shm.Lists.{
  contains-without, contains-without_self, contains-without_ne, length-without, apart, total,
  total-without,
}
use spindle.Shm.Clean.{IsCache, cleaned, clean_entry_lem, cleaned-IsCache, entry_cost}

pub oldest-contains :
    (entries : ℕ → ShmEntry) (l : List ℕ) (a : ℕ)
    → oldest entries l ≡ some a
    → (contains a l ≡ true) × (is_busy (entries a) ≡ false)
unfolding oldest contains
oldest-contains entries [] a h = cc
oldest-contains entries (b ∷ l) a h = elim (Option-cases (oldest entries l)) [
  | inl e ↦ elim (Bool-cases (is_busy (entries b))) [
    | inl kept ↦ cc
    | inr free ↦ let same : b ≡ a = cc in (ground arith, rw (← same) free)
  ]
  | inr (c, e) ↦
      let same : c ≡ a = cc in
      let (there, free) = oldest-contains entries l c e in
      (rw (← same) (ground (arith, there)), rw (← same) free)
]

find_cached-without :
    (entries : ℕ → ShmEntry) (key a c : ℕ) (name : CString) (l : List ℕ)
    → c ≢ a
    → find_cached entries key name l ≡ some a
    → find_cached entries key name (without c l) ≡ some a
unfolding find_cached without
find_cached-without entries key a c name [] ne h = h
find_cached-without entries key a c name (b ∷ l) ne h =
    elim (Bool-cases (has_name key name (entries b))) [
      | inl e ↦ let same : b ≡ a = cc in ground (arith, same)
      | inr e ↦ ground (arith, find_cached-without entries key a c name l ne)
    ]

find_cached-cleaned :
    (entries : ℕ → ShmEntry) (table : ℕ → List ℕ) (own key a c : ℕ) (name : CString)
    → c ≢ a
    → find_cached entries key name (table key) ≡ some a
    → find_cached entries key name (change own (without c (table own)) table key) ≡ some a
unfolding change
find_cached-cleaned entries table own key a c name ne h = elim (Bool-cases (key == own)) [
  | inl e ↦
      let same : key ≡ own = ground arith in
      let found : find_cached entries key name (table own) ≡ some a =
        ap (λ k. find_cached entries key name (table k)) (sym same) ∙ h in
      rw e (find_cached-without entries key a c name (table own) ne found)
  | inr e ↦ rw e h
]

-- What cleaning may do to a cache: no entry changes, and those kept stay.
pub record Cleaned {Heap : Type 0} (limit extra : ℕ) (s t : Shm Heap) : Type 0 where
  pub cache : IsCache limit extra t
  pub same_entries : t.entries ≡ s.entries
  pub same_next : t.next_entry ≡ s.next_entry
  pub older : (a : ℕ) → contains a t.lru ≡ true → contains a s.lru ≡ true
  pub stays :
      (a : ℕ) → is_busy (s.entries a) ≡ true → contains a s.lru ≡ true → contains a t.lru ≡ true
  pub finds :
      (key a : ℕ) (name : CString)
      → contains a t.lru ≡ true
      → find_cached s.entries key name (s.table key) ≡ some a
      → find_cached t.entries key name (t.table key) ≡ some a

-- An outcome, and what holds of it.
module _ {Heap : Type 0} where
  abbrev pub Returns : Option (Bool × Shm Heap) → (Bool → Shm Heap → Type 0) → Type 0
  Returns result Good = (b : Bool) × (t : Shm Heap) × (result ≡ some (b, t)) × Good b t

module _ {Heap : Type 0} (sheep : Sheep Heap) (limit : ℕ) where
  pub Cleaned-none : (extra : ℕ) (s : Shm Heap) → IsCache limit extra s → Cleaned limit extra s s
  Cleaned-none extra s is = record {
    cache = is;
    same_entries = refl;
    same_next = refl;
    older = λ a h. h;
    stays = λ a kept h. h;
    finds = λ key a name h found. found;
  }

  pub Cleaned-trans :
      (extra more : ℕ) (s t u : Shm Heap)
      → Cleaned limit extra s t
      → Cleaned limit more t u
      → Cleaned limit more s u
  Cleaned-trans extra more s t u first second = record {
    cache = second.cache;
    same_entries = second.same_entries ∙ first.same_entries;
    same_next = second.same_next ∙ first.same_next;
    older = λ a h. first.older a (second.older a h);
    stays = λ a kept h.
        second.stays a (ap (λ f. is_busy (f a)) first.same_entries ∙ kept) (first.stays a kept h);
    finds = λ key a name h found.
        second.finds key a name h (first.finds key a name (second.older a h) found);
  }

  pub clean_oldest_entry_lem :
      (extra : ℕ) (s : Shm Heap)
      → IsCache limit extra s
      → (b : Bool) × (t : Shm Heap) × (clean_oldest_entry sheep s ≡ some (b, t))
        × Cleaned limit extra s t
        × (b ≡ true → suc (length t.lru) ≡ length s.lru)
        × (t.heap_used ≤ s.heap_used)
  unfolding clean_oldest_entry cleaned unlinked
  clean_oldest_entry_lem extra s is = elim (Option-cases (oldest s.entries s.lru)) [
    | inl e ↦
        (false, s, rw (e, clean_oldest_entry) refl, Cleaned-none extra s is, λ h. cc, omega arith)
    | inr (a, e) ↦
        let (there, free) = oldest-contains s.entries s.lru a e in
        let (h, done) = clean_entry_lem sheep limit extra a s is there in
        let rest = extra + total (λ b. entry_cost (s.entries b)) (without a s.lru) in
        (
          true,
          cleaned sheep a rest h s,
          rw (e, clean_oldest_entry, done) refl,
          record {
            cache = cleaned-IsCache sheep limit extra a h s is there;
            same_entries = refl;
            same_next = refl;
            older = λ b inside. contains-without a b s.lru inside;
            stays = λ b kept inside.
                contains-without_ne a b s.lru (λ same.
                  let kept_a : is_busy (s.entries a) ≡ true =
                    ap (λ c. is_busy (s.entries c)) same ∙ kept in
                  cc)
                ∙ inside;
            finds = λ key b name inside found.
                find_cached-cleaned s.entries s.table (s.entries a).hash_key key b a name
                  (apart a b _ (contains-without_self a s.lru is.distinct) inside) found;
          },
          λ _. length-without a s.lru there,
          omega (arith, is.counted, total-without (λ b. entry_cost (s.entries b)) a s.lru there),
        )
  ]

  pub retry_lem :
      (Good : Bool → Shm Heap → Type 0) (again : Shm Heap → Option (Bool × Shm Heap))
      (first : Option (Bool × Shm Heap)) (b : Bool) (t : Shm Heap)
      → first ≡ some (b, t)
      → (b ≡ false → Good false t)
      → (b ≡ true → Returns (again t) Good)
      → Returns (first >>= retry again) Good
  unfolding retry
  retry_lem Good again first true t e last more = rw e (more refl)
  retry_lem Good again first false t e last more = rw e (false, t, refl, last refl)

  make_room_lem :
      (fuel extra need : ℕ) (s : Shm Heap)
      → IsCache limit extra s
      → length s.lru < fuel
      → Returns
          (make_room sheep fuel limit need s)
          (λ b t. Cleaned limit extra s t × (b ≡ true → t.heap_used + need ≤ limit))
  unfolding make_room
  make_room_lem zero extra need s is enough = absurd (omega arith)
  make_room_lem (suc fuel) extra need s is enough =
      elim (Bool-cases (not (limit == 0) && ltb limit (s.heap_used + need))) [
        | inr e ↦ rw e (true, s, refl, (Cleaned-none extra s is, λ _. ground (arith, is.limited)))
        | inl e ↦
            let (b, t, done, step, shorter, lighter) = clean_oldest_entry_lem extra s is in
            rw e (
              retry_lem _ (make_room sheep fuel limit need) _ b t done (λ _. (step, λ h. cc))
                (λ h.
                  let (c, u, again, (more, room)) =
                    make_room_lem fuel extra need t step.cache (omega (arith, shorter h, enough)) in
                  (c, u, again, (Cleaned-trans extra extra s t u step more, room))))
      ]

  abbrev pub with_need : Bool → ℕ → ℕ → ℕ
  with_need b extra need = if b then extra + need else extra

  allocated-IsCache :
      (extra need : ℕ) (h : Heap) (s : Shm Heap)
      → IsCache limit extra s
      → s.heap_used + need ≤ limit
      → Cleaned limit (extra + need) s (allocated need h s)
  unfolding allocated
  allocated-IsCache extra need h s is room = record {
    cache = record {
      distinct = is.distinct;
      chain_distinct = is.chain_distinct;
      fresh = is.fresh;
      named = is.named;
      chained = is.chained;
      aged = is.aged;
      counted = omega (arith, is.counted);
      bounded = room;
      limited = is.limited;
    };
    same_entries = refl;
    same_next = refl;
    older = λ a h. h;
    stays = λ a kept h. h;
    finds = λ key a name h found. found;
  }

  allocate_lem :
      (fuel extra size : ℕ) (s : Shm Heap)
      → IsCache limit extra s
      → length s.lru < fuel
      → s.heap_used + sheep_alloc_size size ≤ limit
      → Returns
          (allocate sheep fuel size s)
          (λ b t. Cleaned limit (with_need b extra (sheep_alloc_size size)) s t)
  unfolding allocate
  allocate_lem zero extra size s is enough room = absurd (omega arith)
  allocate_lem (suc fuel) extra size s is enough room =
      elim (Option-cases (sheep.malloc_sheep size s.heap)) [
        | inr (h, e) ↦
            rw (e, allocate)
              (
                true,
                allocated (sheep_alloc_size size) h s,
                refl,
                allocated-IsCache extra (sheep_alloc_size size) h s is room,
              )
        | inl e ↦
            let (b, t, done, step, shorter, lighter) = clean_oldest_entry_lem extra s is in
            rw (e, allocate)
              (retry_lem _ (allocate sheep fuel size) _ b t done (λ _. step)
                (λ h.
                  let (c, u, again, more) =
                    allocate_lem fuel extra size t step.cache (omega (arith, shorter h, enough))
                      (omega (arith, lighter, room)) in
                  (
                    c,
                    u,
                    again,
                    Cleaned-trans extra (with_need c extra (sheep_alloc_size size)) s t u step more,
                  )))
      ]

  -- It ends, with or without the bytes.
  pub malloc_sheep_cache_lem :
      (extra size : ℕ) (s : Shm Heap)
      → IsCache limit extra s
      → Returns
          (malloc_sheep_cache sheep limit size s)
          (λ b t. Cleaned limit (with_need b extra (sheep_alloc_size size)) s t)
  unfolding malloc_sheep_cache
  malloc_sheep_cache_lem extra size s is =
      let (b, t, done, (step, room)) =
        make_room_lem (suc (length s.lru)) extra (sheep_alloc_size size) s is (omega arith) in
      retry_lem _ (λ t. allocate sheep (suc (length t.lru)) size t) _ b t done (λ _. step)
        (λ h.
          let (c, u, again, more) =
            allocate_lem (suc (length t.lru)) extra size t step.cache (omega arith) (room h) in
          (
            c,
            u,
            again,
            Cleaned-trans extra (with_need c extra (sheep_alloc_size size)) s t u step more,
          ))
