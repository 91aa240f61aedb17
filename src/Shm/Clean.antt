-- ===== src/Shm/Clean.antt =====
-- The invariant of the shared cache, and the cleaning of its oldest entry.
use spindle.Prelude.{
  ℕ, ◌+◌, ◌-◌, ◌≤◌, ◌<◌, List, Option, none, some, true, ◌==◌, ◌≡◌, ◌≢◌, refl, sym, ap, ◌∙◌, arith,
  contains, length, leb, CString, Bool-cases, inl, inr,
}
use spindle.Shm.{
  Mapping, no_mapping, in_progress, mapped, ShmEntry, Sheep, Shm, sizeof_entry, without,
  sheep_alloc_size, str_hash, change, freed, free_block, free_sheep_str, free_sheep_entry,
  free_libname, free_result, free_all, unlinked, clean_entry,
}
use spindle.Shm.Lists.{
  IsDistinct, contains-without, contains-without_ne, contains-without_self, without-IsDistinct,
  total, total-without, apart,
}

-- What an entry takes of the heap.
unfoldable pub name_cost : Option CString → ℕ
unfolding sheep_alloc_size
name_cost none = 0
name_cost (some str) = sheep_alloc_size (length str + 1)

unfoldable pub result_cost : Mapping → ℕ
unfolding sheep_alloc_size
result_cost no_mapping = 0
result_cost in_progress = 0
result_cost (mapped text) = sheep_alloc_size (length text + 1)

unfoldable pub entry_cost : ShmEntry → ℕ
unfolding name_cost result_cost
entry_cost entry =
    name_cost entry.libname + result_cost entry.result + sheep_alloc_size sizeof_entry

-- The list by age and the chains have the same entries, once each, in the chain of their own hash;
-- `heap_used` counts the entries and `extra` bytes, within the limit.
pub record IsCache {Heap : Type 0} (limit extra : ℕ) (s : Shm Heap) : Type 0 where
  pub distinct : IsDistinct s.lru
  pub chain_distinct : (key : ℕ) → IsDistinct (s.table key)
  pub fresh : (a : ℕ) → contains a s.lru ≡ true → a < s.next_entry
  pub named :
      (a : ℕ)
      → contains a s.lru ≡ true
      → (str : CString) × ((s.entries a).libname ≡ some str)
        × ((s.entries a).hash_key ≡ str_hash str)
  pub chained :
      (a : ℕ) → contains a s.lru ≡ true → contains a (s.table (s.entries a).hash_key) ≡ true
  pub aged :
      (key a : ℕ)
      → contains a (s.table key) ≡ true
      → (contains a s.lru ≡ true) × ((s.entries a).hash_key ≡ key)
  pub counted : s.heap_used ≡ extra + total (λ a. entry_cost (s.entries a)) s.lru
  pub bounded : s.heap_used ≤ limit
  pub limited : 0 < limit

-- A chain after an entry was unlinked from its own.
unlinked_chain :
    (table : ℕ → List ℕ) (a b own key : ℕ)
    → IsDistinct (table own)
    → contains b (change own (without a (table own)) table key) ≡ true
    → (contains b (table key) ≡ true) × (a ≡ b → key ≢ own)
unfolding change
unlinked_chain table a b own key distinct h = elim (Bool-cases (key == own)) [
  | inl e ↦
      let same : key ≡ own = ground arith in
      let inside : contains b (without a (table own)) ≡ true = cc in
      let outside = contains-without_self a (table own) distinct in
      (rw same (contains-without a b (table own) inside), λ f _. apart a b _ outside inside f)
  | inr e ↦
      let there : contains b (table key) ≡ true = cc in (there, λ _ same. absurd (ground arith))
]

kept_chain :
    (table : ℕ → List ℕ) (a b own key : ℕ)
    → a ≢ b
    → contains b (table key) ≡ true
    → contains b (change own (without a (table own)) table key) ≡ true
unfolding change
kept_chain table a b own key ne h = elim (Bool-cases (key == own)) [
  | inl e ↦
      let same : key ≡ own = ground arith in
      rw e (contains-without_ne a b (table own) ne ∙ ap (λ k. contains b (table k)) (sym same) ∙ h)
  | inr e ↦ rw e h
]

module _ {Heap : Type 0} (sheep : Sheep Heap) where
  abbrev pub spent : ℕ → Heap → Shm Heap → Shm Heap
  spent rest h s = record s { heap_used = rest; heap = h }

  pub free_block_lem :
      (size rest : ℕ) (s : Shm Heap)
      → s.heap_used ≡ sheep_alloc_size size + rest
      → (h : Heap) × (free_block sheep size s ≡ some (spent rest h s))
  unfolding free_block freed
  free_block_lem size rest s e =
      let left : s.heap_used - sheep_alloc_size size ≡ rest = omega (arith, e) in
      let enough : leb (sheep_alloc_size size) s.heap_used ≡ true = ground (arith, e) in
      let h = sheep.free_sheep (sheep_alloc_size size) s.heap in
      (h, rw enough (λ i. some (spent (left i) h s)))

  pub free_result_lem :
      (value : Mapping) (rest : ℕ) (s : Shm Heap)
      → s.heap_used ≡ result_cost value + rest
      → (h : Heap) × (free_result sheep value s ≡ some (spent rest h s))
  unfolding free_result free_sheep_str result_cost
  free_result_lem no_mapping rest s e =
      let same : s.heap_used ≡ rest = omega (arith, e) in
      (s.heap, λ i. some (spent (same i) s.heap s))
  free_result_lem in_progress rest s e =
      let same : s.heap_used ≡ rest = omega (arith, e) in
      (s.heap, λ i. some (spent (same i) s.heap s))
  free_result_lem (mapped text) rest s e = free_block_lem (length text + 1) rest s e

  pub free_libname_lem :
      (name : Option CString) (str : CString) (rest : ℕ) (s : Shm Heap)
      → name ≡ some str
      → s.heap_used ≡ name_cost name + rest
      → (h : Heap) × (free_libname sheep name s ≡ some (spent rest h s))
  unfolding free_libname free_sheep_str name_cost
  free_libname_lem none str rest s named e = cc
  free_libname_lem (some other) str rest s named e = free_block_lem (length other + 1) rest s e

  free_all_lem :
      (entry : ShmEntry) (str : CString) (rest : ℕ) (s : Shm Heap)
      → entry.libname ≡ some str
      → s.heap_used ≡ entry_cost entry + rest
      → (h : Heap) × (free_all sheep entry s ≡ some (spent rest h s))
  unfolding free_all free_sheep_entry entry_cost
  free_all_lem entry str rest s named e =
      let more = sheep_alloc_size sizeof_entry + rest in
      let (g, first) =
        free_libname_lem entry.libname str (result_cost entry.result + more) s named
          (omega (arith, e)) in
      let (h, second) =
        free_result_lem entry.result more (spent (result_cost entry.result + more) g s) refl in
      let (k, third) = free_block_lem sizeof_entry rest (spent more h s) refl in
      (k, rw (first, second) third)

  -- The state after an entry was cleaned.
  unfoldable pub cleaned : ℕ → ℕ → Heap → Shm Heap → Shm Heap
  unfolding unlinked
  cleaned a rest h s = spent rest h (unlinked a s)

  pub clean_entry_lem :
      (limit extra a : ℕ) (s : Shm Heap)
      → IsCache limit extra s
      → contains a s.lru ≡ true
      → (h : Heap) × (clean_entry sheep a s
          ≡ some (cleaned a (extra + total (λ b. entry_cost (s.entries b)) (without a s.lru)) h s))
  unfolding clean_entry cleaned unlinked
  clean_entry_lem limit extra a s is there =
      let (str, named, key) = is.named a there in
      let rest = extra + total (λ b. entry_cost (s.entries b)) (without a s.lru) in
      let (h, freed_all) =
        free_all_lem (s.entries a) str rest (unlinked a s) named (
          omega (arith, is.counted, total-without (λ b. entry_cost (s.entries b)) a s.lru there)) in
      (h, rw (is.chained a there) freed_all)

  pub cleaned-IsCache :
      (limit extra a : ℕ) (h : Heap) (s : Shm Heap)
      → IsCache limit extra s
      → contains a s.lru ≡ true
      → IsCache limit extra
          (cleaned a (extra + total (λ b. entry_cost (s.entries b)) (without a s.lru)) h s)
  unfolding cleaned unlinked change
  cleaned-IsCache limit extra a h s is there =
      let before = contains-without a in
      let outside = contains-without_self a s.lru is.distinct in
      let apart : (b : ℕ) → contains b (without a s.lru) ≡ true → a ≢ b =
        λ b inside. apart a b _ outside inside in
      let sum = total-without (λ b. entry_cost (s.entries b)) a s.lru there in
      record {
        distinct = without-IsDistinct a s.lru is.distinct;
        chain_distinct = λ key. elim (Bool-cases (key == (s.entries a).hash_key)) [
          | inl e ↦ rw e (without-IsDistinct a _ (is.chain_distinct (s.entries a).hash_key))
          | inr e ↦ rw e (is.chain_distinct key)
        ];
        fresh = λ b h. is.fresh b (before b s.lru h);
        named = λ b h. is.named b (before b s.lru h);
        chained = λ b h. kept_chain s.table a b _ _ (apart b h) (is.chained b (before b s.lru h));
        aged = λ key b h.
            let own = (s.entries a).hash_key in
            let (linked, other) = unlinked_chain s.table a b own key (is.chain_distinct own) h in
            let (there, at_key) = is.aged key b linked in
            let ne : a ≢ b =
              λ same. other same (sym at_key ∙ ap (λ c. (s.entries c).hash_key) (sym same)) in
            (contains-without_ne a b s.lru ne ∙ there, at_key);
        counted = refl;
        limited = is.limited;
        bounded = omega (arith, is.counted, is.bounded, sum);
      }
