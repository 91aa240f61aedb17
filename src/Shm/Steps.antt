-- ===== src/Shm/Steps.antt =====
-- What the operations of the shared cache leave of its invariant and of the other entries.
use spindle.Prelude.{
  ℕ, ◌+◌, List, [], ◌∷◌, some, true, ◌==◌, ◌≡◌, ◌≢◌, refl, sym, ap, ◌∙◌, arith, contains,
  Bool-cases, Option-cases, inl, inr, CString, str_eq_sound,
}
use spindle.Shm.{
  ShmEntry, Sheep, Shm, sheep_alloc_size, free_block, set_entry, change, mark_used, found_entry,
  find_cached, has_name, str_hash, mark_recently_used, without,
}
use spindle.Shm.Lists.{
  IsDistinct, contains-mark_recently_used, mark_recently_used-IsDistinct, total-mark_recently_used,
  total, total_congr, total-without, apart, contains-without_self,
}
use spindle.Shm.Clean.{IsCache, entry_cost, spent, free_block_lem}

has_name-libname :
    (key : ℕ) (name : CString) (entry : ShmEntry)
    → has_name key name entry ≡ true
    → entry.libname ≡ some name
unfolding has_name
has_name-libname key name entry e = elim (Option-cases entry.libname) [
  | inl e_none ↦ ground (arith, e_none)
  | inr (str, is) ↦
      let same : str ≡ name = str_eq_sound str name (ground (arith, is)) in rw (← same) is
]

pub find_entry_lem :
    (entries : ℕ → ShmEntry) (key a : ℕ) (name : CString) (chain : List ℕ)
    → find_cached entries key name chain ≡ some a
    → (contains a chain ≡ true) × ((entries a).libname ≡ some name)
unfolding find_cached contains
find_entry_lem entries key a name [] h = cc
find_entry_lem entries key a name (b ∷ chain) h =
    elim (Bool-cases (has_name key name (entries b))) [
      | inl e ↦
          let same : b ≡ a = cc in
          (ground (arith, same), rw (← same) (has_name-libname key name (entries b) e))
      | inr e ↦
          let (there, named) = find_entry_lem entries key a name chain cc in
          (ground (arith, there), named)
    ]

pub change_field :
    {B : Type 0} (field : ShmEntry → B) (a b : ℕ) (entry : ShmEntry) (entries : ℕ → ShmEntry)
    → field entry ≡ field (entries a)
    → field (change a entry entries b) ≡ field (entries b)
unfolding change
change_field field a b entry entries same = elim (Bool-cases (b == a)) [
  | inl e ↦ let at : b ≡ a = ground arith in rw e (same ∙ ap (λ c. field (entries c)) (sym at))
  | inr e ↦ rw e refl
]

pub change_self : {B : Type 0} (a : ℕ) (value : B) (f : ℕ → B) → change a value f a ≡ value
unfolding change
change_self a value f = ground arith

pub change_ne : {B : Type 0} (a b : ℕ) (value : B) (f : ℕ → B) → a ≢ b → change a value f b ≡ f b
unfolding change
change_ne a b value f ne = ground arith

total_change :
    (entries : ℕ → ShmEntry) (a : ℕ) (entry : ShmEntry) (l : List ℕ)
    → IsDistinct l
    → contains a l ≡ true
    → total (λ b. entry_cost (change a entry entries b)) l + entry_cost (entries a)
      ≡ total (λ b. entry_cost (entries b)) l + entry_cost entry
total_change entries a entry l distinct there =
    let old : ℕ → ℕ = λ b. entry_cost (entries b) in
    let new : ℕ → ℕ = λ b. entry_cost (change a entry entries b) in
    let rest : total new (without a l) ≡ total old (without a l) =
      total_congr new old (without a l) (λ b h.
        ap entry_cost
          (change_ne a b entry entries (apart a b _ (contains-without_self a l distinct) h))) in
    let self : new a ≡ entry_cost entry = ap entry_cost (change_self a entry entries) in
    omega (arith, rest, self, total-without old a l there, total-without new a l there)

module _ {Heap : Type 0} (limit : ℕ) where
  -- A search gives an entry of the cache that has the name.
  pub found_entry-named :
      (extra a : ℕ) (name : CString) (s : Shm Heap)
      → IsCache limit extra s
      → found_entry name s ≡ some a
      → (contains a s.lru ≡ true) × ((s.entries a).libname ≡ some name)
  unfolding found_entry
  found_entry-named extra a name s is h =
      let (there, named) =
        find_entry_lem s.entries (str_hash name) a name (s.table (str_hash name)) h in
      let (cached, key) = is.aged (str_hash name) a there in (cached, named)

  pub mark_used-IsCache :
      (extra a : ℕ) (s : Shm Heap)
      → IsCache limit extra s
      → contains a s.lru ≡ true
      → IsCache limit extra (mark_used a s)
  unfolding mark_used
  mark_used-IsCache extra a s is there =
      let same : (b : ℕ)
          → contains b (mark_recently_used a s.lru) ≡ true
          → contains b s.lru ≡ true =
        λ b h. ground (arith, contains-mark_recently_used a b s.lru) in
      record {
        distinct = mark_recently_used-IsDistinct a s.lru is.distinct;
        chain_distinct = is.chain_distinct;
        fresh = λ b h. is.fresh b (same b h);
        named = λ b h. is.named b (same b h);
        chained = λ b h. is.chained b (same b h);
        aged = λ key b h.
            let (cached, at) = is.aged key b h in
            (ground (arith, cached, contains-mark_recently_used a b s.lru), at);
        counted = omega (
          arith,
          is.counted,
          total-mark_recently_used (λ b. entry_cost (s.entries b)) a s.lru there,
        );
        bounded = is.bounded;
        limited = is.limited;
      }

  -- An entry changed in place, but for its name.
  pub set_entry-IsCache :
      (extra more a : ℕ) (entry : ShmEntry) (s : Shm Heap)
      → IsCache limit extra s
      → contains a s.lru ≡ true
      → entry.libname ≡ (s.entries a).libname
      → entry.hash_key ≡ (s.entries a).hash_key
      → extra + entry_cost (s.entries a) ≡ more + entry_cost entry
      → IsCache limit more (set_entry a entry s)
  unfolding set_entry change
  set_entry-IsCache extra more a entry s is there same_name same_key cost = record {
    distinct = is.distinct;
    chain_distinct = is.chain_distinct;
    fresh = is.fresh;
    named = λ b h.
        let (str, named, key) = is.named b h in
        (
          str,
          change_field (λ e. e.libname) a b entry s.entries same_name ∙ named,
          change_field (λ e. e.hash_key) a b entry s.entries same_key ∙ key,
        );
    chained = λ b h.
        ap (λ key. contains b (s.table key))
          (change_field (λ e. e.hash_key) a b entry s.entries same_key)
        ∙ is.chained b h;
    aged = λ key b h.
        let (cached, at_key) = is.aged key b h in
        (cached, change_field (λ e. e.hash_key) a b entry s.entries same_key ∙ at_key);
    counted =
        omega (arith, cost, is.counted, total_change s.entries a entry s.lru is.distinct there);
    bounded = is.bounded;
    limited = is.limited;
  }

module _ {Heap : Type 0} (sheep : Sheep Heap) (limit : ℕ) where
  pub free_block-IsCache :
      (extra size : ℕ) (s : Shm Heap)
      → IsCache limit (extra + sheep_alloc_size size) s
      → (h : Heap) × (free_block sheep size s
          ≡ some (spent sheep (extra + total (λ a. entry_cost (s.entries a)) s.lru) h s))
        × IsCache limit extra
            (spent sheep (extra + total (λ a. entry_cost (s.entries a)) s.lru) h s)
  free_block-IsCache extra size s is =
      let rest = extra + total (λ a. entry_cost (s.entries a)) s.lru in
      let (h, done) = free_block_lem sheep size rest s (omega (arith, is.counted)) in
      (
        h,
        done,
        record {
          distinct = is.distinct;
          chain_distinct = is.chain_distinct;
          fresh = is.fresh;
          named = is.named;
          chained = is.chained;
          aged = is.aged;
          counted = refl;
          bounded = omega (arith, is.counted, is.bounded);
          limited = is.limited;
        },
      )
