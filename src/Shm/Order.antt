-- ===== src/Shm/Order.antt =====
-- Which entry `clean_oldest_entry` takes.
use spindle.Prelude.{
  ℕ, ◌+◌, List, [], ◌∷◌, ◌++◌, none, some, true, false, ◌≡◌, refl, ap, ◌∙◌, arith, All,
  Option-cases, Bool-cases, inl, inr, ◌⊎◌, contains, ◌==◌,
}
use spindle.Shm.{ShmEntry, Sheep, Shm, is_busy, oldest, unlinked, clean_oldest_entry, without}
use spindle.Shm.Lists.{IsDistinct, total}
use spindle.Shm.Clean.{IsCache, entry_cost, clean_entry_lem, cleaned}
use spindle.Shm.Malloc.{oldest-contains}

oldest-none :
    (entries : ℕ → ShmEntry) (l : List ℕ)
    → oldest entries l ≡ none
    → All (λ b. is_busy (entries b) ≡ true) l
unfolding oldest
oldest-none entries [] h = tt
oldest-none entries (b ∷ l) h = elim (Option-cases (oldest entries l)) [
  | inl e ↦ (ground (arith, e), oldest-none entries l e)
  | inr (c, e) ↦ cc
]

oldest_split :
    (entries : ℕ → ShmEntry) (l : List ℕ) (a : ℕ)
    → oldest entries l ≡ some a
    → (front back : List ℕ) × (l ≡ front ++ (a ∷ back)) × All (λ b. is_busy (entries b) ≡ true) back
unfolding oldest
oldest_split entries [] a h = cc
oldest_split entries (b ∷ l) a h = elim (Option-cases (oldest entries l)) [
  | inl e ↦
      let same : b ≡ a = elim (Bool-cases (is_busy (entries b))) [ inl k ↦ cc | inr k ↦ cc ] in
      ([], l, ap (λ c. c ∷ l) same, oldest-none entries l e)
  | inr (c, e) ↦
      let (front, back, split, kept) = oldest_split entries l a (cc) in
      (b ∷ front, back, ap (◌∷◌ b) split, kept)
]

contains_middle : (a : ℕ) (front back : List ℕ) → contains a (front ++ (a ∷ back)) ≡ true
unfolding contains
contains_middle a [] back = ground arith
contains_middle a (b ∷ front) back = ground (arith, contains_middle a front back)

IsDistinct-front :
    (a : ℕ) (front back : List ℕ) → IsDistinct (front ++ (a ∷ back)) → contains a front ≡ false
unfolding contains
IsDistinct-front a [] back d = refl
IsDistinct-front a (b ∷ front) back d = elim (Bool-cases (b == a)) [
  | inl e ↦
      let same : a ≡ b = ground arith in
      absurd
        (cc (ap (λ c. contains c (front ++ (a ∷ back))) same, contains_middle a front back, d.0))
  | inr e ↦ ground (arith, e, IsDistinct-front a front back d.1)
]

without_append :
    (a : ℕ) (front back : List ℕ)
    → contains a front ≡ false
    → without a (front ++ (a ∷ back)) ≡ front ++ back
unfolding without contains
without_append a [] back out = ground arith
without_append a (b ∷ front) back out = ground (arith, without_append a front back)

-- Cleaning of a well-formed cache takes the least recently used entry that is neither in progress nor
-- waited on, and leaves the order of the others; if there is none, it changes nothing.
pub clean_oldest_entry_order :
    {Heap : Type 0} (sheep : Sheep Heap) (limit extra : ℕ) (s : Shm Heap)
    → IsCache limit extra s
    → ((clean_oldest_entry sheep s ≡ some (false, s))
        × All (λ b. is_busy (s.entries b) ≡ true) s.lru)
      ⊎ ((a : ℕ) × (t : Shm Heap) × (front back : List ℕ) × (clean_oldest_entry sheep s
            ≡ some (true, t))
          × (s.lru ≡ front ++ (a ∷ back))
          × (t.lru ≡ front ++ back)
          × (is_busy (s.entries a) ≡ false)
          × All (λ b. is_busy (s.entries b) ≡ true) back)
unfolding cleaned unlinked clean_oldest_entry
clean_oldest_entry_order sheep limit extra s is = elim (Option-cases (oldest s.entries s.lru)) [
  | inl e ↦ inl (rw (clean_oldest_entry, e) refl, oldest-none s.entries s.lru e)
  | inr (a, e) ↦
      let (there, free) = oldest-contains s.entries s.lru a e in
      let (h, done) = clean_entry_lem sheep limit extra a s is there in
      let (front, back, split, kept) = oldest_split s.entries s.lru a e in
      let out : contains a front ≡ false =
        IsDistinct-front a front back (rw split at is.distinct) in
      inr (
        a,
        cleaned sheep a (extra + total (λ b. entry_cost (s.entries b)) (without a s.lru)) h s,
        front,
        back,
        rw (clean_oldest_entry, e, done) refl,
        split,
        ap (without a) split ∙ without_append a front back out,
        free,
        kept,
      )
]
