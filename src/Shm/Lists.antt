-- ===== src/Shm/Lists.antt =====
-- Lists of entry numbers: what unlinking an entry and moving it to the front leave.
use spindle.Prelude.{
  ℕ, suc, ◌+◌, List, [], ◌∷◌, true, false, ◌==◌, ◌||◌, ◌≡◌, ◌≢◌, refl, ap, arith, contains, length,
  Bool-cases, inl, inr, sym, ◌∙◌, ◌⊎◌,
}
use spindle.Shm.{change, without, mark_recently_used}

abbrev pub IsDistinct : List ℕ → Type 0
IsDistinct [] = Unit {0}
IsDistinct (a ∷ l) = (contains a l ≡ false) × IsDistinct l

pub contains-without :
    (a b : ℕ) (l : List ℕ) → contains b (without a l) ≡ true → contains b l ≡ true
unfolding contains without
contains-without a b [] h = h
contains-without a b (c ∷ l) h = ground (arith, contains-without a b l)

pub contains-without_ne : (a b : ℕ) (l : List ℕ) → a ≢ b → contains b (without a l) ≡ contains b l
unfolding contains without
contains-without_ne a b [] ne = refl
contains-without_ne a b (c ∷ l) ne = ground (arith, contains-without_ne a b l ne)

contains-without_none :
    (a b : ℕ) (l : List ℕ) → contains b l ≡ false → contains b (without a l) ≡ false
unfolding contains without
contains-without_none a b [] h = h
contains-without_none a b (c ∷ l) h = ground (arith, contains-without_none a b l)

pub contains-without_self : (a : ℕ) (l : List ℕ) → IsDistinct l → contains a (without a l) ≡ false
unfolding contains without
contains-without_self a [] d = refl
contains-without_self a (c ∷ l) d = ground (arith, contains-without_self a l d.1)

pub without-IsDistinct : (a : ℕ) (l : List ℕ) → IsDistinct l → IsDistinct (without a l)
unfolding without
without-IsDistinct a [] d = tt
without-IsDistinct a (c ∷ l) d = elim (Bool-cases (c == a)) [
  | inl e ↦ rw e d.1
  | inr e ↦ rw e (contains-without_none a c l d.0, without-IsDistinct a l d.1)
]

pub length-without :
    (a : ℕ) (l : List ℕ) → contains a l ≡ true → suc (length (without a l)) ≡ length l
unfolding contains without
length-without a [] h = cc
length-without a (c ∷ l) h = ground (arith, length-without a l)

pub contains-mark_recently_used :
    (a b : ℕ) (l : List ℕ) → contains b (mark_recently_used a l) ≡ (a == b || contains b l)
unfolding contains mark_recently_used without
contains-mark_recently_used a b [] = refl
contains-mark_recently_used a b (c ∷ l) = ground (arith, contains-without_ne a b l)

pub mark_recently_used-IsDistinct :
    (a : ℕ) (l : List ℕ) → IsDistinct l → IsDistinct (mark_recently_used a l)
unfolding mark_recently_used without contains
mark_recently_used-IsDistinct a [] d = (refl, tt)
mark_recently_used-IsDistinct a (c ∷ l) d = elim (Bool-cases (c == a)) [
  | inl e ↦ rw e d
  | inr e ↦ rw e (
    ground (arith, contains-without_self a l d.1),
    (contains-without_none a c l d.0, without-IsDistinct a l d.1),
  )
]

-- What the entries of a list cost in all.
abbrev pub total : (ℕ → ℕ) → List ℕ → ℕ
total cost [] = 0
total cost (a ∷ l) = cost a + total cost l

pub total-without :
    (cost : ℕ → ℕ) (a : ℕ) (l : List ℕ)
    → contains a l ≡ true
    → total cost l ≡ cost a + total cost (without a l)
unfolding contains without
total-without cost a [] h = cc
total-without cost a (c ∷ l) h = ground (arith, total-without cost a l)

without_none : (a : ℕ) (l : List ℕ) → contains a l ≡ false → without a l ≡ l
unfolding contains without
without_none a [] h = refl
without_none a (c ∷ l) h = ground (arith, without_none a l)

pub total-mark_recently_used :
    (cost : ℕ → ℕ) (a : ℕ) (l : List ℕ)
    → contains a l ≡ true
    → total cost (mark_recently_used a l) ≡ total cost l
unfolding contains mark_recently_used without
total-mark_recently_used cost a [] h = cc
total-mark_recently_used cost a (c ∷ l) h = ground (arith, total-without cost a l)

pub mark_recently_used_none :
    (a : ℕ) (l : List ℕ) → contains a l ≡ false → mark_recently_used a l ≡ a ∷ l
unfolding contains mark_recently_used without
mark_recently_used_none a [] h = refl
mark_recently_used_none a (c ∷ l) h = ground (arith, without_none a l)

pub total_congr :
    (f g : ℕ → ℕ) (l : List ℕ) → ((a : ℕ) → contains a l ≡ true → f a ≡ g a) → total f l ≡ total g l
unfolding contains
total_congr f g [] same = refl
total_congr f g (c ∷ l) same =
    let first : f c ≡ g c = same c (ground arith) in
    let rest : total f l ≡ total g l = total_congr f g l (λ a h. same a (ground arith)) in
    omega (arith, first, rest)

pub apart : (a b : ℕ) (l : List ℕ) → contains a l ≡ false → contains b l ≡ true → a ≢ b
apart a b l out inside e = let same : contains a l ≡ contains b l = ap (λ c. contains c l) e in cc

pub mark_recently_used_cases :
    (a b : ℕ) (l : List ℕ)
    → contains b (mark_recently_used a l) ≡ true
    → (a ≡ b) ⊎ (contains b l ≡ true)
mark_recently_used_cases a b l h = elim (Bool-cases (a == b)) [
  | inl e ↦ inl (ground arith)
  | inr e ↦ inr (ground (arith, contains-mark_recently_used a b l))
]

-- A chain after an entry was put before its own.
module _ (table : ℕ → List ℕ) (a b own key : ℕ) where
  abbrev pub longer_chain : List ℕ
  longer_chain = change own (a ∷ table own) table key

  pub longer_chain_old : contains b (table key) ≡ true → contains b longer_chain ≡ true
  unfolding change contains
  longer_chain_old h = elim (Bool-cases (key == own)) [
    | inl e ↦
        let same : key ≡ own = ground arith in
        let there : contains b (table own) ≡ true = ap (λ k. contains b (table k)) (sym same) ∙ h in
        rw e (ground (arith, there))
    | inr e ↦ rw e h
  ]

  pub longer_chain_cases :
      contains b longer_chain ≡ true → ((a ≡ b) × (key ≡ own)) ⊎ (contains b (table key) ≡ true)
  unfolding change contains
  longer_chain_cases h = elim (Bool-cases (key == own)) [
    | inl e ↦
        let same : key ≡ own = ground arith in
        elim (Bool-cases (a == b)) [
          | inl f ↦ inl (ground arith, same)
          | inr f ↦
              let there : contains b (table own) ≡ true = cc in
              inr (ap (λ k. contains b (table k)) same ∙ there)
        ]
    | inr e ↦ inr cc
  ]

pub contains_head : (a : ℕ) (l : List ℕ) → contains a (a ∷ l) ≡ true
unfolding contains
contains_head a l = ground arith
