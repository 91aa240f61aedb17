-- ===== src/Requestors/Chains.antt =====
-- The chains of the request table: the entries of a file are found, changed and unlinked alone.
use spindle.Prelude.{
  ◌∙◌, Bool-cases, inl, inr, str_eq, ◌==◌, ◌&&◌, ℕ, List, [], ◌∷◌, none, some, ◌≡◌, ◌≢◌, refl,
  CString, str_eq_iff, arith,
}
use spindle.Requestors.{RequestedFile, find_in_chain, change_in_chain, unlink_in_chain}

-- Two searches, of one hash value for each file.
pub find-change_ne :
    (f : RequestedFile → RequestedFile) (v w : ℕ) (file other : CString) (l : List RequestedFile)
    → ((r : RequestedFile) → (f r).path ≡ r.path)
    → file ≢ other
    → find_in_chain w other (change_in_chain f v file l) ≡ find_in_chain w other l
unfolding find_in_chain change_in_chain
find-change_ne f v w file other [] keep ne = refl
find-change_ne f v w file other (r ∷ l) keep ne = ground (
  arith,
  keep r,
  str_eq_iff r.path file,
  str_eq_iff r.path other,
  str_eq_iff (f r).path other,
  find-change_ne f v w file other l keep ne,
)

pub find-change_self :
    (f : RequestedFile → RequestedFile) (v : ℕ) (file : CString) (l : List RequestedFile)
    → ((r : RequestedFile) → (f r).path ≡ r.path)
    → ((r : RequestedFile) → (f r).hash_val ≡ r.hash_val)
    → find_in_chain v file (change_in_chain f v file l)
      ≡ (elim (find_in_chain v file l) [ some r ↦ some (f r) | none ↦ none ])
unfolding find_in_chain change_in_chain
find-change_self f v file [] keep hash = refl
find-change_self f v file (r ∷ l) keep hash =
    ground (arith, keep r, hash r, find-change_self f v file l keep hash)

pub find-unlink_ne :
    (v w : ℕ) (file other : CString) (l : List RequestedFile)
    → file ≢ other
    → find_in_chain w other (unlink_in_chain v file l) ≡ find_in_chain w other l
unfolding find_in_chain unlink_in_chain
find-unlink_ne v w file other [] ne = refl
find-unlink_ne v w file other (r ∷ l) ne =
    ground
      (arith, str_eq_iff r.path file, str_eq_iff r.path other, find-unlink_ne v w file other l ne)

-- A chain at index `v`: its entries have that hash value, and no file has two.
abbrev pub IsChain : ℕ → List RequestedFile → Type 0
IsChain v [] = Unit
IsChain v (r ∷ l) = (r.hash_val ≡ v) × (find_in_chain v r.path l ≡ none) × IsChain v l

pub find-unlink_self :
    (v : ℕ) (file : CString) (l : List RequestedFile)
    → IsChain v l
    → find_in_chain v file (unlink_in_chain v file l) ≡ none
unfolding find_in_chain unlink_in_chain
find-unlink_self v file [] c = refl
find-unlink_self v file (r ∷ l) c =
    ground (arith, str_eq_iff r.path file, find-unlink_self v file l c.2)

find-unlink_none :
    (v w : ℕ) (file other : CString) (l : List RequestedFile)
    → find_in_chain w other l ≡ none
    → IsChain v l
    → find_in_chain w other (unlink_in_chain v file l) ≡ none
unfolding find_in_chain unlink_in_chain
find-unlink_none v w file other [] e c = refl
find-unlink_none v w file other (r ∷ l) e c =
    ground (arith, find-unlink_none v w file other l _ c.2)

pub unlink-IsChain :
    (v : ℕ) (file : CString) (l : List RequestedFile)
    → IsChain v l
    → IsChain v (unlink_in_chain v file l)
unfolding unlink_in_chain
unlink-IsChain v file [] c = tt
unlink-IsChain v file (r ∷ l) c = elim (Bool-cases (r.hash_val == v && str_eq r.path file)) [
  | inl e ↦ rw e c.2
  | inr e ↦ rw e (c.0, find-unlink_none v v file r.path l c.1 c.2, unlink-IsChain v file l c.2)
]

find-change_none :
    (f : RequestedFile → RequestedFile) (v w : ℕ) (file other : CString) (l : List RequestedFile)
    → ((r : RequestedFile) → (f r).path ≡ r.path)
    → ((r : RequestedFile) → (f r).hash_val ≡ r.hash_val)
    → find_in_chain w other l ≡ none
    → find_in_chain w other (change_in_chain f v file l) ≡ none
unfolding find_in_chain change_in_chain
find-change_none f v w file other [] keep hash e = refl
find-change_none f v w file other (r ∷ l) keep hash e =
    ground (arith, keep r, hash r, find-change_none f v w file other l keep hash)

pub change-IsChain :
    (f : RequestedFile → RequestedFile) (v : ℕ) (file : CString) (l : List RequestedFile)
    → ((r : RequestedFile) → (f r).path ≡ r.path)
    → ((r : RequestedFile) → (f r).hash_val ≡ r.hash_val)
    → IsChain v l
    → IsChain v (change_in_chain f v file l)
unfolding change_in_chain
change-IsChain f v file [] keep hash c = tt
change-IsChain f v file (r ∷ l) keep hash c =
    elim (Bool-cases (r.hash_val == v && str_eq r.path file)) [
      | inl e ↦ rw e (hash r ∙ c.0, rw (keep r) c.1, c.2)
      | inr e ↦ rw e (
        c.0,
        find-change_none f v v file r.path l keep hash c.1,
        change-IsChain f v file l keep hash c.2,
      )
    ]
