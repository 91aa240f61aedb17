-- ===== src/Exit/InUse.antt =====
-- The entries of the client table that are in use, and what a start and an end do to their number.
use spindle.Prelude.{
  ℕ, zero, suc, ◌+◌, List, [], ◌∷◌, ◌++◌, true, false, if◌then◌else◌, none, some, length, get_elem?,
  set, ◌≡◌, refl, ap, arith, inl, inr, Option-cases,
}
use spindle.Exit.{
  ClientStatus, active, active_pseudo, ended, free, unknown, Client, is_free, is_active, find_free,
}

-- The entries in use.
unfoldable pub in_use : List Client → ℕ
in_use [] = 0
in_use (cl ∷ cls) = (if is_free cl.state then 0 else 1) + in_use cls

pub in_use-append : (t u : List Client) → in_use (t ++ u) ≡ in_use t + in_use u
unfolding in_use
in_use-append [] u = omega arith
in_use-append (cl ∷ t) u = omega (arith, in_use-append t u)

pub length-set : (t : List Client) (nc : ℕ) (cl : Client) → length (set t nc cl) ≡ length t
length-set [] nc cl = refl
length-set (x ∷ t) zero cl = refl
length-set (x ∷ t) (suc nc) cl = ap suc (length-set t nc cl)

-- A free entry is not in use, and if there is none, all are.
pub in_use-start :
    (t : List Client) (nc : ℕ) (cl : Client)
    → find_free t ≡ some nc
    → is_free cl.state ≡ false
    → in_use (set t nc cl) ≡ in_use t + 1
unfolding in_use find_free
in_use-start [] nc cl h a = cc
in_use-start (x ∷ t) nc cl h a = elim (Option-cases (find_free t)) [
  | inl e ↦ ground arith
  | inr (n, e) ↦ let later = in_use-start t n cl e a in ground arith
]

pub in_use-full : (t : List Client) → find_free t ≡ none → in_use t ≡ length t
unfolding in_use find_free
in_use-full [] h = refl
in_use-full (x ∷ t) h = ground (arith, in_use-full t)

pub active_not_free : (st : ClientStatus) → is_active st ≡ true → is_free st ≡ false
active_not_free active h = refl
active_not_free active_pseudo h = refl
active_not_free ended h = refl
active_not_free free h = cc
active_not_free unknown h = refl

pub in_use-end :
    (t : List Client) (nc : ℕ) (cl : Client)
    → get_elem? t nc ≡ some cl
    → is_active cl.state ≡ true
    → in_use t ≡ in_use (set t nc (record cl { state = free })) + 1
unfolding in_use
in_use-end [] nc cl h a = cc
in_use-end (x ∷ t) zero cl h a = ground (arith, active_not_free x.state)
in_use-end (x ∷ t) (suc nc) cl h a = omega (arith, in_use-end t nc cl h a)
