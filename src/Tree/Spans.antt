-- ===== src/Tree/Spans.antt =====
-- The intervals of ranks in which a rank is the least, one inside the other.
use spindle.Prelude.{ℕ, zero, suc, ◌+◌, ◌-◌, ◌≤◌, ◌<◌, [], ◌∷◌, ◌≡◌, refl, ap, ◌∙◌, sym, arith}
use native.Mathlib.Decide.{ℕ_discrete, dec_lt}
use spindle.Tree.{midpoint}
use spindle.Tree.Shape.{low_children, span, find_place-children, span_self}
use spindle.Tree.Family.{span_right, span_left}

pub span_le : (f x low high : ℕ) → low ≤ x → x ≤ high → high - low < f → span f x low high ≤ high
span_le f x low high a b h =
    let (same, above, below) = find_place-children f x low high 0 a b h in below

pub span_ge : (f x low high : ℕ) → low ≤ x → x ≤ high → high - low < f → x ≤ span f x low high
span_ge f x low high a b h =
    let (same, above, below) = find_place-children f x low high 0 a b h in above

pub span_fuel :
    (f g x low high : ℕ)
    → low ≤ x
    → x ≤ high
    → high - low < f
    → high - low < g
    → span f x low high ≡ span g x low high
span_fuel zero g x low high a b p q = absurd (omega arith)
span_fuel (suc f) zero x low high a b p q = absurd (omega arith)
span_fuel (suc f) (suc g) x low high a b p q = elim (ℕ_discrete low x) [
  | yes e ↦ rw (e, span_self f x high, span_self g x high) refl
  | no n ↦ elim (dec_lt x (midpoint low high)) [
    | yes l ↦
        span_left f x low high (omega arith) b l
        ∙ span_fuel f g x low (midpoint low high - 1) a (omega arith) (omega arith) (omega arith)
        ∙ sym (span_left g x low high (omega arith) b l)
    | no r ↦
        span_right f x low high (omega arith) b (omega arith)
        ∙ span_fuel f g x (midpoint low high) high (omega arith) b (omega arith) (omega arith)
        ∙ sym (span_right g x low high (omega arith) b (omega arith))
  ]
]

-- A rank under `me` ends where it ends in the interval of `me`.
pub span_inner :
    (f me x low high : ℕ)
    → low ≤ me
    → me < x
    → x ≤ high
    → x ≤ span f me low high
    → high - low < f
    → span f x low high ≡ span f x me (span f me low high)
span_inner zero me x low high a b c d h = absurd (omega arith)
span_inner (suc f) me x low high a b c d h = elim (ℕ_discrete low me) [
  | yes e ↦ rw (e, span_self f me high) refl
  | no n ↦ elim (dec_lt me (midpoint low high)) [
    | yes l ↦
        let mid = midpoint low high in
        let e = span_left f me low high (omega arith) (omega arith) l in
        let top = span_le f me low (mid - 1) a (omega arith) (omega arith) in
        span_left f x low high (omega arith) c (omega (arith, d, e, top))
        ∙ span_inner f me x low (mid - 1) a b (omega (arith, d, e, top)) (omega (arith, d, e))
            (omega arith)
        ∙ span_fuel f (suc f) x me (span f me low (mid - 1)) (omega arith) (omega (arith, d, e))
            (omega (arith, top)) (omega (arith, top))
        ∙ ap (span (suc f) x me) (sym e)
    | no r ↦
        let mid = midpoint low high in
        let e = span_right f me low high (omega arith) (omega arith) (omega arith) in
        let top = span_le f me mid high (omega arith) (omega arith) (omega arith) in
        span_right f x low high (omega arith) c (omega arith)
        ∙ span_inner f me x mid high (omega arith) b c (omega (arith, d, e)) (omega arith)
        ∙ span_fuel f (suc f) x me (span f me mid high) (omega arith) (omega (arith, d, e))
            (omega (arith, top)) (omega (arith, top))
        ∙ ap (span (suc f) x me) (sym e)
  ]
]

pub low_children_leaf : (f low : ℕ) → low_children f low low ≡ []
unfolding low_children
low_children_leaf zero low = refl
low_children_leaf (suc f) low = ground arith

pub low_children_node :
    (f low high : ℕ)
    → low < high
    → low_children (suc f) low high ≡ (
        record { rank = midpoint low high; incl = high - midpoint low high + 1 }
        ∷ low_children f low (midpoint low high - 1))
unfolding low_children
low_children_node f low high h = ground arith

pub span_root : (nprocs : ℕ) → 0 < nprocs → span nprocs 0 0 (nprocs - 1) ≡ nprocs - 1
span_root zero h = absurd (omega arith)
span_root (suc k) h = span_self k 0 (suc k - 1)
