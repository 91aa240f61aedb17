-- ===== src/Tree/Shape.antt =====
-- The loop of `cobo_compute_children` as a search: the children of a rank are those of the interval
-- where it is the least rank, and there are not more of them than the arrays hold.
use spindle.Prelude.{
  ℕ, zero, suc, ◌+◌, ◌-◌, ◌^◌, ◌≤◌, ◌<◌, List, [], ◌∷◌, ◌==◌, leb, ltb, if◌then◌else◌, ◌≡◌, ◌≢◌,
  refl, ◌∙◌, length, arith,
}
use native.Mathlib.Decide.{ℕ_discrete}
use native.Mathlib.Nat.{pow-suc}
use spindle.Tree.{Child, midpoint, find_place, num_child_incl}

-- The children that the least rank of an interval has in it.
unfoldable pub low_children : ℕ → ℕ → ℕ → List Child
low_children zero low high = []
low_children (suc fuel) low high =
    let mid = midpoint low high in
    let rest = low_children fuel low (mid - 1) in
    if ltb 0 (high - low) then record { rank = mid; incl = high - mid + 1 } ∷ rest else []

-- The end of the interval where `me` becomes the least rank.
unfoldable pub span : ℕ → ℕ → ℕ → ℕ → ℕ
span zero me low high = high
span (suc fuel) me low high =
    let mid = midpoint low high in
    let rest =
      span fuel me (if leb mid me then mid else low) (if leb mid me then high else mid - 1) in
    if low == me then high else rest

-- Fuel beyond the width of the interval changes nothing.
pub low_children_fuel :
    (f g low high : ℕ)
    → high - low < f
    → high - low < g
    → low_children f low high ≡ low_children g low high
unfolding low_children
low_children_fuel zero g low high p q = absurd (omega arith)
low_children_fuel (suc f) zero low high p q = absurd (omega arith)
low_children_fuel (suc f) (suc g) low high p q =
    ground (arith, low_children_fuel f g low (midpoint low high - 1))

-- The children found for the least rank of an interval.
find_place_low :
    (f me high parent : ℕ)
    → me ≤ high
    → high - me < f
    → (find_place f me me high parent).children ≡ low_children f me high
unfolding find_place low_children
find_place_low zero me high parent l h = refl
find_place_low (suc f) me high parent l h = ground (
  arith,
  find_place_low f me (midpoint me high - 1) (if midpoint me high == me then me else parent),
)

-- The interval of the next round, and the parent so far.
abbrev pub next_low : ℕ → ℕ → ℕ → ℕ
next_low me low high = if leb (midpoint low high) me then midpoint low high else low

abbrev pub next_high : ℕ → ℕ → ℕ → ℕ
next_high me low high = if leb (midpoint low high) me then high else midpoint low high - 1

abbrev pub next_parent : ℕ → ℕ → ℕ → ℕ → ℕ
next_parent me low high parent = if midpoint low high == me then low else parent

pub next_bounds :
    (me low high : ℕ)
    → low ≤ me
    → me ≤ high
    → low ≢ me
    → (next_low me low high ≤ me)
      × (me ≤ next_high me low high)
      × (next_high me low high - next_low me low high < high - low)
      × (next_high me low high ≤ high)
next_bounds me low high a b c = ground arith

pub find_place_step :
    (f me low high parent : ℕ)
    → low ≤ me
    → me ≤ high
    → low ≢ me
    → ((find_place (suc f) me low high parent).children
        ≡ (find_place f me
            (next_low me low high)
            (next_high me low high)
            (next_parent me low high parent)).children)
      × (span (suc f) me low high ≡ span f me (next_low me low high) (next_high me low high))
unfolding find_place span
find_place_step f me low high parent a b c = (ground arith, ground arith)

pub span_self : (f me high : ℕ) → span (suc f) me me high ≡ high
unfolding span
span_self f me high = ground arith

pub find_place-children :
    (f me low high parent : ℕ)
    → low ≤ me
    → me ≤ high
    → high - low < f
    → ((find_place f me low high parent).children ≡ low_children f me (span f me low high))
      × (me ≤ span f me low high)
      × (span f me low high ≤ high)
find_place-children zero me low high parent a b h = absurd (omega arith)
find_place-children (suc f) me low high parent a b h = elim (ℕ_discrete low me) [
  | yes p ↦ rw p (
      rw (span_self f me high)
        (find_place_low (suc f) me high parent b (omega arith), b, omega arith))
  | no c ↦
      let (children, spans) = find_place_step f me low high parent a b c in
      let (l, h', w, e) = next_bounds me low high a b c in
      let (same, above, below) =
        find_place-children f me (next_low me low high) (next_high me low high)
          (next_parent me low high parent) l h' (omega arith) in
      rw (children, spans)
        (
          same
              ∙ low_children_fuel f (suc f) me
                  (span f me (next_low me low high) (next_high me low high)) (omega arith)
                  (omega arith),
          above,
          omega arith,
        )
]

-- The ranks under a child are the rest of its interval.
pub num_child_incl_low :
    (f low high : ℕ)
    → low ≤ high
    → high - low < f
    → num_child_incl (low_children f low high) ≡ high - low
unfolding num_child_incl low_children
num_child_incl_low zero low high l h = absurd (omega arith)
num_child_incl_low (suc f) low high l h =
    ground (arith, num_child_incl_low f low (midpoint low high - 1))

-- An interval of fewer than `2 ^ k` ranks above the least one has at most `k` children.
pub length-low_children :
    (f k low high : ℕ) → high - low < 2 ^ k → length (low_children f low high) ≤ k
unfolding low_children
length-low_children zero k low high h = omega arith
length-low_children (suc f) zero low high h = ground arith
length-low_children (suc f) (suc k) low high h =
    ground (arith, length-low_children f k low (midpoint low high - 1), pow-suc 2 k)
