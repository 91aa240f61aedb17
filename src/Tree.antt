-- ===== src/Tree.antt =====
-- The binomial tree of the servers, src/cobo/cobo.c: the children and the parent of a rank, and the
-- data that the collective operations move along the tree. Ranks are not negative, and the loop of
-- `cobo_compute_children` runs on fuel; `nprocs` rounds are enough (Tree/Shape).
pub mod Shape
pub mod Family
pub mod Arrays
pub mod Spans
pub mod Collect
mod Tests
use spindle.Prelude.{
  ℕ, zero, suc, ◌+◌, ◌-◌, ◌*◌, ◌/◌, ◌%◌, ◌≤◌, ◌<◌, List, [], ◌∷◌, ◌++◌, Bool, true, false, ◌==◌,
  leb, ltb, if◌then◌else◌, arith,
}

-- A child's rank and the number of ranks under it, itself included: `cobo_child`,
-- `cobo_child_incl`.
pub record Child : Type 0 where
  pub rank : ℕ
  pub incl : ℕ

-- `cobo_parent`, and the children in the order of `cobo_child`.
pub record Place : Type 0 where
  pub parent : ℕ
  pub children : List Child

abbrev pub midpoint : ℕ → ℕ → ℕ
midpoint low high = (high - low) / 2 + (high - low) % 2 + low

-- The loop over `low` and `high`, with `cobo_parent` so far.
unfoldable pub find_place : ℕ → ℕ → ℕ → ℕ → ℕ → Place
find_place zero me low high parent = record { parent = parent; children = [] }
find_place (suc fuel) me low high parent =
    let mid = midpoint low high in
    let rest =
      find_place fuel me (if leb mid me then mid else low) (if leb mid me then high else mid - 1)
        (if mid == me then low else parent) in
    if ltb 0 (high - low)
    then record rest {
      children =
          if low == me
          then record { rank = mid; incl = high - mid + 1 } ∷ rest.children
          else rest.children;
    }
    else record { parent = parent; children = [] }

unfoldable pub cobo_compute_children : ℕ → ℕ → Place
unfolding find_place
cobo_compute_children nprocs me = find_place nprocs me 0 (nprocs - 1) 0

-- `while (n < cobo_nprocs) { n <<= 1; max_children++; }`: the length of the arrays.
unfoldable pub double_until : ℕ → ℕ → ℕ → ℕ → ℕ
double_until zero nprocs n count = count
double_until (suc fuel) nprocs n count =
    let more = double_until fuel nprocs (n * 2) (count + 1) in if ltb n nprocs then more else count

unfoldable pub max_children : ℕ → ℕ
unfolding double_until
max_children nprocs = double_until nprocs nprocs 1 0

-- `cobo_num_child_incl`
unfoldable pub num_child_incl : List Child → ℕ
num_child_incl [] = 0
num_child_incl (c ∷ cs) = c.incl + num_child_incl cs
