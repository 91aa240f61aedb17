-- ===== src/Tree/Arrays.antt =====
-- The arrays of `cobo_compute_children`: their length, found by doubling, is enough.
use spindle.Prelude.{
  ℕ, zero, suc, ◌+◌, ◌-◌, ◌*◌, ◌^◌, ◌≤◌, ◌<◌, ltb, ◌≡◌, ap, length, arith, Bool-cases, inl, inr,
}
use native.Mathlib.Nat.{pow-suc}
use spindle.Tree.{cobo_compute_children, double_until, max_children}
use spindle.Tree.Shape.{span, find_place-children, length-low_children}

-- The doubling ends at a power of two times the start that reaches `nprocs`.
double_until_lem :
    (fuel nprocs n count : ℕ)
    → 0 < n
    → nprocs ≤ n + fuel
    → (k : ℕ) × (double_until fuel nprocs n count ≡ count + k) × (nprocs ≤ n * 2 ^ k)
unfolding double_until
double_until_lem zero nprocs n count a h = (0, omega arith, omega arith)
double_until_lem (suc fuel) nprocs n count a h = elim (Bool-cases (ltb n nprocs)) [
  | inr done ↦ rw done (0, omega arith, ground arith)
  | inl more ↦
      let (k, e, l) =
        double_until_lem fuel nprocs (n * 2) (count + 1) (omega arith) (omega arith) in
      rw more (suc k, omega (arith, e), omega (arith, l, ap (λ t. n * t) (pow-suc 2 k)))
]

-- No rank has more children than the arrays for their ranks, sockets and sizes hold.
pub length-children-le :
    (nprocs me : ℕ)
    → me < nprocs
    → length (cobo_compute_children nprocs me).children ≤ max_children nprocs
unfolding cobo_compute_children max_children
length-children-le nprocs me h =
    let (k, e, l) = double_until_lem nprocs nprocs 1 0 (omega arith) (omega arith) in
    let (mine, above, below) =
      find_place-children nprocs me 0 (nprocs - 1) 0 (omega arith) (omega arith) (omega arith) in
    rw (e, mine)
      (omega
        (arith, length-low_children nprocs k me (span nprocs me 0 (nprocs - 1)) (omega (arith, l))))
