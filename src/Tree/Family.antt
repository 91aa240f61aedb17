-- ===== src/Tree/Family.antt =====
-- A rank's parent and its parent's children agree: the socket that a server opens to its parent is
-- one that the parent expects, for a subtree of the size that the parent counts on.
use spindle.Prelude.{
  ℕ, zero, suc, ◌+◌, ◌-◌, ◌≤◌, ◌<◌, List, [], ◌∷◌, Bool, true, false, ◌==◌, ◌&&◌, ◌||◌, ◌≡◌, ◌≢◌,
  refl, ap, ◌∙◌, sym, arith,
}
use mathlib.Core.Path.{ap₂, subst}
use native.Mathlib.Decide.{ℕ_discrete, dec_lt}
use spindle.Tree.{Child, midpoint, find_place, cobo_compute_children, num_child_incl}
use spindle.Tree.Shape.{
  low_children, span, next_low, next_high, next_parent, next_bounds, find_place_step,
  find_place-children, low_children_fuel, num_child_incl_low, span_self,
}

-- Whether a rank is among the children, with a subtree of the given size.
unfoldable pub has_child : ℕ → ℕ → List Child → Bool
has_child r i [] = false
has_child r i (c ∷ cs) = (c.rank == r && c.incl == i) || has_child r i cs

-- The children of a rank of an interval.
abbrev pub kids : ℕ → ℕ → ℕ → ℕ → List Child
kids f p low high = low_children f p (span f p low high)

kids_step :
    (f p low high : ℕ)
    → low ≤ p
    → p ≤ high
    → low ≢ p
    → high - low < suc f
    → kids (suc f) p low high ≡ kids f p (next_low p low high) (next_high p low high)
kids_step f p low high a b c h =
    let (l, h', w, e) = next_bounds p low high a b c in
    let (same, above, below) =
      find_place-children f p (next_low p low high) (next_high p low high) 0 l h' (omega arith) in
    ap (low_children (suc f) p) (find_place_step f p low high 0 a b c).1
    ∙ low_children_fuel (suc f) f p (span f p (next_low p low high) (next_high p low high))
        (omega arith) (omega arith)

parent_low : (f me high parent : ℕ) → me ≤ high → (find_place f me me high parent).parent ≡ parent
unfolding find_place
parent_low zero me high parent h = refl
parent_low (suc f) me high parent h =
    ground (arith, parent_low f me (midpoint me high - 1) (next_parent me me high parent))

-- The two ways on from an interval, for a rank of its upper and of its lower part.
module _ (f x low high : ℕ) (a : low < x) (b : x ≤ high) where
  pub span_right :
      midpoint low high ≤ x → span (suc f) x low high ≡ span f x (midpoint low high) high
  unfolding span
  span_right c = ground arith

  pub span_left :
      x < midpoint low high → span (suc f) x low high ≡ span f x low (midpoint low high - 1)
  unfolding span
  span_left c = ground arith

  kids_right :
      high - low < suc f
      → midpoint low high ≤ x
      → kids (suc f) x low high ≡ kids f x (midpoint low high) high
  kids_right h c =
      kids_step f x low high (omega arith) b (omega arith) h
      ∙ ap₂ (kids f x) (ground arith) (ground arith)

  kids_left :
      high - low < suc f
      → x < midpoint low high
      → kids (suc f) x low high ≡ kids f x low (midpoint low high - 1)
  kids_left h c =
      kids_step f x low high (omega arith) b (omega arith) h
      ∙ ap₂ (kids f x) (ground arith) (ground arith)

  parent_here :
      (parent : ℕ)
      → midpoint low high ≡ x
      → (find_place (suc f) x low high parent).parent ≡ (find_place f x x high low).parent
  unfolding find_place
  parent_here parent c = ground arith

  parent_right :
      (parent : ℕ)
      → midpoint low high < x
      → (find_place (suc f) x low high parent).parent
        ≡ (find_place f x (midpoint low high) high parent).parent
  unfolding find_place
  parent_right parent c = ground arith

  parent_left :
      (parent : ℕ)
      → x < midpoint low high
      → (find_place (suc f) x low high parent).parent
        ≡ (find_place f x low (midpoint low high - 1) parent).parent
  unfolding find_place
  parent_left parent c = ground arith

-- What the induction proves of a rank and its parent in an interval.
record IsChildOf (f me p low high : ℕ) : Type 0 where
  from : low ≤ p
  below : p < me
  listed : has_child me (span f me low high - me + 1) (kids f p low high) ≡ true

kids_low : (f low high : ℕ) → kids (suc f) low low high ≡ low_children (suc f) low high
kids_low f low high = ap (low_children (suc f) low) (span_self f low high)

listed_here :
    (f low high : ℕ)
    → low < high
    → has_child (midpoint low high) (high - midpoint low high + 1) (low_children (suc f) low high)
      ≡ true
unfolding has_child low_children
listed_here f low high h = ground arith

listed_later :
    (f r i low high : ℕ)
    → low < high
    → has_child r i (low_children f low (midpoint low high - 1)) ≡ true
    → has_child r i (low_children (suc f) low high) ≡ true
unfolding has_child low_children
listed_later f r i low high h e = ground arith

find_child_here :
    (f low high parent : ℕ)
    → low < high
    → high - low < suc f
    → IsChildOf
        (suc f)
        (midpoint low high)
        (find_place (suc f) (midpoint low high) low high parent).parent
        low
        high
find_child_here zero low high parent h w = absurd (omega arith)
find_child_here (suc f) low high parent h w =
    let m = midpoint low high in
    let found : (find_place (suc (suc f)) m low high parent).parent ≡ low =
      parent_here (suc f) m low high (omega arith) (omega arith) parent refl
      ∙ parent_low (suc f) m high low (omega arith) in
    rw found (record {
      from = omega arith;
      below = omega arith;
      listed =
          rw
            (
              kids_low (suc f) low high,
              span_right (suc f) m low high (omega arith) (omega arith) (omega arith),
              span_self f m high,
            )
            (listed_here (suc f) low high h);
    })

lift_right :
    (f me p low high : ℕ)
    → me ≤ high
    → low < midpoint low high
    → high - low < suc f
    → midpoint low high < me
    → IsChildOf f me p (midpoint low high) high
    → IsChildOf (suc f) me p low high
lift_right f me p low high b g h c k = record {
  from = omega (arith, k.from);
  below = k.below;
  listed =
      rw
        (
          kids_right f p low high (omega (arith, k.from)) (omega (arith, k.below)) h k.from,
          span_right f me low high (omega arith) b (omega arith),
        )
        k.listed;
}

lift_left :
    (f me p low high : ℕ)
    → low < me
    → me ≤ high
    → high - low < suc f
    → me < midpoint low high
    → IsChildOf f me p low (midpoint low high - 1)
    → IsChildOf (suc f) me p low high
lift_left zero me p low high a b h c k = absurd (omega arith)
lift_left (suc f) me p low high a b h c k = elim (ℕ_discrete low p) [
  | yes e ↦ record {
    from = k.from;
    below = k.below;
    listed =
        let i = span (suc f) me low (midpoint low high - 1) - me + 1 in
        let inner : has_child me i (low_children (suc f) low (midpoint low high - 1)) ≡ true =
          subst (λ l. has_child me i l ≡ true) (kids_low f low (midpoint low high - 1))
            (subst (λ q. has_child me i (kids (suc f) q low (midpoint low high - 1)) ≡ true) (sym e)
              k.listed) in
        rw (span_left (suc f) me low high a b c, ← e, kids_low (suc f) low high)
          (listed_later (suc f) me i low high (omega arith) inner);
  }
  | no n ↦ record {
    from = k.from;
    below = k.below;
    listed =
        rw
          (
            kids_left (suc f) p low high (omega (arith, k.from)) (omega (arith, k.below)) h
                (omega (arith, k.below)),
            span_left (suc f) me low high a b c,
          )
          k.listed;
  }
]

find_child :
    (f me low high parent : ℕ)
    → low < me
    → me ≤ high
    → high - low < f
    → IsChildOf f me (find_place f me low high parent).parent low high
find_child zero me low high parent a b h = absurd (omega arith)
find_child (suc f) me low high parent a b h = elim (ℕ_discrete (midpoint low high) me) [
  | yes p ↦ rw (← p) (find_child_here f low high parent (omega arith) h)
  | no n ↦ elim (dec_lt (midpoint low high) me) [
    | yes l ↦ rw (parent_right f me low high a b parent l) (
        lift_right f me _ low high b (omega arith) h l
          (find_child f me (midpoint low high) high parent l b (omega arith)))
    | no r ↦ rw (parent_left f me low high a b parent (omega arith)) (
        lift_left f me _ low high a b h (omega arith)
          (find_child f me low (midpoint low high - 1) parent a (omega arith) (omega arith)))
  ]
]

-- Each rank but the first has a parent of lower rank, which lists it as a child; the size that the
-- parent notes is the rank itself and all that the rank's own children note.
pub parent-has_child :
    (nprocs me : ℕ)
    → 0 < me
    → me < nprocs
    → let parent = (cobo_compute_children nprocs me).parent in
      (parent < me)
      × (has_child me
            (num_child_incl (cobo_compute_children nprocs me).children + 1)
            (cobo_compute_children nprocs parent).children
          ≡ true)
unfolding cobo_compute_children
parent-has_child nprocs me a b =
    let high = nprocs - 1 in
    let parent = (find_place nprocs me 0 high 0).parent in
    let k = find_child nprocs me 0 high 0 a (omega arith) (omega arith) in
    let (mine, above, below) =
      find_place-children nprocs me 0 high 0 (omega arith) (omega arith) (omega arith) in
    let (theirs, above', below') =
      find_place-children nprocs parent 0 high 0 (omega arith) (omega (arith, k.below))
        (omega arith) in
    (
      k.below,
      rw (mine, theirs, num_child_incl_low nprocs me (span nprocs me 0 high) above (omega arith))
          k.listed,
    )
