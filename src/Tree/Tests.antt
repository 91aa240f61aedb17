-- ===== src/Tree/Tests.antt =====
-- The tree of six servers, and of eight.
use spindle.Prelude.{ℕ, ◌+◌, ◌-◌, ◌*◌, ◌<◌, [], ◌∷◌, ◌≡◌, refl, true, arith, some, get_elem?}
use spindle.Tree.{midpoint, find_place, cobo_compute_children, num_child_incl}
use spindle.Tree.Family.{has_child, parent-has_child}
use spindle.Tree.Collect.{
  write_children, cobo_gather_tree, cobo_scatter_tree, chunks, gather_chunks, first_child_chunk,
}

children_six : (cobo_compute_children 6 3).children ≡ (record { rank = 4; incl = 2 } ∷ [])
unfolding cobo_compute_children find_place
children_six = refl

abbrev load : ℕ → ℕ
load r = r * 10 + 7

scatter_six :
    cobo_scatter_tree 6 6 0 (chunks load 0 6)
    ≡ ((0, 7) ∷ (3, 17) ∷ (4, 27) ∷ (5, 37) ∷ (1, 47) ∷ (2, 57) ∷ [])
unfolding cobo_scatter_tree write_children chunks cobo_compute_children find_place
scatter_six = refl

parent-has_child_example :
    ((cobo_compute_children 6 4).parent < 4)
    × (has_child 4
          (num_child_incl (cobo_compute_children 6 4).children + 1)
          (cobo_compute_children 6 (cobo_compute_children 6 4).parent).children
        ≡ true)
parent-has_child_example = parent-has_child 6 4 (omega arith) (omega arith)

gather_chunks_example : cobo_gather_tree 6 6 load 0 ≡ chunks load 0 6
gather_chunks_example = gather_chunks load 6 (omega arith)

first_child_chunk_example :
    (get_elem? (cobo_scatter_tree 8 8 0 (chunks load 0 8)) 1 ≡ some (midpoint 0 (8 - 1), load 1))
    × (1 < midpoint 0 (8 - 1))
first_child_chunk_example = first_child_chunk load 8 (omega arith)
