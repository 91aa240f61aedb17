-- ===== src/Requestors/Tests.antt =====
-- Runs of the request table, and the theorems at concrete inputs.
use spindle.Prelude.{
  All, List, [], ◌∷◌, ◌++◌, none, some, true, ◌≡◌, ◌||◌, ◌+◌, ◌≤◌, ◌↔◌, length, refl, CString,
  str_eq, contains,
}
use spindle.Requestors.{
  new_requestor_list, hashval, get_requestors, get_requestors2, add_requestor, ensure_requestor,
  change_in_chain, add_peer, requestors_of, clear_requestor, been_requested, peer_requested,
}
use spindle.Requestors.Refine.{
  Op, add, clear, apply, apply_abstract, wait_for, forget, reads, reads_abstract, run_refines,
}
use spindle.Requestors.Union.{those_not_in, get_requestors2-union}
use spindle.Requestors.Capacity.{HasRoom, apply-IsSized}

abbrev lib_a : CString
lib_a = 97 ∷ []

abbrev lib_b : CString
lib_b = 98 ∷ []

abbrev calls : List Op
calls = add lib_a 7 ∷ add lib_b 9 ∷ add lib_a 8 ∷ add lib_a 7 ∷ clear lib_b ∷ []

-- What the code computes, and what the theorem says of it.
reads-calls : reads (apply new_requestor_list calls) lib_a 8 ≡ (some (7 ∷ 8 ∷ []), true, true)
unfolding reads apply new_requestor_list add_requestor ensure_requestor change_in_chain add_peer
    clear_requestor get_requestors been_requested peer_requested hashval str_eq contains
reads-calls = refl

run_refines_example :
    reads (apply new_requestor_list calls) lib_a 8 ≡ (some (7 ∷ 8 ∷ []), true, true)
unfolding reads_abstract apply_abstract wait_for forget requestors_of str_eq contains
run_refines_example = run_refines calls lib_a 8

-- 5381 * 33 + 97, modulo 1024.
hashval-a : hashval lib_a ≡ 518
unfolding hashval
hashval-a = refl

-- A byte above 127 is sign-extended: 5381 * 33 - 1, modulo 1024.
hashval-high : hashval (255 ∷ []) ≡ 420
unfolding hashval
hashval-high = refl

get_requestors2-calls :
    get_requestors2
      (apply new_requestor_list calls)
      (apply new_requestor_list (add lib_a 8 ∷ add lib_a 5 ∷ []))
      lib_a
    ≡ some (7 ∷ 8 ∷ 5 ∷ [])
unfolding apply new_requestor_list add_requestor ensure_requestor change_in_chain add_peer
    clear_requestor get_requestors2 hashval str_eq contains
get_requestors2-calls = refl

two_tables :
    (contains 5 (
        requestors_of (
          get_requestors2
            (apply new_requestor_list calls)
            (apply new_requestor_list (add lib_a 5 ∷ []))
            lib_a))
      ≡ (contains 5 (requestors_of (get_requestors (apply new_requestor_list calls) lib_a))
          || contains 5
              (requestors_of (get_requestors (apply new_requestor_list (add lib_a 5 ∷ [])) lib_a))))
    × (length (
          requestors_of (
            get_requestors2
              (apply new_requestor_list calls)
              (apply new_requestor_list (add lib_a 5 ∷ []))
              lib_a))
        ≤ length (requestors_of (get_requestors (apply new_requestor_list calls) lib_a))
          + length
              (requestors_of (get_requestors (apply new_requestor_list (add lib_a 5 ∷ [])) lib_a)))
    × ((get_requestors2
            (apply new_requestor_list calls)
            (apply new_requestor_list (add lib_a 5 ∷ []))
            lib_a
          ≡ none)
        ↔ ((get_requestors (apply new_requestor_list calls) lib_a ≡ none)
            × (get_requestors (apply new_requestor_list (add lib_a 5 ∷ [])) lib_a ≡ none)))
    × (requestors_of (
          get_requestors2
            (apply new_requestor_list calls)
            (apply new_requestor_list (add lib_a 5 ∷ []))
            lib_a)
        ≡ requestors_of (get_requestors (apply new_requestor_list calls) lib_a)
          ++ those_not_in
              (requestors_of (get_requestors (apply new_requestor_list calls) lib_a))
              (requestors_of (get_requestors (apply new_requestor_list (add lib_a 5 ∷ [])) lib_a)))
two_tables =
    get_requestors2-union (apply new_requestor_list calls)
      (apply new_requestor_list (add lib_a 5 ∷ [])) lib_a 5

abbrev crowd : List Op
crowd =
    add lib_a 1
    ∷ add lib_a 2
    ∷ add lib_a 3
    ∷ add lib_a 4
    ∷ add lib_a 5
    ∷ add lib_a 6
    ∷ add lib_a 7
    ∷ add lib_a 8
    ∷ add lib_a 9
    ∷ []

-- Nine peers: the array of eight has been doubled.
apply-IsSized_example : All HasRoom (apply new_requestor_list crowd 518)
apply-IsSized_example = apply-IsSized crowd 518
