-- ===== src/Paths/Normal.antt =====
-- `reducePath` as a walk over the names of a path with a stack of names.
use spindle.Prelude.{
  ℕ, zero, suc, ◌≤◌, List, [], ◌∷◌, ◌++◌, Bool, true, false, ◌||◌, if◌then◌else◌, Option, none,
  some, CString, length, ◌≡◌, refl, ap, sym, ◌∙◌, arith, append-nil, All, str_eq, Bool-cases, inl,
  inr, length-append,
}
use spindle.Paths.{
  slash, dot, Reduced, failed, unwritten, copied, written, is_empty, reduce_loop, reduce_path,
}
use spindle.Paths.Names.{join, IsName, join-append, to_slash-name, back_up-join}

-- The names of a stack, the top one last.
unfoldable pub unstack : List CString → List CString
unstack [] = []
unstack (name ∷ stack) = unstack stack ++ (name ∷ [])

-- Nothing has been pushed on the stack `none`.
abbrev pub pushed : Option (List CString) → List CString
pushed none = []
pushed (some stack) = stack

abbrev pub path_of : Option (List CString) → Option CString
path_of none = none
path_of (some stack) = some (join (unstack stack))

-- Empty names and "." are passed over, ".." takes the top name off, and fails if there is none.
unfoldable pub is_passed : CString → Bool
is_passed name = is_empty name || str_eq name (dot ∷ [])

unfoldable pub walk : List CString → Option (List CString) → Reduced
unfolding unstack is_passed
walk [] stack = copied (path_of stack)
walk (name ∷ names) stack =
    let up : Reduced = elim (pushed stack) [
      | [] ↦ failed
      | top ∷ below ↦ walk names (some below)
    ] in
    if is_passed name
    then walk names stack
    else if str_eq name (dot ∷ dot ∷ [])
    then up
    else walk names (some (name ∷ pushed stack))

written-path_of :
    (stack : Option (List CString)) → written (path_of stack) ≡ join (unstack (pushed stack))
unfolding unstack join
written-path_of none = refl
written-path_of (some stack) = refl

is_empty-join :
    (names : List CString) (name : CString) → is_empty (join (names ++ (name ∷ []))) ≡ false
unfolding join
is_empty-join [] name = refl
is_empty-join (next ∷ names) name = refl

-- The step up, where the rest of the loop is known.
module _ (fuel : ℕ) (name : CString) (names : List CString) (first : IsName name)
    (passes : is_passed name ≡ false) (is_up : str_eq name (dot ∷ dot ∷ []) ≡ true) where
  reduce_loop-up :
      (stack : Option (List CString))
      → All IsName (pushed stack)
      → ((below : List CString)
          → All IsName below
          → reduce_loop fuel (join names) (some (join (unstack below))) ≡ walk names (some below))
      → reduce_loop (suc fuel) (join (name ∷ names)) (path_of stack) ≡ walk (name ∷ names) stack
  unfolding join unstack reduce_loop walk
  reduce_loop-up none b rest =
      rw (reduce_loop, walk, to_slash-name name names first, passes, is_up) refl
  reduce_loop-up (some []) b rest =
      rw (reduce_loop, walk, to_slash-name name names first, passes, is_up) refl
  reduce_loop-up (some (top ∷ below)) (top_name, b) rest =
      rw
        (
          reduce_loop,
          walk,
          to_slash-name name names first,
          passes,
          is_up,
          is_empty-join (unstack below) top,
          back_up-join (unstack below) top top_name,
        )
        (rest below b)

-- The loop walks over the names.
reduce_loop-walk :
    (fuel : ℕ) (names : List CString) (stack : Option (List CString))
    → All IsName names
    → All IsName (pushed stack)
    → length (join names) ≤ fuel
    → reduce_loop fuel (join names) (path_of stack) ≡ walk names stack
unfolding reduce_loop walk join unstack
reduce_loop-walk zero [] stack a b h = refl
reduce_loop-walk (suc fuel) [] stack a b h = refl
reduce_loop-walk zero (name ∷ names) stack a b h = absurd (omega arith)
reduce_loop-walk (suc fuel) (name ∷ names) stack (first, a) b h =
    let shorter : length (join names) ≤ fuel = omega (arith, length-append name (join names)) in
    let split = to_slash-name name names first in
    elim (Bool-cases (is_passed name)) [
      | inl y ↦ rw (reduce_loop, walk, split, y) (reduce_loop-walk fuel names stack a b shorter)
      | inr n ↦ elim (Bool-cases (str_eq name (dot ∷ dot ∷ []))) [
        | inl y ↦
            reduce_loop-up fuel name names first n y stack b
              (λ below names_below. reduce_loop-walk fuel names (some below) a names_below shorter)
        | inr m ↦
            let down =
              reduce_loop-walk fuel names (some (name ∷ pushed stack)) a (first, b) shorter in
            let path : written (path_of stack) ++ (slash ∷ name)
                ≡ join (unstack (name ∷ pushed stack)) =
              ap (λ l. l ++ (slash ∷ name)) (written-path_of stack)
              ∙ ap (λ l. join (unstack (pushed stack)) ++ (slash ∷ l)) (sym (append-nil name))
              ∙ sym (join-append (unstack (pushed stack)) (name ∷ [])) in
            rw (reduce_loop, walk, split, n, m, path) down
      ]
    ]

-- A path of names that is not "/" is reduced by a walk over its names.
pub reduce_path-walk :
    (names : List CString)
    → All IsName names
    → str_eq (join names) (slash ∷ []) ≡ false
    → reduce_path (join names) ≡ walk names none
unfolding reduce_path
reduce_path-walk names a h =
    rw (reduce_path, h) (reduce_loop-walk (length (join names)) names none a tt (omega arith))

walk_passed :
    (names : List CString) → All (λ name. is_passed name ≡ true) names → walk names none ≡ unwritten
unfolding walk
walk_passed [] p = refl
walk_passed (name ∷ names) (y, p) = rw (walk, y) (walk_passed names p)

-- A path with no name but empty ones and ".", other than "/", is overwritten with what `tmpdir`
-- happens to hold.
pub reduce_path-unwritten :
    (names : List CString)
    → All IsName names
    → All (λ name. is_passed name ≡ true) names
    → str_eq (join names) (slash ∷ []) ≡ false
    → reduce_path (join names) ≡ unwritten
reduce_path-unwritten names a p h = reduce_path-walk names a h ∙ walk_passed names p
