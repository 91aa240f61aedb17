-- ===== src/Paths/Again.antt =====
-- What `reducePath` makes of a path stays as it is when reduced again.
use spindle.Prelude.{
  List, [], ◌∷◌, ◌++◌, true, false, Option, none, some, CString, All-append, ◌≡◌, ◌≢◌, refl, ap,
  sym, ◌∙◌, arith, append-nil, append_assoc, All, str_eq, Bool-cases, inl, inr,
}
use spindle.Paths.{slash, dot, failed, reduced, reduce_path}
use spindle.Paths.Names.{join, IsName}
use spindle.Paths.Normal.{unstack, pushed, is_passed, walk, reduce_path-walk}

-- A name that a walk pushes.
pub record IsProper (name : CString) : Type 0 where
  pub is_name : IsName name
  pub is_not_passed : is_passed name ≡ false
  pub is_not_up : str_eq name (dot ∷ dot ∷ []) ≡ false

IsProper-unstack : (stack : List CString) → All IsProper stack → All IsProper (unstack stack)
unfolding unstack
IsProper-unstack [] h = tt
IsProper-unstack (name ∷ stack) (now, h) =
    All-append IsProper (unstack stack) (name ∷ []) (IsProper-unstack stack h) (now, tt)

walk_pass :
    (name : CString) (names : List CString) (stack : Option (List CString))
    → is_passed name ≡ true
    → walk (name ∷ names) stack ≡ walk names stack
unfolding walk
walk_pass name names stack y = rw (walk, y) refl

walk_down :
    (name : CString) (names : List CString) (stack : Option (List CString))
    → is_passed name ≡ false
    → str_eq name (dot ∷ dot ∷ []) ≡ false
    → walk (name ∷ names) stack ≡ walk names (some (name ∷ pushed stack))
unfolding walk
walk_down name names stack n m = rw (walk, n, m) refl

-- What a walk leaves, as a path of such names.
abbrev IsProperPath : CString → Type 0
IsProperPath out = (proper : List CString) × (out ≡ join (unstack proper)) × All IsProper proper

walk_up-IsProperPath :
    (name : CString) (names : List CString) (stack : Option (List CString)) (out : CString)
    → is_passed name ≡ false
    → str_eq name (dot ∷ dot ∷ []) ≡ true
    → All IsProper (pushed stack)
    → ((below : List CString)
        → All IsProper below
        → walk names (some below) ≡ reduced out
        → IsProperPath out)
    → walk (name ∷ names) stack ≡ reduced out
    → IsProperPath out
unfolding walk
walk_up-IsProperPath name names none out n y b rest h =
    let stops : walk (name ∷ names) none ≡ failed = rw (walk, n, y) refl in ground (arith, stops, h)
walk_up-IsProperPath name names (some []) out n y b rest h =
    let stops : walk (name ∷ names) (some []) ≡ failed = rw (walk, n, y) refl in
    ground (arith, stops, h)
walk_up-IsProperPath name names (some (top ∷ below)) out n y (top_proper, b) rest h =
    let goes : walk (name ∷ names) (some (top ∷ below)) ≡ walk names (some below) =
      rw (walk, n, y) refl in
    rest below b (sym goes ∙ h)

walk-IsProperPath :
    (names : List CString) (stack : Option (List CString)) (out : CString)
    → All IsName names
    → All IsProper (pushed stack)
    → walk names stack ≡ reduced out
    → IsProperPath out
unfolding walk
walk-IsProperPath [] none out a b h = ground arith
walk-IsProperPath [] (some stack) out a b h = (stack, ground arith, b)
walk-IsProperPath (name ∷ names) stack out (first, a) b h = elim (Bool-cases (is_passed name)) [
  | inl y ↦ walk-IsProperPath names stack out a b (sym (walk_pass name names stack y) ∙ h)
  | inr n ↦ elim (Bool-cases (str_eq name (dot ∷ dot ∷ []))) [
    | inl y ↦
        walk_up-IsProperPath name names stack out n y b
          (λ below proper e. walk-IsProperPath names (some below) out a proper e) h
    | inr m ↦
        walk-IsProperPath names (some (name ∷ pushed stack)) out a
          (record { is_name = first; is_not_passed = n; is_not_up = m }, b)
          (sym (walk_down name names stack n m) ∙ h)
  ]
]

-- A walk over proper names pushes them all.
walk_proper :
    (names stack : List CString)
    → All IsProper names
    → walk names (some stack) ≡ reduced (join (unstack stack ++ names))
unfolding walk
walk_proper [] stack h = ap (λ l. reduced (join l)) (sym (append-nil (unstack stack)))
walk_proper (name ∷ names) stack (now, h) =
    walk_down name names (some stack) now.is_not_passed now.is_not_up
    ∙ walk_proper names (name ∷ stack) h
    ∙ ap (λ l. reduced (join l)) (append_assoc (unstack stack) (name ∷ []) names)

All-IsName : (names : List CString) → All IsProper names → All IsName names
All-IsName [] h = tt
All-IsName (name ∷ names) (now, h) = (now.is_name, All-IsName names h)

proper_not_root :
    (name : CString) (names : List CString)
    → IsProper name
    → str_eq (join (name ∷ names)) (slash ∷ []) ≡ false
unfolding join is_passed str_eq
proper_not_root [] names h = ground (arith, h.is_not_passed)
proper_not_root (ch ∷ name) names h = ground arith

reduce_path_proper :
    (names : List CString)
    → All IsProper names
    → join names ≢ []
    → reduce_path (join names) ≡ reduced (join names)
unfolding unstack join
reduce_path_proper [] h some_name = absurd (some_name refl)
reduce_path_proper (name ∷ names) (now, h) some_name =
    reduce_path-walk (name ∷ names) (now.is_name, All-IsName names h)
      (proper_not_root name names now)
    ∙ walk_down name names none now.is_not_passed now.is_not_up
    ∙ walk_proper names (name ∷ []) h

-- A path that is reduced to one that is not empty is made of slashes and names other than "." and
-- "..", and reducing it again changes nothing.
pub reduce_path_idem :
    (names : List CString) (out : CString)
    → All IsName names
    → str_eq (join names) (slash ∷ []) ≡ false
    → reduce_path (join names) ≡ reduced out
    → out ≢ []
    → ((proper : List CString) × (out ≡ join proper) × All IsProper proper)
      × (reduce_path out ≡ reduced out)
reduce_path_idem names out a h e some_name =
    let (stack, is, proper) =
      walk-IsProperPath names none out a tt (sym (reduce_path-walk names a h) ∙ e) in
    let all = IsProper-unstack stack proper in
    (
      (unstack stack, is, all),
      rw is (reduce_path_proper (unstack stack) all (λ none_left. some_name (is ∙ none_left))),
    )
