-- ===== src/Paths/Tests.antt =====
-- "/usr/./lib//../bin", and a path of nothing but "." and "".
use spindle.Prelude.{List, [], ◌∷◌, true, false, CString, contains, All, str_eq, ◌≡◌, ◌≢◌, refl}
use spindle.Paths.{slash, to_slash, cut_last, back_up, reduced, reduce_loop, reduce_path}
use spindle.Paths.Names.{join, IsName}
use spindle.Paths.Normal.{is_passed, walk, reduce_path-walk}
use spindle.Paths.Again.{IsProper, reduce_path_idem}
use mathlib.Core.Option.{none}

abbrev usr : CString
usr = 117 ∷ 115 ∷ 114 ∷ []

abbrev lib : CString
lib = 108 ∷ 105 ∷ 98 ∷ []

abbrev bin : CString
bin = 98 ∷ 105 ∷ 110 ∷ []

abbrev up : CString
up = 46 ∷ 46 ∷ []

abbrev here : CString
here = 46 ∷ []

abbrev path : List CString
path = usr ∷ here ∷ lib ∷ [] ∷ up ∷ bin ∷ []

path-IsName : All IsName path
unfolding contains
path-IsName = (refl, (refl, (refl, (refl, (refl, (refl, tt))))))

path_is_not_root : str_eq (join path) (slash ∷ []) ≡ false
unfolding join str_eq
path_is_not_root = refl

reduced_path : reduce_path (join path) ≡ reduced (join (usr ∷ bin ∷ []))
unfolding reduce_path reduce_loop to_slash back_up cut_last join str_eq
reduced_path = refl

some_path : join (usr ∷ bin ∷ []) ≢ []
unfolding join
some_path e = cc

reduce_path-walk_example : reduce_path (join path) ≡ walk path none
reduce_path-walk_example = reduce_path-walk path path-IsName path_is_not_root

reduce_path_idem_example :
    ((proper : List CString) × (join (usr ∷ bin ∷ []) ≡ join proper) × All IsProper proper)
    × (reduce_path (join (usr ∷ bin ∷ [])) ≡ reduced (join (usr ∷ bin ∷ [])))
reduce_path_idem_example =
    reduce_path_idem path (join (usr ∷ bin ∷ [])) path-IsName path_is_not_root reduced_path
      some_path

dots-IsName : All IsName (here ∷ [] ∷ [])
unfolding contains
dots-IsName = (refl, (refl, tt))

dots_passed : All (λ name. is_passed name ≡ true) (here ∷ [] ∷ [])
unfolding is_passed str_eq
dots_passed = (refl, (refl, tt))

dots_are_not_root : str_eq (join (here ∷ [] ∷ [])) (slash ∷ []) ≡ false
unfolding join str_eq
dots_are_not_root = refl
