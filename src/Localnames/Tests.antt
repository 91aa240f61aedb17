-- ===== src/Localnames/Tests.antt =====
-- Two files of the cache in /c.
use spindle.Prelude.{
  ◌+◌, ◌*◌, ◌^◌, ◌≤◌, ◌<◌, List, [], ◌∷◌, some, CString, ◌≡◌, refl, arith, All, map,
}
use spindle.Localnames.{
  CalcLocal, clt_dso, clt_numafile, LocalNames, init_global_name_list, lookup_global_name,
  grow_until, calc_localname,
}
use spindle.Localnames.Grow.{grow_until_in_bounds}
use spindle.Localnames.History.{name_files, found_again}

-- "/c"
abbrev cache : CString
cache = 47 ∷ 99 ∷ []

-- "/l/a", and "b" without a slash.
abbrev two_files : List (CString × CalcLocal)
two_files = (47 ∷ 108 ∷ 47 ∷ 97 ∷ [], clt_dso) ∷ (98 ∷ [], clt_numafile) ∷ []

abbrev first_state : LocalNames
first_state = init_global_name_list cache cache

-- "/c/l/0-spindlens-dso-a"
first_name :
    calc_localname (47 ∷ 108 ∷ 47 ∷ 97 ∷ []) clt_dso first_state
    ≡ some (
      (47 ∷ 99 ∷ 47 ∷ 108 ∷ 47 ∷ 48 ∷ 45 ∷ 115 ∷ 112 ∷ 105 ∷ 110 ∷ 100 ∷ 108 ∷ 101 ∷ 110 ∷ 115 ∷ 45
          ∷ 100 ∷ 115 ∷ 111 ∷ 45 ∷ 97 ∷ []),
      record first_state { unique_str_num = 1 },
    )
unfolding calc_localname init_global_name_list
first_name = refl

found_again_example :
    (named : List (CString × CString)) × (t : LocalNames) × (name_files two_files first_state
      ≡ some (named, t))
    × (map (λ p. p.1) named ≡ map (λ f. f.0) two_files)
    × All (λ p. lookup_global_name p.0 t ≡ some (some p.1)) named
found_again_example =
    found_again cache cache two_files (omega arith) (omega arith, (omega arith, tt))

grow_until_in_bounds_example :
    (grow_until (4 + 9) 100000 first_state ≡ grow_until 4 100000 first_state)
    × (100000 ≤ (grow_until 4 100000 first_state).hiwat)
    × (100000 < (grow_until 4 100000 first_state).array_size)
    × ((grow_until 4 100000 first_state).array_size * 8 < 2 ^ 31)
unfolding init_global_name_list
grow_until_in_bounds_example =
    grow_until_in_bounds 9 100000 first_state (record { large = omega arith; marked = refl })
      (omega arith) (omega arith)
