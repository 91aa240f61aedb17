-- ===== src/Localnames/History.antt =====
-- All the files that a server stores, one after the other.
use spindle.Prelude.{
  ℕ, suc, ◌+◌, ◌*◌, ◌%◌, ◌^◌, ◌≤◌, List, [], ◌∷◌, Option, none, some, CString, length, ◌≡◌, refl,
  arith, ap, ◌∙◌, All, All_map, map,
}
use spindle.Cache.{max_path_len}
use spindle.Localnames.{
  CalcLocal, LocalNames, parts_of, target, calc_localname, init_global_name_list, parse_name,
  put_name, add_index, add_global_name, lookup_global_name, name_file,
}
use spindle.Localnames.Found.{
  IsLocal, IsNamed, parse_name_lem, lookup_lem, target_lem, parts_of_lem,
}
use spindle.Localnames.Grow.{
  IsArray, grow_until-Grew, add_index_new, add_index_old, add_index_reached, add_index-IsNamed,
}

-- The names of copies, each with the path of its file.
unfoldable pub name_files :
    List (CString × CalcLocal) → LocalNames → Option (List (CString × CString) × LocalNames)
unfolding name_file
name_files [] s = some ([], s)
name_files ((pathname, reqtype) ∷ files) s = elim (name_file pathname reqtype s) [
  | none ↦ none
  | some first ↦ elim (name_files files first.1) [
    | none ↦ none
    | some rest ↦ some ((first.0, pathname) ∷ rest.0, rest.1)
  ]
]

-- The names of copies fit into the path buffers.
abbrev pub Fits : CString → CString × CalcLocal → Type 0
Fits cachepath (pathname, reqtype) = length cachepath + length pathname + 60 ≤ max_path_len

-- So many files were named, and the places from there on are free.
record Counted (count : ℕ) (cachepath : CString) (s : LocalNames) : Type 0 where
  is_array : IsArray s
  counter : s.unique_str_num ≡ count
  same_path : s.cachepath ≡ cachepath
  free : (i : ℕ) → count ≤ i → s.global_names i ≡ none

record Named (count : ℕ) (cachepath pathname localpath : CString) (s t : LocalNames) : Type 0 where
  counted : Counted (suc count) cachepath t
  is_named : IsNamed t localpath pathname
  keeps : (l n : CString) → IsNamed s l n → IsNamed t l n

calc_localname_lem :
    (pathname dir file : CString) (reqtype : CalcLocal) (s : LocalNames)
    → parts_of pathname ≡ some (dir, file)
    → calc_localname pathname reqtype s
      ≡ some (
        target s.cachepath s.unique_str_num reqtype (dir, file),
        record s { unique_str_num = (s.unique_str_num + 1) % 2 ^ 32 },
      )
unfolding calc_localname
calc_localname_lem pathname dir file reqtype s e = rw (calc_localname, e) refl

add_global_name_lem :
    (pathname localpath dname : CString) (index : ℕ) (s : LocalNames)
    → parse_name s localpath ≡ some (some dname, some index)
    → add_global_name pathname localpath s ≡ some (add_index pathname (some index) s)
unfolding add_global_name
add_global_name_lem pathname localpath dname index s e = rw (add_global_name, e) refl

name_file-some :
    (pathname localpath : CString) (reqtype : CalcLocal) (s t u : LocalNames)
    → calc_localname pathname reqtype s ≡ some (localpath, t)
    → add_global_name pathname localpath t ≡ some u
    → name_file pathname reqtype s ≡ some (localpath, u)
unfolding name_file
name_file-some pathname localpath reqtype s t u calc add = rw (name_file, calc, add) refl

module _ (count : ℕ) (cachepath pathname localpath : CString) (s : LocalNames)
    (counted : Counted count cachepath s) (few : count ≤ 102400)
    (is_local : IsLocal s.cachepath localpath s.unique_str_num) where
  abbrev numbered : LocalNames
  numbered = record s { unique_str_num = (s.unique_str_num + 1) % 2 ^ 32 }

  numbered-IsArray : IsArray numbered
  numbered-IsArray = record { large = counted.is_array.large; marked = counted.is_array.marked }

  numbered_free : numbered.global_names s.unique_str_num ≡ none
  numbered_free = counted.free s.unique_str_num (omega (arith, counted.counter))

  numbered_near : s.unique_str_num ≤ 10 * numbered.array_size
  numbered_near = omega (arith, counted.counter, few, counted.is_array.large)

  numbered-IsNamed : (l n : CString) → IsNamed s l n → IsNamed numbered l n
  numbered-IsNamed l n is = record {
    index = is.index;
    is_local = is.is_local;
    near = is.near;
    reached = is.reached;
    named = is.named;
  }

  added-Named :
      Named count cachepath pathname localpath s
        (add_index pathname (some s.unique_str_num) numbered)
  unfolding add_index put_name
  added-Named =
      let index = s.unique_str_num in
      let grew = grow_until-Grew 4 index numbered numbered-IsArray in
      record {
        counted = record {
          is_array = record { large = grew.is_array.large; marked = grew.is_array.marked };
          counter = grew.same_num ∙ omega (arith, counted.counter, few);
          same_path = grew.same_path ∙ counted.same_path;
          free = λ i late.
              add_index_old pathname index numbered numbered-IsArray numbered_free i
                (λ same. absurd (omega (arith, late, same, counted.counter)))
              ∙ counted.free i (omega (arith, late));
        };
        is_named = record {
          index = index;
          is_local = rw grew.same_path is_local;
          near = omega (arith, numbered_near, grew.longer);
          reached = add_index_reached pathname index numbered numbered-IsArray numbered_free;
          named = add_index_new pathname index numbered numbered-IsArray numbered_free;
        };
        keeps = λ l n is.
            add_index-IsNamed pathname index numbered numbered-IsArray numbered_free l n
              (numbered-IsNamed l n is);
      }

name_file_lem :
    (count : ℕ) (cachepath pathname : CString) (reqtype : CalcLocal) (s : LocalNames)
    → Counted count cachepath s
    → count ≤ 102400
    → Fits cachepath (pathname, reqtype)
    → (localpath : CString) × (t : LocalNames) × (name_file pathname reqtype s
        ≡ some (localpath, t))
      × Named count cachepath pathname localpath s t
name_file_lem count cachepath pathname reqtype s counted few fits =
    let (dir, file, parts, whole, short) = parts_of_lem pathname (omega (arith, fits)) in
    let localpath = target s.cachepath s.unique_str_num reqtype (dir, file) in
    let is_local =
      target_lem s.cachepath s.unique_str_num reqtype dir file (omega (arith, counted.counter, few))
        whole (omega (arith, fits, short, ap length counted.same_path)) in
    let (dname, parsed) =
      parse_name_lem (numbered count cachepath pathname localpath s counted few is_local) localpath
        s.unique_str_num is_local
        (numbered_near count cachepath pathname localpath s counted few is_local) in
    (
      localpath,
      _,
      name_file-some pathname localpath reqtype s _ _
          (calc_localname_lem pathname dir file reqtype s parts)
          (add_global_name_lem pathname localpath dname s.unique_str_num _ parsed),
      added-Named count cachepath pathname localpath s counted few is_local,
    )

name_files-some :
    (pathname localpath : CString) (reqtype : CalcLocal) (files : List (CString × CalcLocal))
    (named : List (CString × CString)) (s t u : LocalNames)
    → name_file pathname reqtype s ≡ some (localpath, t)
    → name_files files t ≡ some (named, u)
    → name_files ((pathname, reqtype) ∷ files) s ≡ some ((localpath, pathname) ∷ named, u)
unfolding name_files
name_files-some pathname localpath reqtype files named s t u first rest =
    rw (name_files, first, rest) refl

-- The copies that were named before are still found.
name_files_lem :
    (files : List (CString × CalcLocal)) (count : ℕ) (cachepath : CString) (s : LocalNames)
    → Counted count cachepath s
    → count + length files ≤ 102400
    → All (Fits cachepath) files
    → (named : List (CString × CString)) × (t : LocalNames) × (name_files files s ≡ some (named, t))
      × (map (λ p. p.1) named ≡ map (λ f. f.0) files)
      × All (λ p. IsNamed t p.0 p.1) named
      × ((l n : CString) → IsNamed s l n → IsNamed t l n)
unfolding name_files
name_files_lem [] count cachepath s counted few fits = ([], s, refl, refl, tt, λ l n is. is)
name_files_lem ((pathname, reqtype) ∷ files) count cachepath s counted few fits =
    let (now, later) = fits in
    let (localpath, t, first, one) =
      name_file_lem count cachepath pathname reqtype s counted (omega (arith, few)) now in
    let (named, u, rest, same, all, keeps) =
      name_files_lem files (suc count) cachepath t one.counted (omega (arith, few)) later in
    (
      (localpath, pathname) ∷ named,
      u,
      name_files-some pathname localpath reqtype files named s t u first rest,
      ap (◌∷◌ pathname) same,
      (keeps localpath pathname one.is_named, all),
      λ l n is. keeps l n (one.keeps l n is),
    )

-- However many files a server stores, up to 102,400, whose paths fit into its buffers: each of them
-- gets a name, and in the end the lookup of every name gives the path of its own file.
pub found_again :
    (cachepath normalized_tmpdir : CString) (files : List (CString × CalcLocal))
    → length files ≤ 102400
    → All (Fits cachepath) files
    → (named : List (CString × CString)) × (t : LocalNames) × (name_files files
          (init_global_name_list cachepath normalized_tmpdir)
        ≡ some (named, t))
      × (map (λ p. p.1) named ≡ map (λ f. f.0) files)
      × All (λ p. lookup_global_name p.0 t ≡ some (some p.1)) named
unfolding init_global_name_list
found_again cachepath normalized_tmpdir files few fits =
    let start = init_global_name_list cachepath normalized_tmpdir in
    let counted : Counted 0 cachepath start = record {
      is_array = record { large = omega arith; marked = refl };
      counter = refl;
      same_path = refl;
      free = λ i late. refl;
    } in
    let (named, t, done, same, all, _) =
      name_files_lem files 0 cachepath start counted (omega (arith, few)) fits in
    (named, t, done, same, All_map _ _ named (λ p is. lookup_lem t p.0 p.1 is) all)
