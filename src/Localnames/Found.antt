-- ===== src/Localnames/Found.antt =====
-- The original path is found again from a local name.
use spindle.Prelude.{
  ℕ, suc, ◌+◌, ◌*◌, ◌^◌, ◌<◌, ◌≤◌, [], ◌∷◌, ◌++◌, none, some, true, false, ◌==◌, ◌&&◌, ltb, leb,
  CString, length, ◌≡◌, refl, arith, ap, ◌∙◌, Bool-cases, Option-cases, inl, inr, sym, contains,
  take, str_eq, take_of_length-le, drop_append_exact, append_assoc, length-append, le→leb,
}
use spindle.Cache.{max_path_len}
use spindle.Paths.{slash}
use spindle.Localnames.{
  CalcLocal, LocalNames, prefix_of, split_last, parts_of, file_of, cut_slash, endslash,
  last_is_slash, unknown_path, dash, spindlens, print_hex, filepart, target, after_cachepath,
  from_dash, scan_index, get_global_file_index, index_of, parse_name, name_at, found_name,
  lookup_global_name,
}
use spindle.Localnames.Digits.{
  scan_index-print_hex, from_dash-print_hex, split_last-print_hex, print_hex-append,
  length-print_hex, int_of_small,
}
use spindle.Localnames.Parts.{
  split_last-append, split_last_segment, prefix_of-slash, length-prefix_of, split_last_lem,
  take-split_last, has_prefix-append, global_part_lem,
}

pub parts_of_lem :
    (name : CString)
    → length name ≤ max_path_len
    → (dir file : CString) × (parts_of name ≡ some (dir, file))
      × (split_last file ≡ none)
      × (length dir + length file ≤ length name + 12)
unfolding parts_of
parts_of_lem name short = elim (Option-cases (split_last name)) [
  | inl whole ↦
      let cut : take max_path_len name ≡ name = take_of_length-le max_path_len name short in
      (
        unknown_path,
        take max_path_len name,
        rw (parts_of, whole) refl,
        take-split_last max_path_len name whole,
        omega (arith, ap length cut),
      )
  | inr (parts, e) ↦
      let (whole, lengths) = split_last_lem name parts.0 parts.1 e in
      let fits : (ltb (length parts.1) (max_path_len + 1)
            && ltb (length parts.0) (max_path_len + 1))
          ≡ true =
        ground (arith, lengths, short) in
      (parts.0, parts.1, rw (parts_of, e, fits) refl, whole, omega (arith, lengths))
]

module _ (unique : ℕ) (reqtype : CalcLocal) (file : CString) (few : unique < 2 ^ 31)
    (whole : split_last file ≡ none) (short : length file + 40 ≤ max_path_len) where
  abbrev after_index : CString
  after_index = dash ∷ prefix_of reqtype ++ (dash ∷ file)

  filepart_lem :
      (filepart unique reqtype file ≡ print_hex 8 unique after_index)
      × (length (filepart unique reqtype file) ≤ length file + 35)
  unfolding filepart
  filepart_lem =
      let tail = dash ∷ prefix_of reqtype ++ (dash ∷ file) in
      let joined : print_hex 8 unique [] ++ tail ≡ print_hex 8 unique tail =
        print_hex-append 8 unique [] tail in
      let bound = length-print_hex 8 unique tail in
      let inner : length tail ≡ suc (length (prefix_of reqtype) + suc (length file)) =
        ap suc (length-append (prefix_of reqtype) (dash ∷ file)) in
      let kind = length-prefix_of reqtype in
      let same : length (print_hex 8 unique [] ++ tail) ≡ length (print_hex 8 unique tail) =
        ap length joined in
      let cut : take max_path_len (print_hex 8 unique [] ++ tail) ≡ print_hex 8 unique [] ++ tail =
        take_of_length-le max_path_len _ (omega (arith, same, bound, inner, kind, short)) in
      (cut ∙ joined, omega (arith, ap length cut, same, bound, inner, kind))

  filepart-split_last : split_last (filepart unique reqtype file) ≡ none
  unfolding split_last contains
  filepart-split_last =
      let last : split_last (dash ∷ file) ≡ none = rw whole refl in
      let front : contains slash (dash ∷ prefix_of reqtype) ≡ false = prefix_of-slash reqtype in
      let first = split_last_segment (dash ∷ prefix_of reqtype) (dash ∷ file) front last in
      ap split_last filepart_lem.0 ∙ split_last-print_hex 8 unique after_index first

  index_of-filepart :
      (size : ℕ) → unique ≤ 10 * size → index_of (filepart unique reqtype file) size ≡ some unique
  unfolding index_of get_global_file_index from_dash scan_index str_eq prefix_of
  index_of-filepart size near =
      let name = filepart unique reqtype file in
      let (printed, bound) = filepart_lem in
      let at_dash : from_dash name ≡ after_index =
        ap from_dash printed ∙ from_dash-print_hex 8 unique after_index in
      let tag : str_eq (take 11 (from_dash name)) (dash ∷ spindlens) ≡ true =
        ap (λ rest. str_eq (take 11 rest) (dash ∷ spindlens)) at_dash in
      let fits : ltb (length name) (max_path_len + 1) ≡ true = ground (arith, bound, short) in
      let scanned : scan_index true 0 name ≡ some unique =
        ap (scan_index true 0) printed
        ∙ scan_index-print_hex 7 unique true after_index (omega (arith, few)) in
      let usual : ltb (10 * size) unique ≡ false = ground (arith, near) in
      rw (index_of, tag, get_global_file_index, fits, scanned, int_of_small unique few, usual) refl

-- A local name with an index: how it is cut, whatever the size of the array.
pub record IsLocal (cachepath localpath : CString) (index : ℕ) : Type 0 where
  pub dir : CString
  pub last : CString
  pub shape : localpath ≡ cachepath ++ (dir ++ (slash ∷ last))
  pub whole : split_last last ≡ none
  pub indexed : (size : ℕ) → index ≤ 10 * size → index_of last size ≡ some index

pub parse_name_lem :
    (s : LocalNames) (localpath : CString) (index : ℕ)
    → IsLocal s.cachepath localpath index
    → index ≤ 10 * s.array_size
    → (dname : CString) × (parse_name s localpath ≡ some (some dname, some index))
unfolding parse_name after_cachepath file_of
parse_name_lem s localpath index is near =
    let part = is.dir ++ (slash ∷ is.last) in
    let (dir, moved) = global_part_lem is.dir is.last is.whole in
    let cached : after_cachepath s localpath ≡ some part =
      ap (after_cachepath s) is.shape
      ∙ rw
          (
            after_cachepath,
            has_prefix-append s.cachepath part,
            drop_append_exact (length s.cachepath) s.cachepath part refl,
          )
          refl in
    (
      dir ++ (slash ∷ is.last),
      rw
          (
            parse_name,
            cached,
            moved,
            file_of,
            split_last-append dir is.last is.whole,
            is.indexed s.array_size near,
          )
          refl,
    )

-- The local name stands for the path.
pub record IsNamed (s : LocalNames) (localpath name : CString) : Type 0 where
  pub index : ℕ
  pub is_local : IsLocal s.cachepath localpath index
  pub near : index ≤ 10 * s.array_size
  pub reached : index ≤ s.max_index
  pub named : s.global_names index ≡ some name

pub lookup_lem :
    (s : LocalNames) (localpath name : CString)
    → IsNamed s localpath name
    → lookup_global_name localpath s ≡ some (some name)
unfolding lookup_global_name found_name name_at
lookup_lem s localpath name is =
    let (dname, parsed) = parse_name_lem s localpath is.index is.is_local is.near in
    let inside : leb is.index s.max_index ≡ true = le→leb is.index s.max_index is.reached in
    rw (lookup_global_name, parsed, found_name, name_at, inside, is.named) refl

length-cut_slash : (dir : CString) → length (cut_slash dir) ≤ length dir
unfolding cut_slash
length-cut_slash [] = omega arith
length-cut_slash (c ∷ dir) = elim (Bool-cases (c == slash)) [
  | inl e ↦ rw e (omega arith)
  | inr e ↦ rw e (omega arith)
]

length-endslash : (cachepath : CString) → length (endslash cachepath) ≤ 1
unfolding endslash
length-endslash cachepath = elim (Bool-cases (last_is_slash cachepath)) [
  | inl e ↦ rw (endslash, e) (omega arith)
  | inr e ↦ rw (endslash, e) (omega arith)
]

length_joined :
    (a b c d : CString)
    → length (a ++ (b ++ (c ++ (slash ∷ d)))) ≡ length a + length b + length c + 1 + length d
length_joined a b c d = omega (
  arith,
  length-append a (b ++ (c ++ (slash ∷ d))),
  length-append b (c ++ (slash ∷ d)),
  length-append c (slash ∷ d),
)

pub target_lem :
    (cachepath : CString) (unique : ℕ) (reqtype : CalcLocal) (dir file : CString)
    → unique < 2 ^ 31
    → split_last file ≡ none
    → length cachepath + length dir + length file + 42 ≤ max_path_len
    → IsLocal cachepath (target cachepath unique reqtype (dir, file)) unique
unfolding target
target_lem cachepath unique reqtype dir file few whole short =
    let name = filepart unique reqtype file in
    let (printed, bound) = filepart_lem unique reqtype file few whole (omega (arith, short)) in
    record {
      dir = endslash cachepath ++ cut_slash dir;
      last = name;
      shape =
          let all = cachepath ++ (endslash cachepath ++ (cut_slash dir ++ (slash ∷ name))) in
          let cut : take max_path_len all ≡ all = take_of_length-le max_path_len all (
            omega (
              arith,
              length_joined cachepath (endslash cachepath) (cut_slash dir) name,
              length-endslash cachepath,
              length-cut_slash dir,
              bound,
              short,
            )) in
          cut
          ∙ ap (◌++◌ cachepath)
              (sym (append_assoc (endslash cachepath) (cut_slash dir) (slash ∷ name)));
      whole = filepart-split_last unique reqtype file few whole (omega (arith, short));
      indexed = index_of-filepart unique reqtype file few whole (omega (arith, short));
    }
