-- ===== src/Localnames/Parts.antt =====
-- The parts of a path: its last segment, and how a local name is cut at the cache path.
use spindle.Prelude.{
  ℕ, zero, suc, ◌+◌, ◌≤◌, [], ◌∷◌, ◌++◌, none, some, true, false, ◌==◌, CString, length, ◌≡◌, refl,
  arith, ap, Bool-cases, Option-cases, inl, inr, contains, take, str_eq_refl, take_append_exact,
}
use spindle.Paths.{slash}
use spindle.Localnames.{
  CalcLocal, clt_unknown, clt_stat, clt_lstat, clt_ldso, clt_file, clt_dso, clt_numafile,
  clt_numadso, prefix_of, split_last, global_part, has_prefix,
}

pub split_last-append :
    (front file : CString)
    → split_last file ≡ none
    → split_last (front ++ (slash ∷ file)) ≡ some (front, file)
unfolding split_last
split_last-append [] file whole = rw whole refl
split_last-append (c ∷ front) file whole = rw (split_last-append front file whole) refl

-- Bytes without a slash before a segment.
pub split_last_segment :
    (front file : CString)
    → contains slash front ≡ false
    → split_last file ≡ none
    → split_last (front ++ file) ≡ none
unfolding split_last contains
split_last_segment [] file out whole = whole
split_last_segment (c ∷ front) file out whole =
    let rest : split_last (front ++ file) ≡ none =
      split_last_segment front file (ground (arith, out)) whole in
    let first : (c == slash) ≡ false = ground (arith, out) in rw (rest, first) refl

pub prefix_of-slash : (reqtype : CalcLocal) → contains slash (prefix_of reqtype) ≡ false
unfolding prefix_of contains
prefix_of-slash clt_unknown = refl
prefix_of-slash clt_stat = refl
prefix_of-slash clt_lstat = refl
prefix_of-slash clt_ldso = refl
prefix_of-slash clt_file = refl
prefix_of-slash clt_dso = refl
prefix_of-slash clt_numafile = refl
prefix_of-slash clt_numadso = refl

pub length-prefix_of : (reqtype : CalcLocal) → length (prefix_of reqtype) ≤ 25
unfolding prefix_of
length-prefix_of clt_unknown = omega arith
length-prefix_of clt_stat = omega arith
length-prefix_of clt_lstat = omega arith
length-prefix_of clt_ldso = omega arith
length-prefix_of clt_file = omega arith
length-prefix_of clt_dso = omega arith
length-prefix_of clt_numafile = omega arith
length-prefix_of clt_numadso = omega arith

-- The last segment has no slash, and the parts with the slash are the path.
pub split_last_lem :
    (path dir file : CString)
    → split_last path ≡ some (dir, file)
    → (split_last file ≡ none) × (length dir + 1 + length file ≡ length path)
unfolding split_last
split_last_lem [] dir file e = cc
split_last_lem (c ∷ path) dir file e = elim (Option-cases (split_last path)) [
  | inl whole ↦ elim (Bool-cases (c == slash)) [
    | inl cut ↦
        let here : some ([], path) ≡ some (dir, file) = rw (whole, cut) at e in
        let at : [] ≡ dir = cc here in
        let d = ap length at in
        let f : path ≡ file = cc here in (rw (← f) whole, omega (arith, d, ap length f))
    | inr other ↦ let here : none ≡ some (dir, file) = rw (whole, other) at e in absurd (cc here)
  ]
  | inr (parts, e_parts) ↦
      let here : some (c ∷ parts.0, parts.1) ≡ some (dir, file) = rw e_parts at e in
      let at : c ∷ parts.0 ≡ dir = cc here in
      let d = ap length at in
      let f : parts.1 ≡ file = cc here in
      let (rest, lengths) = split_last_lem path parts.0 parts.1 e_parts in
      (rw (← f) rest, omega (arith, d, ap length f, lengths))
]

-- A segment has no slash in front, and neither has what follows.
split_last_cons :
    (c : ℕ) (path : CString)
    → split_last (c ∷ path) ≡ none
    → ((c == slash) ≡ false) × (split_last path ≡ none)
unfolding split_last
split_last_cons c path whole = elim (Option-cases (split_last path)) [
  | inl e ↦ elim (Bool-cases (c == slash)) [
    | inl cut ↦ let here : some ([], path) ≡ none = rw (e, cut) at whole in absurd (cc here)
    | inr other ↦ (other, e)
  ]
  | inr (parts, e) ↦
      let here : some (c ∷ parts.0, parts.1) ≡ none = rw e at whole in absurd (cc here)
]

pub take-split_last :
    (n : ℕ) (path : CString) → split_last path ≡ none → split_last (take n path) ≡ none
unfolding split_last
take-split_last zero path whole = refl
take-split_last (suc n) [] whole = refl
take-split_last (suc n) (c ∷ path) whole =
    let (other, rest) = split_last_cons c path whole in rw (take-split_last n path rest, other) refl

pub has_prefix-append : (front rest : CString) → has_prefix front (front ++ rest) ≡ true
unfolding has_prefix
has_prefix-append front rest =
    rw (take_append_exact (length front) front rest refl) (str_eq_refl front)

-- Wherever the pointer is moved to, the last segment is the same.
pub global_part_lem :
    (front file : CString)
    → split_last file ≡ none
    → (dir : CString) × (global_part (front ++ (slash ∷ file)) ≡ some (dir ++ (slash ∷ file)))
unfolding global_part split_last
global_part_lem [] [] whole = ([], refl)
global_part_lem [] (d ∷ file) whole =
    let (other, rest) = split_last_cons d file whole in ([], rw other refl)
global_part_lem (c ∷ []) file whole = ([], refl)
global_part_lem (c ∷ d ∷ front) file whole = elim (Bool-cases (d == slash)) [
  | inl e ↦ (d ∷ front, rw e refl)
  | inr e ↦ (c ∷ d ∷ front, rw e refl)
]
