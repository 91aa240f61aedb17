-- ===== src/Localnames/Make.antt =====
-- How the names of local copies are made: `filemngt_calc_localname` of
-- src/server/auditserver/ldcs_audit_server_filemngt.c.
use spindle.Prelude.{
  ℕ, zero, suc, ◌+◌, ◌/◌, ◌%◌, ◌^◌, [], ◌∷◌, ◌++◌, Option, none, some, Bool, false, ◌==◌, ◌&&◌, ltb,
  if◌then◌else◌, CString, length, take,
}
use spindle.Cache.{max_path_len}
use spindle.Paths.{slash}

abbrev pub dash : ℕ
dash = 45

-- `calc_local_t`
pub data CalcLocal : Type 0 where
  clt_unknown clt_stat clt_lstat clt_ldso clt_file clt_dso clt_numafile clt_numadso : CalcLocal

-- "spindlens-"
abbrev pub spindlens : CString
spindlens = 115 ∷ 112 ∷ 105 ∷ 110 ∷ 100 ∷ 108 ∷ 101 ∷ 110 ∷ 115 ∷ 45 ∷ []

-- "unknown", "stat", "lstat", "ldso", "file", "dso", "numafile-XXXXXX" and "numadso-XXXXXX".
unfoldable pub kind_of : CalcLocal → CString
kind_of clt_unknown = 117 ∷ 110 ∷ 107 ∷ 110 ∷ 111 ∷ 119 ∷ 110 ∷ []
kind_of clt_stat = 115 ∷ 116 ∷ 97 ∷ 116 ∷ []
kind_of clt_lstat = 108 ∷ 115 ∷ 116 ∷ 97 ∷ 116 ∷ []
kind_of clt_ldso = 108 ∷ 100 ∷ 115 ∷ 111 ∷ []
kind_of clt_file = 102 ∷ 105 ∷ 108 ∷ 101 ∷ []
kind_of clt_dso = 100 ∷ 115 ∷ 111 ∷ []
kind_of clt_numafile =
    110 ∷ 117 ∷ 109 ∷ 97 ∷ 102 ∷ 105 ∷ 108 ∷ 101 ∷ 45 ∷ 88 ∷ 88 ∷ 88 ∷ 88 ∷ 88 ∷ 88 ∷ []
kind_of clt_numadso = 110 ∷ 117 ∷ 109 ∷ 97 ∷ 100 ∷ 115 ∷ 111 ∷ 45 ∷ 88 ∷ 88 ∷ 88 ∷ 88 ∷ 88 ∷ 88 ∷ []

unfoldable pub prefix_of : CalcLocal → CString
unfolding kind_of
prefix_of reqtype = spindlens ++ kind_of reqtype

-- "unknown_path"
abbrev pub unknown_path : CString
unknown_path = 117 ∷ 110 ∷ 107 ∷ 110 ∷ 111 ∷ 119 ∷ 110 ∷ 95 ∷ 112 ∷ 97 ∷ 116 ∷ 104 ∷ []

unfoldable pub hex_digit : ℕ → ℕ
hex_digit d = if ltb d 10 then d + 48 else d + 87

-- `%x`; eight digits hold an unsigned int.
unfoldable pub print_hex : ℕ → ℕ → CString → CString
unfolding hex_digit
print_hex zero n rest = rest
print_hex (suc fuel) n rest =
    let more = print_hex fuel (n / 16) (hex_digit (n % 16) ∷ rest) in
    if n / 16 == 0 then hex_digit (n % 16) ∷ rest else more

-- What stands before the last slash, and after it.
unfoldable pub split_last : CString → Option (CString × CString)
split_last [] = none
split_last (c ∷ path) = elim (split_last path) [
  | some parts ↦ some (c ∷ parts.0, parts.1)
  | none ↦ if c == slash then some ([], path) else none
]

-- The directory and the file of a name, or a failed assertion.
unfoldable pub parts_of : CString → Option (CString × CString)
unfolding split_last
parts_of global_name = elim (split_last global_name) [
  | none ↦ some (unknown_path, take max_path_len global_name)
  | some parts ↦
      if ltb (length parts.1) (max_path_len + 1) && ltb (length parts.0) (max_path_len + 1)
      then some parts
      else none
]

unfoldable pub cut_slash : CString → CString
cut_slash [] = []
cut_slash (c ∷ dirpart) = if c == slash then dirpart else c ∷ dirpart

unfoldable pub last_is_slash : CString → Bool
last_is_slash [] = false
last_is_slash (c ∷ []) = c == slash
last_is_slash (c ∷ d ∷ path) = last_is_slash (d ∷ path)

unfoldable pub endslash : CString → CString
unfolding last_is_slash
endslash cachepath = if last_is_slash cachepath then [] else slash ∷ []

unfoldable pub filepart : ℕ → CalcLocal → CString → CString
unfolding print_hex prefix_of
filepart unique reqtype file =
    take max_path_len (print_hex 8 unique [] ++ (dash ∷ prefix_of reqtype ++ (dash ∷ file)))

unfoldable pub target : CString → ℕ → CalcLocal → CString × CString → CString
unfolding filepart endslash cut_slash
target cachepath unique reqtype parts = take max_path_len (
    cachepath
    ++ (endslash cachepath ++ (cut_slash parts.0 ++ (slash ∷ filepart unique reqtype parts.1))))

-- The variables of both files; an array that grows is a function.
pub record LocalNames : Type 0 where
  pub cachepath : CString
  pub normalized_tmpdir : CString
  pub unique_str_num : ℕ
  pub array_size : ℕ
  pub hiwat : ℕ
  pub max_index : ℕ
  pub global_names : ℕ → Option CString

-- `none` where an assertion fails.
unfoldable pub calc_localname : CString → CalcLocal → LocalNames → Option (CString × LocalNames)
unfolding parts_of target
calc_localname global_name reqtype s = elim (parts_of global_name) [
  | none ↦ none
  | some parts ↦ some (
    target s.cachepath s.unique_str_num reqtype parts,
    record s { unique_str_num = (s.unique_str_num + 1) % 2 ^ 32 },
  )
]
