-- ===== src/Files/Packets.antt =====
-- What one server sends of an error code or an alias, another takes over and passes on.
use spindle.Prelude.{
  ℕ, ◌+◌, ◌-◌, ◌^◌, [], ◌∷◌, ◌++◌, false, some, CString, contains, length, drop, ◌≡◌, refl, ap, ◌∙◌,
  length-append, append_assoc, drop_append_exact,
}
use spindle.Cache.{Cache, Errcode, not_there, errno, c_string, update_alias}
use spindle.Cache.Strings.{c_string-nul}
use mathlib.Core.Option
use spindle.Relay.{Network}
use spindle.Files.{FileServer, parse_filename_no_alloc}
use spindle.Files.Results.{alias_message, handle_broadcast_alias, handle_alias_recv}

-- An error code as an `int` that is not -1, or -1.
unfoldable pub errcode_number : Errcode → ℕ
errcode_number not_there = 2 ^ 32 - 2
errcode_number (errno n) = n

-- A server that receives an alias, as another server broadcast it, enters the target for that file
-- into its cache and passes on the same message, if neither path has a NUL.
pub alias_passed_on :
    (net : Network) (alias_from alias_name : CString) (s : FileServer)
    → contains 0 alias_from ≡ false
    → contains 0 alias_name ≡ false
    → let names = parse_filename_no_alloc alias_from in
      handle_alias_recv net (alias_message alias_from alias_name) s
      ≡ some (
          handle_broadcast_alias net alias_from alias_name
            (record s { cache = (update_alias s.cache names.0 names.1 alias_name).0 }))
unfolding alias_message handle_alias_recv
alias_passed_on net alias_from alias_name s no_nul no_nul_name =
    let rest = alias_name ++ (0 ∷ []) in
    let first : c_string ((alias_from ++ (0 ∷ [])) ++ rest) ≡ some alias_from =
      ap c_string (append_assoc alias_from (0 ∷ []) rest) ∙ c_string-nul alias_from rest no_nul in
    let after : drop (length alias_from + 1) ((alias_from ++ (0 ∷ [])) ++ rest) ≡ rest =
      drop_append_exact (length alias_from + 1) (alias_from ++ (0 ∷ [])) rest
        (length-append alias_from (0 ∷ [])) in
    rw (handle_alias_recv, first, after, c_string-nul alias_name [] no_nul_name) refl
