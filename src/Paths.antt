-- ===== src/Paths.antt =====
-- The normal form of a directory's path, `reducePath` of src/utils/pathfn.c, in a buffer that is long
-- enough.
pub mod Names
pub mod Normal
pub mod Again
mod Tests
use spindle.Prelude.{
  ℕ, zero, suc, List, [], ◌∷◌, ◌++◌, Bool, true, false, ◌||◌, ◌==◌, if◌then◌else◌, Option, none,
  some, CString, str_eq, length,
}

abbrev pub slash : ℕ
slash = 47

abbrev pub dot : ℕ
dot = 46

-- From `slash_begin + 1` to `slash_end`, and from there on.
unfoldable pub to_slash : CString → CString × CString
to_slash [] = ([], [])
to_slash (ch ∷ chs) =
    let (name, rest) = to_slash chs in if ch == slash then ([], ch ∷ chs) else (ch ∷ name, rest)

-- `tmpdir` up to its last slash, or empty if it has none.
unfoldable pub cut_last : CString → Option CString
cut_last [] = none
cut_last (ch ∷ chs) = elim (cut_last chs) [
  | some front ↦ some (ch ∷ front)
  | none ↦ if ch == slash then some [] else none
]

unfoldable pub back_up : CString → CString
unfolding cut_last
back_up tmpdir = elim (cut_last tmpdir) [ none ↦ [] | some front ↦ front ]

-- What `dir` holds in the end, or -1; `tmpdir` is copied to it though nothing may have been written.
pub data Reduced : Type 0 where
  failed unwritten : Reduced
  reduced : CString → Reduced

abbrev pub copied : Option CString → Reduced
copied none = unwritten
copied (some tmpdir) = reduced tmpdir

abbrev pub written : Option CString → CString
written none = []
written (some tmpdir) = tmpdir

abbrev pub is_empty : CString → Bool
is_empty [] = true
is_empty (ch ∷ chs) = false

-- The loop, a round for each slash, on what is left of `dir` and on `tmpdir`, `none` at first.
unfoldable pub reduce_loop : ℕ → CString → Option CString → Reduced
unfolding to_slash back_up str_eq
reduce_loop zero dir tmpdir = copied tmpdir
reduce_loop (suc fuel) [] tmpdir = copied tmpdir
reduce_loop (suc fuel) (first ∷ dir) tmpdir =
    let (name, rest) = to_slash dir in
    let passed = reduce_loop fuel rest tmpdir in
    let up = reduce_loop fuel rest (some (back_up (written tmpdir))) in
    let down = reduce_loop fuel rest (some (written tmpdir ++ (first ∷ name))) in
    if is_empty name || str_eq name (dot ∷ [])
    then passed
    else if str_eq name (dot ∷ dot ∷ [])
    then if is_empty (written tmpdir) then failed else up
    else down

unfoldable pub reduce_path : CString → Reduced
unfolding reduce_loop
reduce_path dir = if str_eq dir (slash ∷ []) then reduced dir else reduce_loop (length dir) dir none
