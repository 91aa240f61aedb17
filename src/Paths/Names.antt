-- ===== src/Paths/Names.antt =====
-- Paths as lists of names, each with a slash before it.
use spindle.Prelude.{
  List, [], ◌∷◌, ◌++◌, false, ◌==◌, none, some, CString, contains, ◌≡◌, refl, ap, sym, ◌∙◌, arith,
  append-nil, append_assoc,
}
use spindle.Paths.{slash, to_slash, cut_last, back_up}

unfoldable pub join : List CString → CString
join [] = []
join (name ∷ names) = slash ∷ (name ++ join names)

-- A name has no slash in it.
abbrev pub IsName : CString → Type 0
IsName name = contains slash name ≡ false

pub join-append : (names more : List CString) → join (names ++ more) ≡ join names ++ join more
unfolding join
join-append [] more = refl
join-append (name ∷ names) more =
    ap (λ l. slash ∷ l)
      (ap (λ l. name ++ l) (join-append names more)
        ∙ sym (append_assoc name (join names) (join more)))

pub to_slash-name :
    (name : CString) (names : List CString)
    → IsName name
    → to_slash (name ++ join names) ≡ (name, join names)
unfolding to_slash join contains
to_slash-name [] [] h = refl
to_slash-name [] (next ∷ names) h = refl
to_slash-name (ch ∷ name) names h =
    let later : IsName name = ground arith in
    let here : (ch == slash) ≡ false = ground arith in
    rw (to_slash, to_slash-name name names later, here) refl

cut_last-name : (name : CString) → IsName name → cut_last name ≡ none
unfolding cut_last contains
cut_last-name [] h = refl
cut_last-name (ch ∷ name) h =
    let later : IsName name = ground arith in
    let here : (ch == slash) ≡ false = ground arith in
    rw (cut_last, cut_last-name name later, here) refl

cut_last-append :
    (s t front : CString) → cut_last t ≡ some front → cut_last (s ++ t) ≡ some (s ++ front)
unfolding cut_last
cut_last-append [] t front h = h
cut_last-append (ch ∷ s) t front h = rw (cut_last, cut_last-append s t front h) refl

-- To go up drops the last name.
pub back_up-join :
    (names : List CString) (name : CString)
    → IsName name
    → back_up (join (names ++ (name ∷ []))) ≡ join names
unfolding back_up join
back_up-join names name h =
    let last : cut_last (slash ∷ (name ++ [])) ≡ some [] =
      rw (append-nil name, cut_last, cut_last-name name h) refl in
    rw
      (
        join-append names (name ∷ []),
        back_up,
        cut_last-append (join names) (slash ∷ (name ++ [])) [] last,
      )
      (append-nil (join names))
