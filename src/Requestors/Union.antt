-- ===== src/Requestors/Union.antt =====
-- `get_requestors2`: the union of the peers that wait for a file in two tables.
use spindle.Prelude.{
  ℕ, ◌+◌, ◌≤◌, List, [], ◌∷◌, ◌++◌, Option, none, some, str_eq, true, false, not, ◌&&◌, ◌||◌, ◌≡◌,
  ◌↔◌, ◌⊎◌, refl, if◌then◌else◌, CString, contains, length, length-append, arith, Bool-cases, inl,
  inr, sym, ◌∙◌, append-nil, append_assoc,
}
use spindle.Requestors.{
  Peer, RequestorList, new_requestor_list, append_missing, requestors_of, combine, get_requestors,
  get_requestors2,
}
use spindle.Requestors.Refine.{
  Op, add, clear, Waiting, wait_for, forget, apply, apply_abstract, get_requestors-apply,
}

pub contains-append :
    (p : ℕ) (xs ys : List ℕ) → contains p (xs ++ ys) ≡ (contains p xs || contains p ys)
unfolding contains
contains-append p [] ys = refl
contains-append p (x ∷ xs) ys = ground (arith, contains-append p xs ys)

contains-append_missing :
    (p : Peer) (first acc second : List Peer)
    → contains p (append_missing first acc second)
      ≡ (contains p acc || (contains p second && not (contains p first)))
unfolding append_missing contains
contains-append_missing p first acc [] = ground arith
contains-append_missing p first acc (q ∷ second) = ground (
  arith,
  contains-append_missing p first (if contains q first then acc else acc ++ (q ∷ [])) second,
  contains-append p acc (q ∷ []),
)

length-append_missing :
    (first acc second : List Peer)
    → length (append_missing first acc second) ≤ length acc + length second
unfolding append_missing
length-append_missing first acc [] = omega arith
length-append_missing first acc (q ∷ second) = ground (
  arith,
  length-append_missing first (if contains q first then acc else acc ++ (q ∷ [])) second,
  length-append acc (q ∷ []),
)

-- The peers that are not among some others.
unfoldable pub those_not_in : List Peer → List Peer → List Peer
those_not_in others [] = []
those_not_in others (p ∷ ps) =
    if contains p others then those_not_in others ps else p ∷ those_not_in others ps

append_missing_lem :
    (first acc second : List Peer)
    → append_missing first acc second ≡ acc ++ those_not_in first second
unfolding append_missing those_not_in
append_missing_lem first acc [] = sym (append-nil acc)
append_missing_lem first acc (q ∷ second) = elim (Bool-cases (contains q first)) [
  | inl old ↦ rw old (append_missing_lem first acc second)
  | inr new ↦ rw new (
      append_missing_lem first (acc ++ (q ∷ [])) second
      ∙ append_assoc acc (q ∷ []) (those_not_in first second))
]

-- No peer stands twice.
abbrev pub IsDistinct : List Peer → Type 0
IsDistinct [] = Unit {0}
IsDistinct (p ∷ ps) = (contains p ps ≡ false) × IsDistinct ps

IsDistinct-append :
    (acc : List Peer) (q : Peer)
    → IsDistinct acc
    → contains q acc ≡ false
    → IsDistinct (acc ++ (q ∷ []))
unfolding contains
IsDistinct-append [] q d e = (refl, tt)
IsDistinct-append (p ∷ acc) q d e =
    (ground (arith, contains-append p acc (q ∷ [])), IsDistinct-append acc q d.1 (ground arith))

IsDistinct-append_missing :
    (first acc second : List Peer)
    → IsDistinct acc
    → IsDistinct second
    → ((p : Peer) → contains p acc ≡ true → (contains p first ≡ true) ⊎ (contains p second ≡ false))
    → IsDistinct (append_missing first acc second)
unfolding append_missing contains
IsDistinct-append_missing first acc [] d e apart = d
IsDistinct-append_missing first acc (q ∷ second) d e apart = elim (Bool-cases (contains q first)) [
  | inl old ↦
      rw old (IsDistinct-append_missing first acc second d e.1 (λ p h. ground (arith, apart p h)))
  | inr new ↦ rw new (
      IsDistinct-append_missing first (acc ++ (q ∷ [])) second
        (IsDistinct-append acc q d (ground (arith, apart q))) e.1
        (λ p h. ground (arith, apart p, contains-append p acc (q ∷ []))))
]

-- The result of `get_requestors2` is the first table's peers and then, in their order, those of the
-- second that are not among the first's. So a peer is in it exactly when it waits in one of the
-- tables, it is not longer than the two arrays together (what `malloc` is asked for), and -1
-- (`none`) is returned exactly when neither table has the file.
pub get_requestors2-union :
    (t u : RequestorList) (file : CString) (p : Peer)
    → (contains p (requestors_of (get_requestors2 t u file)) ≡ (
        contains p (requestors_of (get_requestors t file))
        || contains p (requestors_of (get_requestors u file))))
      × (length (requestors_of (get_requestors2 t u file))
          ≤ length (requestors_of (get_requestors t file))
            + length (requestors_of (get_requestors u file)))
      × ((get_requestors2 t u file ≡ none)
          ↔ ((get_requestors t file ≡ none) × (get_requestors u file ≡ none)))
      × (requestors_of (get_requestors2 t u file)
          ≡ requestors_of (get_requestors t file)
            ++ those_not_in
                (requestors_of (get_requestors t file))
                (requestors_of (get_requestors u file)))
unfolding get_requestors2 contains those_not_in
get_requestors2-union t u file p = union_lem (get_requestors t file) (get_requestors u file)
  where
    union_lem :
        (a b : Option (List Peer))
        → (contains p (requestors_of (combine a b))
            ≡ (contains p (requestors_of a) || contains p (requestors_of b)))
          × (length (requestors_of (combine a b))
              ≤ length (requestors_of a) + length (requestors_of b))
          × ((combine a b ≡ none) ↔ ((a ≡ none) × (b ≡ none)))
          × (requestors_of (combine a b)
              ≡ requestors_of a ++ those_not_in (requestors_of a) (requestors_of b))
    union_lem none none = (refl, omega arith, (λ e. (refl, refl), λ e. refl), refl)
    union_lem (some xs) b = (
      ground (arith, contains-append_missing p xs xs (requestors_of b)),
      omega (arith, length-append_missing xs xs (requestors_of b)),
      (λ e. cc, λ e. cc),
      append_missing_lem xs xs (requestors_of b),
    )
    union_lem none (some ys) = (
      ground (arith, contains-append_missing p [] [] ys),
      omega (arith, length-append_missing [] [] ys),
      (λ e. cc, λ e. cc),
      append_missing_lem [] [] ys,
    )

-- All the arrays of a table are distinct.
abbrev IsDistinctAt : Waiting → Type 0
IsDistinctAt m = (file : CString) → IsDistinct (requestors_of (m file))

wait_for-IsDistinct :
    (m : Waiting) (file : CString) (p : Peer) → IsDistinctAt m → IsDistinctAt (wait_for m file p)
unfolding wait_for requestors_of
wait_for-IsDistinct m file p d other = elim (Bool-cases (str_eq file other)) [
  | inr e ↦ rw (e, requestors_of) (d other)
  | inl e ↦
      rw (e, requestors_of)
        (elim (Bool-cases (contains p (requestors_of (m file)))) [
          | inl old ↦ rw (old, requestors_of) (d file)
          | inr new ↦
              rw (new, requestors_of) (IsDistinct-append (requestors_of (m file)) p (d file) new)
        ])
]

forget-IsDistinct : (m : Waiting) (file : CString) → IsDistinctAt m → IsDistinctAt (forget m file)
unfolding forget requestors_of
forget-IsDistinct m file d other = elim (Bool-cases (str_eq file other)) [
  | inr e ↦ rw (e, requestors_of) (d other)
  | inl e ↦ rw (e, requestors_of) tt
]

apply-IsDistinct :
    (m : Waiting) (ops : List Op) → IsDistinctAt m → IsDistinctAt (apply_abstract m ops)
unfolding apply_abstract
apply-IsDistinct m [] d = d
apply-IsDistinct m (add file p ∷ ops) d =
    apply-IsDistinct (wait_for m file p) ops (wait_for-IsDistinct m file p d)
apply-IsDistinct m (clear file ∷ ops) d =
    apply-IsDistinct (forget m file) ops (forget-IsDistinct m file d)

nobody : IsDistinctAt (λ f. none)
unfolding requestors_of
nobody f = tt

combine-IsDistinct :
    (a b : Option (List Peer))
    → IsDistinct (requestors_of a)
    → IsDistinct (requestors_of b)
    → IsDistinct (requestors_of (combine a b))
unfolding combine contains
combine-IsDistinct none none d e = tt
combine-IsDistinct (some xs) b d e =
    IsDistinct-append_missing xs xs (requestors_of b) d e (λ p h. inl h)
combine-IsDistinct none (some ys) d e = IsDistinct-append_missing [] [] ys tt e (λ p h. cc)

-- The tables hold each waiting peer once, whatever calls filled them, and so does the union.
pub get_requestors2-IsDistinct :
    (ops ops' : List Op) (file : CString)
    → IsDistinct (requestors_of (get_requestors (apply new_requestor_list ops) file))
      × IsDistinct (
          requestors_of
            (get_requestors2 (apply new_requestor_list ops) (apply new_requestor_list ops') file))
unfolding get_requestors2
get_requestors2-IsDistinct ops ops' file = (
  waits ops,
  combine-IsDistinct (get_requestors (apply new_requestor_list ops) file)
      (get_requestors (apply new_requestor_list ops') file) (waits ops) (waits ops'),
)
  where
    waits :
        (l : List Op)
        → IsDistinct (requestors_of (get_requestors (apply new_requestor_list l) file))
    waits l = rw (get_requestors-apply l) (apply-IsDistinct (λ f. none) l nobody file)
