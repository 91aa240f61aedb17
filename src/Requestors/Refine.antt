-- ===== src/Requestors/Refine.antt =====
-- The request table refines a function from files to the peers that wait for them.
use spindle.Prelude.{
  List, [], ◌∷◌, Option, none, some, Bool, true, false, ap, fun_ext, ◌≡◌, ◌∙◌, refl, if◌then◌else◌,
  CString, str_eq, str_eq_iff, contains, arith, Bool-cases, inl, inr,
}
use spindle.Requestors.{
  Peer, RequestorList, new_requestor_list, been_requested, add_requestor, get_requestors,
  clear_requestor, peer_requested, requestors_of,
}
use spindle.Requestors.Laws.{
  IsValid, new-IsValid, add_requestor-IsValid, clear_requestor-IsValid, insert_peer,
  get_requestors-add_ne, get_requestors-add_self, get_requestors-clear_ne,
  get_requestors-clear_self,
}

-- The abstract table, and its two updates.
abbrev pub Waiting : Type 0
Waiting = CString → Option (List Peer)

unfoldable pub wait_for : Waiting → CString → Peer → Waiting
unfolding insert_peer
wait_for m file p other =
    if str_eq file other then some (insert_peer p (requestors_of (m file))) else m other

unfoldable pub forget : Waiting → CString → Waiting
forget m file other = if str_eq file other then none else m other

pub data Op : Type 0 where
  add : CString → Peer → Op
  clear : CString → Op

unfoldable pub apply : RequestorList → List Op → RequestorList
apply t [] = t
apply t (add file p ∷ ops) = apply (add_requestor t file p) ops
apply t (clear file ∷ ops) = apply (clear_requestor t file) ops

unfoldable pub apply_abstract : Waiting → List Op → Waiting
apply_abstract m [] = m
apply_abstract m (add file p ∷ ops) = apply_abstract (wait_for m file p) ops
apply_abstract m (clear file ∷ ops) = apply_abstract (forget m file) ops

-- What a caller can read of a file: the peers, whether it is requested, whether a peer did.
unfoldable pub reads : RequestorList → CString → Peer → Option (List Peer) × Bool × Bool
reads t file p = (get_requestors t file, been_requested t file, peer_requested t file p)

unfoldable pub reads_abstract : Option (List Peer) → Peer → Option (List Peer) × Bool × Bool
reads_abstract none p = (none, false, false)
reads_abstract (some ps) p = (some ps, true, contains p ps)

reads_lem :
    (t : RequestorList) (file : CString) (p : Peer)
    → reads t file p ≡ reads_abstract (get_requestors t file) p
unfolding reads reads_abstract get_requestors been_requested peer_requested
reads_lem t file p = ground arith

add_refines :
    (t : RequestorList) (file other : CString) (p : Peer)
    → get_requestors (add_requestor t file p) other ≡ wait_for (get_requestors t) file p other
unfolding wait_for
add_refines t file other p = elim (Bool-cases (str_eq file other)) [
  | inl e ↦ rw e (rw (← (str_eq_iff file other).0 e) (get_requestors-add_self t file p))
  | inr e ↦ rw e (get_requestors-add_ne t file other p (λ q. ground (arith, str_eq_iff file other)))
]

clear_refines :
    (t : RequestorList) (file other : CString)
    → IsValid t
    → get_requestors (clear_requestor t file) other ≡ forget (get_requestors t) file other
unfolding forget
clear_refines t file other h = elim (Bool-cases (str_eq file other)) [
  | inl e ↦ rw e (rw (← (str_eq_iff file other).0 e) (get_requestors-clear_self t file h))
  | inr e ↦ rw e (get_requestors-clear_ne t file other (λ q. ground (arith, str_eq_iff file other)))
]

pub apply_refines :
    (t : RequestorList) (ops : List Op)
    → IsValid t
    → get_requestors (apply t ops) ≡ apply_abstract (get_requestors t) ops
unfolding apply apply_abstract
apply_refines t [] h = refl
apply_refines t (add file p ∷ ops) h =
    rw (apply_refines (add_requestor t file p) ops (add_requestor-IsValid t file p h))
      (ap (λ m. apply_abstract m ops) (fun_ext (λ other. add_refines t file other p)))
apply_refines t (clear file ∷ ops) h =
    rw (apply_refines (clear_requestor t file) ops (clear_requestor-IsValid t file h))
      (ap (λ m. apply_abstract m ops) (fun_ext (λ other. clear_refines t file other h)))

pub get_requestors-new : (file : CString) → get_requestors new_requestor_list file ≡ none
unfolding new_requestor_list get_requestors
get_requestors-new file = refl

-- The answers of `get_requestors` after calls on a new table.
pub get_requestors-apply :
    (ops : List Op) → get_requestors (apply new_requestor_list ops) ≡ apply_abstract (λ f. none) ops
get_requestors-apply ops =
    apply_refines new_requestor_list ops new-IsValid
    ∙ ap (λ m. apply_abstract m ops) (fun_ext get_requestors-new)

-- After any calls of `add_requestor` and `clear_requestor` on a new table, `get_requestors`,
-- `been_requested` and `peer_requested` answer for every file as the function that the same
-- calls update: a peer waits once, in order of arrival, until the file is cleared.
pub run_refines :
    (ops : List Op) (file : CString) (p : Peer)
    → reads (apply new_requestor_list ops) file p
      ≡ reads_abstract (apply_abstract (λ f. none) ops file) p
run_refines ops file p =
    reads_lem (apply new_requestor_list ops) file p
    ∙ ap (λ m. reads_abstract (m file) p) (get_requestors-apply ops)
