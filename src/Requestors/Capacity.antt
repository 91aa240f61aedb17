-- ===== src/Requestors/Capacity.antt =====
-- The array of an entry: `add_requestor` writes inside what is allocated.
use spindle.Prelude.{
  ℕ, ◌≤◌, List, [], ◌∷◌, ◌==◌, ◌&&◌, CString, str_eq, length, length-append, All, arith, Bool-cases,
  Option-cases, inl, inr,
}
use spindle.Requestors.Refine.{Op, add, clear, apply}
use spindle.Requestors.{
  Peer, RequestedFile, RequestorList, initial_peer_size, new_requestor_list, hashval, get_requestor,
  update_chain, new_entry, ensure_requestor, add_peer, change_in_chain, add_requestor,
  unlink_in_chain, clear_requestor,
}

-- The array holds its used part, and at least the eight peers that it begins with.
pub record HasRoom (r : RequestedFile) : Type 0 where
  pub used : length r.requestors ≤ r.requestors_size
  pub large : initial_peer_size ≤ r.requestors_size

abbrev pub IsSized : RequestorList → Type 0
IsSized t = (v : ℕ) → All HasRoom (t v)

pub add_peer-HasRoom : (p : Peer) (r : RequestedFile) → HasRoom r → HasRoom (add_peer p r)
unfolding add_peer
add_peer-HasRoom p r h = ground (arith, length-append r.requestors (p ∷ []))

update-IsSized :
    (t : RequestorList) (v : ℕ) (l : List RequestedFile)
    → IsSized t
    → All HasRoom l
    → IsSized (update_chain t v l)
unfolding update_chain
update-IsSized t v l h c w = elim (Bool-cases (w == v)) [ inl e ↦ rw e c | inr e ↦ rw e (h w) ]

change-HasRoom :
    (p : Peer) (v : ℕ) (file : CString) (l : List RequestedFile)
    → All HasRoom l
    → All HasRoom (change_in_chain (add_peer p) v file l)
unfolding change_in_chain
change-HasRoom p v file [] h = tt
change-HasRoom p v file (r ∷ l) h = elim (Bool-cases (r.hash_val == v && str_eq r.path file)) [
  | inl e ↦ rw e (add_peer-HasRoom p r h.0, h.1)
  | inr e ↦ rw e (h.0, change-HasRoom p v file l h.1)
]

unlink-HasRoom :
    (v : ℕ) (file : CString) (l : List RequestedFile)
    → All HasRoom l
    → All HasRoom (unlink_in_chain v file l)
unfolding unlink_in_chain
unlink-HasRoom v file [] h = tt
unlink-HasRoom v file (r ∷ l) h = elim (Bool-cases (r.hash_val == v && str_eq r.path file)) [
  | inl e ↦ rw e h.1
  | inr e ↦ rw e (h.0, unlink-HasRoom v file l h.1)
]

ensure-IsSized :
    (t : RequestorList) (file : CString) → IsSized t → IsSized (ensure_requestor t file)
unfolding ensure_requestor new_entry
ensure-IsSized t file h = elim (Option-cases (get_requestor t file)) [
  | inl e ↦
      rw (e, ensure_requestor) (update-IsSized t (hashval file) _ h (omega arith, h (hashval file)))
  | inr (r, e) ↦ rw (e, ensure_requestor) h
]

add_requestor-IsSized :
    (t : RequestorList) (file : CString) (p : Peer) → IsSized t → IsSized (add_requestor t file p)
unfolding add_requestor
add_requestor-IsSized t file p h =
    update-IsSized (ensure_requestor t file) (hashval file) _ (ensure-IsSized t file h)
      (change-HasRoom p (hashval file) file _ (ensure-IsSized t file h (hashval file)))

clear_requestor-IsSized :
    (t : RequestorList) (file : CString) → IsSized t → IsSized (clear_requestor t file)
unfolding clear_requestor
clear_requestor-IsSized t file h = elim (Option-cases (get_requestor t file)) [
  | inl e ↦ rw (e, clear_requestor) h
  | inr (r, e) ↦
      rw (e, clear_requestor)
        (update-IsSized t (hashval file) _ h
          (unlink-HasRoom (hashval file) file _ (h (hashval file))))
]

keeps-IsSized : (t : RequestorList) (ops : List Op) → IsSized t → IsSized (apply t ops)
unfolding apply
keeps-IsSized t [] h = h
keeps-IsSized t (add file p ∷ ops) h =
    keeps-IsSized (add_requestor t file p) ops (add_requestor-IsSized t file p h)
keeps-IsSized t (clear file ∷ ops) h =
    keeps-IsSized (clear_requestor t file) ops (clear_requestor-IsSized t file h)

new-IsSized : IsSized new_requestor_list
unfolding new_requestor_list
new-IsSized v = tt

-- After any calls of `add_requestor` and `clear_requestor` on a new table, each entry of each chain
-- has an array of at least eight peers that is as long as its used part or longer.
pub apply-IsSized : (ops : List Op) (v : ℕ) → All HasRoom (apply new_requestor_list ops v)
apply-IsSized ops = keeps-IsSized new_requestor_list ops new-IsSized
