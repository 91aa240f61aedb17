-- ===== src/Requestors/Laws.antt =====
-- The request table as a map from files to peers: what each operation changes of the answers of
-- `get_requestors`, the invariant that this needs, and the refinement of a plain function.
use spindle.Prelude.{
  ℕ, ◌<◌, List, [], ◌∷◌, ◌++◌, none, some, ◌==◌, ◌≡◌, ◌≢◌, refl, if◌then◌else◌, CString, str_eq_iff,
  contains, arith, Bool-cases, Option-cases, inl, inr,
}
use spindle.Requestors.{
  Peer, RequestedFile, RequestorList, requestors_table_size, new_requestor_list, hashval,
  find_in_chain, get_requestor, update_chain, new_entry, ensure_requestor, add_peer,
  change_in_chain, add_requestor, get_requestors, unlink_in_chain, clear_requestor, requestors_of,
}
use spindle.Requestors.Chains.{
  find-change_ne, find-change_self, find-unlink_ne, find-unlink_self, IsChain, change-IsChain,
  unlink-IsChain,
}

-- The index of a chain lies in the table.
pub hashval-lt : (s : CString) → hashval s < requestors_table_size
unfolding hashval
hashval-lt s = omega arith

get-update :
    (t : RequestorList) (v : ℕ) (l : List RequestedFile) (file : CString)
    → get_requestor (update_chain t v l) file
      ≡ (if hashval file == v then find_in_chain (hashval file) file l else get_requestor t file)
unfolding get_requestor update_chain
get-update t v l file = ground arith

-- Every chain of the table is one.
abbrev pub IsValid : RequestorList → Type 0
IsValid t = (v : ℕ) → IsChain v (t v)

-- A new table is valid, and has no file.
pub new-IsValid : IsValid new_requestor_list
unfolding new_requestor_list
new-IsValid v = tt

update-IsValid :
    (t : RequestorList) (v : ℕ) (l : List RequestedFile)
    → IsValid t
    → IsChain v l
    → IsValid (update_chain t v l)
unfolding update_chain
update-IsValid t v l h c w = elim (Bool-cases (w == v)) [
  | inl e ↦ rw e (let p : w ≡ v = ground arith in rw p c)
  | inr e ↦ rw e (h w)
]

pub ensure-IsValid :
    (t : RequestorList) (file : CString) → IsValid t → IsValid (ensure_requestor t file)
unfolding ensure_requestor
ensure-IsValid t file h = elim (Option-cases (get_requestor t file)) [
  | inl e ↦
      rw (e, ensure_requestor) (update-IsValid t (hashval file) _ h (refl, e, h (hashval file)))
  | inr (r, e) ↦ rw (e, ensure_requestor) h
]

add_peer-path : (p : Peer) (r : RequestedFile) → (add_peer p r).path ≡ r.path
unfolding add_peer
add_peer-path p r = ground arith

add_peer-hash_val : (p : Peer) (r : RequestedFile) → (add_peer p r).hash_val ≡ r.hash_val
unfolding add_peer
add_peer-hash_val p r = ground arith

-- The invariant holds after `add_requestor`.
pub add_requestor-IsValid :
    (t : RequestorList) (file : CString) (p : Peer) → IsValid t → IsValid (add_requestor t file p)
unfolding add_requestor
add_requestor-IsValid t file p h =
    update-IsValid (ensure_requestor t file) (hashval file) _ (ensure-IsValid t file h) (
      change-IsChain (add_peer p) (hashval file) file _ (add_peer-path p) (add_peer-hash_val p)
        (ensure-IsValid t file h (hashval file)))

-- The invariant holds after `clear_requestor`.
pub clear_requestor-IsValid :
    (t : RequestorList) (file : CString) → IsValid t → IsValid (clear_requestor t file)
unfolding clear_requestor
clear_requestor-IsValid t file h = elim (Option-cases (get_requestor t file)) [
  | inl e ↦ rw (e, clear_requestor) h
  | inr (r, e) ↦
      rw (e, clear_requestor)
        (update-IsValid t (hashval file) _ h
          (unlink-IsChain (hashval file) file _ (h (hashval file))))
]

get-ensure_ne :
    (t : RequestorList) (file other : CString)
    → file ≢ other
    → get_requestor (ensure_requestor t file) other ≡ get_requestor t other
unfolding ensure_requestor get_requestor find_in_chain update_chain new_entry
get-ensure_ne t file other ne = ground (arith, str_eq_iff file other)

get-ensure_self :
    (t : RequestorList) (file : CString)
    → get_requestors (ensure_requestor t file) file ≡ some (requestors_of (get_requestors t file))
unfolding ensure_requestor get_requestors find_in_chain update_chain new_entry requestors_of
get-ensure_self t file = ground (arith, str_eq_iff file file)

-- What `add_requestor` makes of the peers of the file.
unfoldable pub insert_peer : Peer → List Peer → List Peer
insert_peer p ps = if contains p ps then ps else ps ++ (p ∷ [])

peers-add_peer :
    (p : Peer) (r : RequestedFile) → (add_peer p r).requestors ≡ insert_peer p r.requestors
unfolding add_peer insert_peer
peers-add_peer p r = ground arith

pub get_requestors-add_ne :
    (t : RequestorList) (file other : CString) (p : Peer)
    → file ≢ other
    → get_requestors (add_requestor t file p) other ≡ get_requestors t other
unfolding get_requestors add_requestor
get_requestors-add_ne t file other p ne =
    let v = hashval file in
    let u = ensure_requestor t file in
    ground (
      arith,
      get-update u v (change_in_chain (add_peer p) v file (u v)) other,
      find-change_ne (add_peer p) v (hashval other) file other (u v) (add_peer-path p) ne,
      get-ensure_ne t file other ne,
    )

get-requestor_lem :
    (t : RequestorList) (file : CString)
    → get_requestor t file ≡ find_in_chain (hashval file) file (t (hashval file))
unfolding get_requestor
get-requestor_lem t file = refl

pub get_requestors-add_self :
    (t : RequestorList) (file : CString) (p : Peer)
    → get_requestors (add_requestor t file p) file
      ≡ some (insert_peer p (requestors_of (get_requestors t file)))
unfolding get_requestors add_requestor
get_requestors-add_self t file p =
    let v = hashval file in
    let u = ensure_requestor t file in
    elim (Option-cases (get_requestor u file)) [
      | inl e ↦ absurd (ground (arith, get-ensure_self t file))
      | inr (r, e) ↦ ground (
        arith,
        get-update u v (change_in_chain (add_peer p) v file (u v)) file,
        find-change_self (add_peer p) v file (u v) (add_peer-path p) (add_peer-hash_val p),
        get-requestor_lem u file,
        get-ensure_self t file,
        peers-add_peer p r,
      )
    ]

pub get_requestors-clear_ne :
    (t : RequestorList) (file other : CString)
    → file ≢ other
    → get_requestors (clear_requestor t file) other ≡ get_requestors t other
unfolding get_requestors clear_requestor
get_requestors-clear_ne t file other ne =
    let v = hashval file in
    ground (
      arith,
      get-update t v (unlink_in_chain v file (t v)) other,
      find-unlink_ne v (hashval other) file other (t v) ne,
    )

pub get_requestors-clear_self :
    (t : RequestorList) (file : CString)
    → IsValid t
    → get_requestors (clear_requestor t file) file ≡ none
unfolding get_requestors clear_requestor
get_requestors-clear_self t file h =
    let v = hashval file in
    ground (
      arith,
      get-update t v (unlink_in_chain v file (t v)) file,
      find-unlink_self v file (t v) (h v),
    )
