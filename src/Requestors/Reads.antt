-- ===== src/Requestors/Reads.antt =====
-- What `been_requested` and `peer_requested` read after an update of a request table.
use spindle.Prelude.{
  List, [], ◌∷◌, Option, none, some, Bool, true, false, ◌||◌, ◌==◌, ◌≡◌, ◌≢◌, refl, CString,
  contains, arith,
}
use spindle.Requestors.{
  Peer, RequestorList, been_requested, add_requestor, get_requestors, clear_requestor,
  peer_requested, requestors_of, new_requestor_list,
}
use spindle.Requestors.Laws.{
  IsValid, insert_peer, get_requestors-add_ne, get_requestors-add_self, get_requestors-clear_ne,
  get_requestors-clear_self,
}
use spindle.Requestors.Refine.{get_requestors-new}
use spindle.Requestors.Union.{contains-append}

unfoldable pub is_some_list : Option (List Peer) → Bool
is_some_list none = false
is_some_list (some ps) = true

pub peer_requested_lem :
    (t : RequestorList) (file : CString) (p : Peer)
    → peer_requested t file p ≡ contains p (requestors_of (get_requestors t file))
unfolding peer_requested get_requestors requestors_of contains
peer_requested_lem t file p = ground arith

pub been_requested_lem :
    (t : RequestorList) (file : CString)
    → been_requested t file ≡ is_some_list (get_requestors t file)
unfolding been_requested get_requestors is_some_list
been_requested_lem t file = ground arith

contains-one : (p q : Peer) → contains q (p ∷ []) ≡ p == q
unfolding contains
contains-one p q = ground arith

contains-same :
    (p q : Peer) (ps : List Peer) → contains p ps ≡ true → p == q ≡ true → contains q ps ≡ true
contains-same p q ps h e = ground arith

pub contains-insert_peer :
    (p q : Peer) (ps : List Peer) → contains q (insert_peer p ps) ≡ (contains q ps || p == q)
unfolding insert_peer
contains-insert_peer p q ps =
    ground (arith, contains-append q ps (p ∷ []), contains-one p q, contains-same p q ps)

pub peer_requested-add :
    (t : RequestorList) (file : CString) (p q : Peer)
    → peer_requested (add_requestor t file p) file q ≡ (peer_requested t file q || p == q)
unfolding requestors_of
peer_requested-add t file p q =
    rw
      (
        peer_requested_lem (add_requestor t file p) file q,
        peer_requested_lem t file q,
        get_requestors-add_self t file p,
      )
      (contains-insert_peer p q _)

pub been_requested-add :
    (t : RequestorList) (file : CString) (p : Peer)
    → been_requested (add_requestor t file p) file ≡ true
unfolding is_some_list
been_requested-add t file p =
    rw (been_requested_lem (add_requestor t file p) file, get_requestors-add_self t file p) refl

pub been_requested-add_ne :
    (t : RequestorList) (file other : CString) (p : Peer)
    → file ≢ other
    → been_requested (add_requestor t file p) other ≡ been_requested t other
been_requested-add_ne t file other p ne =
    rw
      (
        been_requested_lem (add_requestor t file p) other,
        been_requested_lem t other,
        get_requestors-add_ne t file other p ne,
      )
      refl

pub been_requested-clear :
    (t : RequestorList) (file : CString)
    → IsValid t
    → been_requested (clear_requestor t file) file ≡ false
unfolding is_some_list
been_requested-clear t file valid =
    rw (been_requested_lem (clear_requestor t file) file, get_requestors-clear_self t file valid)
      refl

pub been_requested-clear_ne :
    (t : RequestorList) (file other : CString)
    → file ≢ other
    → been_requested (clear_requestor t file) other ≡ been_requested t other
been_requested-clear_ne t file other ne =
    rw
      (
        been_requested_lem (clear_requestor t file) other,
        been_requested_lem t other,
        get_requestors-clear_ne t file other ne,
      )
      refl

pub peer_requested-add_ne :
    (t : RequestorList) (file other : CString) (p q : Peer)
    → file ≢ other
    → peer_requested (add_requestor t file p) other q ≡ peer_requested t other q
peer_requested-add_ne t file other p q ne =
    rw
      (
        peer_requested_lem (add_requestor t file p) other q,
        peer_requested_lem t other q,
        get_requestors-add_ne t file other p ne,
      )
      refl

pub been_requested-new : (file : CString) → been_requested new_requestor_list file ≡ false
unfolding is_some_list
been_requested-new file =
    rw (been_requested_lem new_requestor_list file, get_requestors-new file) refl
