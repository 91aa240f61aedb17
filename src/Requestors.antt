-- ===== src/Requestors.antt =====
-- The request tables of a server, src/server/auditserver/ldcs_audit_server_requestors.c: for each
-- file, the peers that wait for it. A chain of the hash table is the list of its entries, first to
-- last; `requestors` holds the used part of the array, so its length is `requestors_num`.
pub mod Chains
pub mod Laws
pub mod Refine
pub mod Capacity
pub mod Union
pub mod Reads
mod Tests
use spindle.Prelude.{
  ℕ, ◌+◌, ◌-◌, ◌*◌, ◌%◌, ◌^◌, List, [], ◌∷◌, ◌++◌, Option, none, some, Bool, true, false, not, ◌==◌,
  ◌&&◌, ltb, if◌then◌else◌, CString, str_eq, contains, length,
}

-- `node_peer_t`, a pointer: only compared.
abbrev pub Peer : Type 0
Peer = ℕ

pub record RequestedFile : Type 0 where
  pub path : CString
  pub hash_val : ℕ
  pub requestors_size : ℕ
  pub requestors : List Peer

abbrev pub initial_peer_size : ℕ
initial_peer_size = 8

abbrev pub requestors_table_size : ℕ
requestors_table_size = 1024

-- `requestor_list_t`: the chain at each index.
abbrev pub RequestorList : Type 0
RequestorList = ℕ → List RequestedFile

unfoldable pub new_requestor_list : RequestorList
new_requestor_list i = []

-- A `char` is signed: a byte above 127 is extended with ones to 32 bits.
unfoldable pub char_to_uint : ℕ → ℕ
char_to_uint c = if ltb c 128 then c else c + (2 ^ 32 - 256)

-- The loop of `hashval`, over `unsigned int`.
unfoldable pub hash_loop : ℕ → CString → ℕ
unfolding char_to_uint
hash_loop hash [] = hash
hash_loop hash (c ∷ str) = hash_loop (((hash * 32) % 2 ^ 32 + hash + char_to_uint c) % 2 ^ 32) str

unfoldable pub hashval : CString → ℕ
unfolding hash_loop
hashval str = hash_loop 5381 str % requestors_table_size

-- The search of `get_requestor` along a chain.
unfoldable pub find_in_chain : ℕ → CString → List RequestedFile → Option RequestedFile
find_in_chain val file [] = none
find_in_chain val file (cur ∷ next) =
    if cur.hash_val == val && str_eq cur.path file then some cur else find_in_chain val file next

-- `get_requestor(list, file, 0)`
unfoldable pub get_requestor : RequestorList → CString → Option RequestedFile
unfolding find_in_chain
get_requestor table file = find_in_chain (hashval file) file (table (hashval file))

unfoldable pub update_chain : RequestorList → ℕ → List RequestedFile → RequestorList
update_chain table val chain i = if i == val then chain else table i

-- What the add path of `get_requestor` allocates.
unfoldable pub new_entry : CString → RequestedFile
new_entry file = record {
  path = file;
  hash_val = hashval file;
  requestors_size = initial_peer_size;
  requestors = [];
}

-- `get_requestor(list, file, 1)`, but for its result, which `get_requestor` then finds.
unfoldable pub ensure_requestor : RequestorList → CString → RequestorList
unfolding get_requestor update_chain new_entry
ensure_requestor table file = elim (get_requestor table file) [
  | some cur ↦ table
  | none ↦ update_chain table (hashval file) (new_entry file ∷ table (hashval file))
]

unfoldable pub been_requested : RequestorList → CString → Bool
been_requested table file = elim (get_requestor table file) [ some cur ↦ true | none ↦ false ]

-- The body of `add_requestor` on the entry: a peer already there is kept once; a full array is
-- doubled before the write at index `requestors_num`.
unfoldable pub add_peer : Peer → RequestedFile → RequestedFile
add_peer peer cur = if contains peer cur.requestors then cur else record cur {
  requestors_size =
      if length cur.requestors == cur.requestors_size
      then cur.requestors_size * 2
      else cur.requestors_size;
  requestors = cur.requestors ++ (peer ∷ []);
}

-- Changes the entry that the search finds, in place.
unfoldable pub change_in_chain :
    (RequestedFile → RequestedFile) → ℕ → CString → List RequestedFile → List RequestedFile
change_in_chain f val file [] = []
change_in_chain f val file (cur ∷ next) =
    if cur.hash_val == val && str_eq cur.path file
    then f cur ∷ next
    else cur ∷ change_in_chain f val file next

unfoldable pub add_requestor : RequestorList → CString → Peer → RequestorList
add_requestor table file peer =
    let t = ensure_requestor table file in
    let val = hashval file in update_chain t val (change_in_chain (add_peer peer) val file (t val))

-- `none` for the result -1.
unfoldable pub get_requestors : RequestorList → CString → Option (List Peer)
unfolding get_requestor
get_requestors table file = elim (get_requestor table file) [
  | some req ↦ some req.requestors
  | none ↦ none
]

-- The second loop of `get_requestors2`: what `req2` has and `req1` has not.
unfoldable pub append_missing : List Peer → List Peer → List Peer → List Peer
append_missing first combined [] = combined
append_missing first combined (p ∷ second) =
    append_missing first (if contains p first then combined else combined ++ (p ∷ [])) second

unfoldable pub requestors_of : Option (List Peer) → List Peer
requestors_of none = []
requestors_of (some ps) = ps

unfoldable pub combine : Option (List Peer) → Option (List Peer) → Option (List Peer)
unfolding append_missing requestors_of
combine none none = none
combine (some ps) second = some (append_missing ps ps (requestors_of second))
combine none (some ps) = some (append_missing [] [] ps)

unfoldable pub get_requestors2 : RequestorList → RequestorList → CString → Option (List Peer)
unfolding combine get_requestors
get_requestors2 list list2 file = combine (get_requestors list file) (get_requestors list2 file)

-- Unlinks the entry that the search finds.
unfoldable pub unlink_in_chain : ℕ → CString → List RequestedFile → List RequestedFile
unlink_in_chain val file [] = []
unlink_in_chain val file (cur ∷ next) =
    if cur.hash_val == val && str_eq cur.path file
    then next
    else cur ∷ unlink_in_chain val file next

unfoldable pub clear_requestor : RequestorList → CString → RequestorList
unfolding get_requestor update_chain unlink_in_chain
clear_requestor table file = elim (get_requestor table file) [
  | none ↦ table
  | some cur ↦
      update_chain table (hashval file) (unlink_in_chain (hashval file) file (table (hashval file)))
]

unfoldable pub peer_requested : RequestorList → CString → Peer → Bool
unfolding get_requestor
peer_requested table file peer = elim (get_requestor table file) [
  | none ↦ false
  | some cur ↦ contains peer cur.requestors
]
