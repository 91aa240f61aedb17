-- ===== src/Relay/Answers.antt =====
-- `handle_send_metadata_to_keys` and `handle_tls_send_results` in pull mode: no node gets the same
-- result twice.
use spindle.Prelude.{
  ℕ, ◌+◌, List, All, [], ◌∷◌, ◌++◌, some, Bool, true, false, not, ◌&&◌, ◌||◌, ◌==◌, ◌≡◌, ◌∙◌, refl,
  CString, str_eq, str_eq_refl, contains, arith, if◌then◌else◌, Bool-cases, inl, inr,
}
use spindle.Wire.{Message}
use spindle.Requestors.{
  Peer, RequestorList, add_requestor, been_requested, peer_requested, get_requestors,
}
use spindle.Requestors.Laws.{IsValid}
use spindle.Requestors.Reads.{been_requested-clear, peer_requested-add}
use spindle.Relay.{
  Relay, Network, Metadata, ldcs_pull, node_peer_all, Sent, to_peer, to_children, to_parent,
  is_child, send_to_nodes, is_sent_to_peer, handle_send_metadata_to_keys, handle_tls_send_results,
  set_table, metadata_eq, metadata_stat, metadata_lstat, metadata_loader,
}

-- The messages for a key to one child.
unfoldable pub count_to : CString → Peer → List Sent → ℕ
count_to key p [] = 0
count_to key p (to_children k msg ∷ sent) = count_to key p sent
count_to key p (to_parent k msg ∷ sent) = count_to key p sent
count_to key p (to_peer k node msg ∷ sent) =
    (if str_eq k key && node == p then 1 else 0) + count_to key p sent

count_to-append :
    (key : CString) (p : Peer) (xs ys : List Sent)
    → count_to key p (xs ++ ys) ≡ count_to key p xs + count_to key p ys
unfolding count_to
count_to-append key p [] ys = omega arith
count_to-append key p (to_children k msg ∷ xs) ys = count_to-append key p xs ys
count_to-append key p (to_parent k msg ∷ xs) ys = count_to-append key p xs ys
count_to-append key p (to_peer k node msg ∷ xs) ys = omega (arith, count_to-append key p xs ys)

-- A message for a key to one child.
unfoldable pub IsSendOf : CString → Message → Sent → Type 0
IsSendOf key msg (to_children k m) = ⊥
IsSendOf key msg (to_parent k m) = ⊥
IsSendOf key msg (to_peer k node m) = (k ≡ key) × (m ≡ msg)

send_to_nodes-IsSendOf :
    (net : Network) (msg : Message) (key : CString) (is_sent : RequestorList → Peer → Bool)
    (nodes : List Peer) (c : RequestorList)
    → All (IsSendOf key msg) (send_to_nodes net msg key is_sent nodes c).loop_sent
unfolding send_to_nodes IsSendOf
send_to_nodes-IsSendOf net msg key is_sent [] c = tt
send_to_nodes-IsSendOf net msg key is_sent (node ∷ nodes) c =
    let same = send_to_nodes-IsSendOf net msg key is_sent nodes c in
    let more = send_to_nodes-IsSendOf net msg key is_sent nodes (add_requestor c key node) in
    elim (Bool-cases (is_child node)) [
      | inr other ↦ rw other same
      | inl child ↦ elim (Bool-cases (is_sent c node)) [
        | inl done ↦ rw (child, done) same
        | inr fresh ↦ elim (Bool-cases (net.sends node)) [
          | inl works ↦ rw (child, fresh, works) ((refl, refl), more)
          | inr fails ↦ rw (child, fresh, fails) same
        ]
      ]
    ]

-- Whether a node is to get the result now.
unfoldable pub is_due : Network → CString → Peer → List Peer → RequestorList → Bool
is_due net key p nodes completed =
    is_child p && (contains p nodes && (net.sends p && not (peer_requested completed key p)))

metadata_eq_refl : (md : Metadata) → metadata_eq md md ≡ true
metadata_eq_refl metadata_stat = refl
metadata_eq_refl metadata_lstat = refl
metadata_eq_refl metadata_loader = refl

-- What the loop over some nodes does for one peer.
abbrev pub IsOnce : Network → Message → CString → Peer → List Peer → RequestorList → Type 0
IsOnce net msg key p nodes c =
    (count_to key p (send_to_nodes net msg key (is_sent_to_peer key) nodes c).loop_sent
      ≡ (if is_due net key p nodes c then 1 else 0))
    × (peer_requested (send_to_nodes net msg key (is_sent_to_peer key) nodes c).completed key p
        ≡ (peer_requested c key p || is_due net key p nodes c))

is_due-step :
    (net : Network) (key : CString) (p node : Peer) (nodes : List Peer) (c : RequestorList)
    → is_child node && (not (peer_requested c key node) && net.sends node) ≡ false
    → is_due net key p (node ∷ nodes) c ≡ is_due net key p nodes c
unfolding is_due contains
is_due-step net key p node nodes c skipped = elim (Bool-cases (node == p)) [
  | inl e ↦
      let node_is : node ≡ p = ground arith in
      let skip : is_child p && (not (peer_requested c key p) && net.sends p) ≡ false =
        rw (← node_is) skipped in
      ground arith
  | inr ne ↦ rw ne refl
]

skip-IsOnce :
    (net : Network) (msg : Message) (key : CString) (p node : Peer) (nodes : List Peer)
    (c : RequestorList)
    → is_child node && (not (peer_requested c key node) && net.sends node) ≡ false
    → IsOnce net msg key p nodes c
    → IsOnce net msg key p (node ∷ nodes) c
unfolding send_to_nodes is_sent_to_peer
skip-IsOnce net msg key p node nodes c skipped same =
    rw (is_due-step net key p node nodes c skipped) (elim (Bool-cases (is_child node)) [
      | inr other ↦ rw other same
      | inl child ↦ elim (Bool-cases (peer_requested c key node)) [
        | inl done ↦ rw (child, done) same
        | inr fresh ↦
            let fails : net.sends node ≡ false = ground arith in rw (child, fresh, fails) same
      ]
    ])

-- After a node got the message.
is_due-sent :
    (net : Network) (key : CString) (p node : Peer) (nodes : List Peer) (c : RequestorList)
    → is_child node ≡ true
    → peer_requested c key node ≡ false
    → net.sends node ≡ true
    → (((if node == p then 1 else 0)
          + (if is_due net key p nodes (add_requestor c key node) then 1 else 0))
        ≡ (if is_due net key p (node ∷ nodes) c then 1 else 0))
      × ((peer_requested (add_requestor c key node) key p
            || is_due net key p nodes (add_requestor c key node))
          ≡ (peer_requested c key p || is_due net key p (node ∷ nodes) c))
unfolding is_due contains
is_due-sent net key p node nodes c child fresh works =
    rw (peer_requested-add c key node p) (elim (Bool-cases (node == p)) [
      | inl e ↦
          let node_is : node ≡ p = ground arith in
          let child_p : is_child p ≡ true = rw (← node_is) child in
          let fresh_p : peer_requested c key p ≡ false = rw (← node_is) fresh in
          let works_p : net.sends p ≡ true = rw (← node_is) works in
          rw (e, child_p, fresh_p, works_p) (ground arith)
      | inr ne ↦ rw ne (ground arith)
    ])

sent-IsOnce :
    (net : Network) (msg : Message) (key : CString) (p node : Peer) (nodes : List Peer)
    (c : RequestorList)
    → is_child node ≡ true
    → peer_requested c key node ≡ false
    → net.sends node ≡ true
    → IsOnce net msg key p nodes (add_requestor c key node)
    → IsOnce net msg key p (node ∷ nodes) c
unfolding send_to_nodes count_to is_sent_to_peer
sent-IsOnce net msg key p node nodes c child fresh works more =
    let step = is_due-sent net key p node nodes c child fresh works in
    rw (child, fresh, works, str_eq_refl key) (omega (arith, more.0, step.0), more.1 ∙ step.1)

pub send_to_nodes-IsOnce :
    (net : Network) (msg : Message) (key : CString) (p : Peer) (nodes : List Peer)
    (c : RequestorList)
    → IsOnce net msg key p nodes c
unfolding send_to_nodes count_to is_due contains
send_to_nodes-IsOnce net msg key p [] c = (ground arith, ground arith)
send_to_nodes-IsOnce net msg key p (node ∷ nodes) c =
    elim (Bool-cases (is_child node && (not (peer_requested c key node) && net.sends node))) [
      | inr skipped ↦
          skip-IsOnce net msg key p node nodes c skipped
            (send_to_nodes-IsOnce net msg key p nodes c)
      | inl sends ↦
          sent-IsOnce net msg key p node nodes c (ground arith) (ground arith) (ground arith)
            (send_to_nodes-IsOnce net msg key p nodes (add_requestor c key node))
    ]

-- In pull mode, for a metadata result that was not broadcast and that some nodes wait for, nothing
-- is sent but that result, for its path, to single nodes: once to each child server that waits for
-- it, if the send works and the server has not got it yet, and to no other node; the servers that
-- it was sent to are noted, and nobody waits for it any more.
pub send_metadata_once :
    (net : Network) (msg : Message) (key : CString) (md : Metadata) (r : Relay) (nodes : List Peer)
    (p : Peer)
    → r.dist_model ≡ ldcs_pull
    → r.have_done_broadcast && peer_requested (r.completed_metadata md) key node_peer_all ≡ false
    → get_requestors (r.pending_metadata md) key ≡ some nodes
    → IsValid (r.pending_metadata md)
    → let res = (handle_send_metadata_to_keys net msg key false md r).0 in
      let now = is_due net key p nodes (r.completed_metadata md) in
      ((more : List Sent) × (res.sent ≡ r.sent ++ more)
        × All (IsSendOf key msg) more
        × (count_to key p more ≡ (if now then 1 else 0)))
      × (peer_requested (res.completed_metadata md) key p
          ≡ (peer_requested (r.completed_metadata md) key p || now))
      × (been_requested (res.pending_metadata md) key ≡ false)
unfolding handle_send_metadata_to_keys set_table
send_metadata_once net msg key md r nodes p pull fresh waiting valid =
    let once = send_to_nodes-IsOnce net msg key p nodes (r.completed_metadata md) in
    let l = send_to_nodes net msg key (is_sent_to_peer key) nodes (r.completed_metadata md) in
    rw (fresh, pull, waiting, metadata_eq_refl md)
      (
        (
          l.loop_sent,
          refl,
          send_to_nodes-IsSendOf net msg key (is_sent_to_peer key) nodes (r.completed_metadata md),
          once.0,
        ),
        once.1,
        been_requested-clear (r.pending_metadata md) key valid,
      )

-- The same of a TLS result, for the servers that asked for it.
pub send_tls_once :
    (net : Network) (msg : Message) (key : CString) (r : Relay) (nodes : List Peer) (p : Peer)
    → r.dist_model ≡ ldcs_pull
    → peer_requested r.completed_tls_requests key node_peer_all ≡ false
    → get_requestors r.pending_tls_requests key ≡ some nodes
    → IsValid r.pending_tls_requests
    → let res = (handle_tls_send_results net key msg r).0 in
      let now = is_due net key p nodes r.completed_tls_requests in
      (count_to key p res.sent ≡ count_to key p r.sent + (if now then 1 else 0))
      × (peer_requested res.completed_tls_requests key p
          ≡ (peer_requested r.completed_tls_requests key p || now))
      × (been_requested res.pending_tls_requests key ≡ false)
unfolding handle_tls_send_results
send_tls_once net msg key r nodes p pull fresh waiting valid =
    let once = send_to_nodes-IsOnce net msg key p nodes r.completed_tls_requests in
    let l = send_to_nodes net msg key (is_sent_to_peer key) nodes r.completed_tls_requests in
    rw (fresh, pull, waiting)
      (
        omega (arith, count_to-append key p r.sent l.loop_sent, once.0),
        once.1,
        been_requested-clear r.pending_tls_requests key valid,
      )
