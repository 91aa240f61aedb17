-- ===== src/Relay/Loop.antt =====
-- The loops that send a result to the nodes that wait for it.
use spindle.Prelude.{
  List, [], ◌∷◌, Bool, true, false, ◌==◌, ◌≡◌, refl, ap, CString, contains, arith, if◌then◌else◌,
  Bool-cases, inl, inr,
}
use spindle.Wire.{Message}
use spindle.Requestors.{Peer, RequestorList, add_requestor}
use spindle.Relay.{Network, Sent, to_peer, send_to_nodes, is_child, node_peer_all}

-- One message to each child among some nodes.
unfoldable pub answers : Message → CString → List Peer → List Sent
answers msg key [] = []
answers msg key (node ∷ nodes) =
    if is_child node then to_peer key node msg ∷ answers msg key nodes else answers msg key nodes

-- Where the test is about NODE_PEER_ALL, and that never waits, each child is sent the message.
pub send_to_nodes_all :
    (net : Network) (msg : Message) (key : CString) (is_sent : RequestorList → Peer → Bool)
    (nodes : List Peer) (c : RequestorList)
    → ((node : Peer) → net.sends node ≡ true)
    → ((t : RequestorList) (p q : Peer)
        → p == node_peer_all ≡ false
        → is_sent (add_requestor t key p) q ≡ is_sent t q)
    → contains node_peer_all nodes ≡ false
    → ((q : Peer) → is_sent c q ≡ false)
    → ((send_to_nodes net msg key is_sent nodes c).loop_sent ≡ answers msg key nodes)
      × ((send_to_nodes net msg key is_sent nodes c).ok ≡ true)
unfolding send_to_nodes answers contains
send_to_nodes_all net msg key is_sent [] c works keeps no_all unsent = (refl, refl)
send_to_nodes_all net msg key is_sent (node ∷ nodes) c works keeps no_all unsent =
    elim (Bool-cases (is_child node)) [
      | inl child ↦
          let ih =
            send_to_nodes_all net msg key is_sent nodes (add_requestor c key node) works keeps
              (ground arith) (λ q. ground (arith, keeps c node q, unsent q)) in
          rw (child, unsent node, works node) (ap (λ l. to_peer key node msg ∷ l) ih.0, ih.1)
      | inr not_child ↦
          rw not_child
            (send_to_nodes_all net msg key is_sent nodes c works keeps (ground arith) unsent)
    ]
