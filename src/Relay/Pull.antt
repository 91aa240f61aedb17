-- ===== src/Relay/Pull.antt =====
-- `handle_send_msg_to_keys` in pull mode: who gets the result of a file.
use spindle.Prelude.{
  List, ◌++◌, some, Bool, true, false, ◌&&◌, ◌==◌, ◌≡◌, ◌∙◌, refl, ap, CString, contains, arith,
}
use spindle.Wire.{Message}
use spindle.Requestors.{Peer, RequestorList, add_requestor, been_requested}
use spindle.Requestors.Laws.{IsValid}
use spindle.Requestors.Reads.{been_requested-clear, peer_requested-add}
use spindle.Relay.{
  Relay, Network, ldcs_pull, node_peer_all, handle_send_msg_to_keys, been_broadcast, is_broadcast,
  waiting_nodes, set_completed, clear_waiting, is_sent_to_all, completed_requests, send_to_nodes,
}
use spindle.Relay.Loop.{answers, send_to_nodes_all}

keeps_all :
    (r : Relay) (is_dso : Bool) (key : CString) (t : RequestorList) (p q : Peer)
    → p == node_peer_all ≡ false
    → is_sent_to_all r is_dso key (add_requestor t key p) q ≡ is_sent_to_all r is_dso key t q
unfolding is_sent_to_all is_broadcast
keeps_all r false key t p q ne = ground (arith, peer_requested-add t key p node_peer_all)
keeps_all r true key t p q ne = ground (arith, peer_requested-add t key p node_peer_all)

unsent_lem :
    (r : Relay) (is_dso : Bool) (key : CString) (q : Peer)
    → been_broadcast r is_dso key ≡ false
    → is_sent_to_all r is_dso key (completed_requests r is_dso) q ≡ false
unfolding is_sent_to_all been_broadcast completed_requests
unsent_lem r false key q h = h
unsent_lem r true key q h = h

-- What `set_completed` and `clear_waiting` leave of the log and the tables of waiting peers.
cleared_lem :
    (is_dso : Bool) (key : CString) (t : RequestorList) (r : Relay)
    → IsValid r.dso_requests
    → IsValid r.file_requests
    → ((clear_waiting is_dso key (set_completed is_dso t r)).sent ≡ r.sent)
      × (been_requested (clear_waiting is_dso key (set_completed is_dso t r)).dso_requests key
          ≡ false)
      × (been_requested (clear_waiting is_dso key (set_completed is_dso t r)).file_requests key
          ≡ (is_dso && been_requested r.file_requests key))
unfolding clear_waiting set_completed
cleared_lem false key t r dso file = (
  refl,
  been_requested-clear r.dso_requests key dso,
  been_requested-clear r.file_requests key file,
)
cleared_lem true key t r dso file = (refl, been_requested-clear r.dso_requests key dso, refl)

-- In pull mode, a result that was not yet broadcast, and for whose file some nodes wait, among
-- them not NODE_PEER_ALL, is sent, if every send works, to exactly those nodes that are child
-- servers, each once for each time it waits and in their order; nothing else is sent and the
-- result is 0. Afterwards no node waits for it as a dso, and for a plain file none waits at all.
pub send_msg_to_waiting :
    (net : Network) (msg : Message) (key : CString) (is_dso : Bool) (r : Relay) (nodes : List Peer)
    → r.dist_model ≡ ldcs_pull
    → been_broadcast r is_dso key ≡ false
    → waiting_nodes r is_dso key ≡ some nodes
    → contains node_peer_all nodes ≡ false
    → ((node : Peer) → net.sends node ≡ true)
    → IsValid r.dso_requests
    → IsValid r.file_requests
    → let res = handle_send_msg_to_keys net msg key false is_dso r in
      (res.0.sent ≡ r.sent ++ answers msg key nodes)
      × (res.1 ≡ true)
      × (been_requested res.0.dso_requests key ≡ false)
      × (been_requested res.0.file_requests key ≡ (is_dso && been_requested r.file_requests key))
unfolding handle_send_msg_to_keys
send_msg_to_waiting net msg key is_dso r nodes pull unsent waits no_all works dso file =
    let is_sent = is_sent_to_all r is_dso key in
    let completed = completed_requests r is_dso in
    let l = send_to_nodes net msg key is_sent nodes completed in
    let loop =
      send_to_nodes_all net msg key is_sent nodes completed works (keeps_all r is_dso key) no_all
        (λ q. unsent_lem r is_dso key q unsent) in
    let after =
      cleared_lem is_dso key l.completed (record r { sent = r.sent ++ l.loop_sent }) dso file in
    let passed : r.have_done_broadcast && been_broadcast r is_dso key ≡ false = ground arith in
    rw (passed, pull, waits) (after.0 ∙ ap (λ s. r.sent ++ s) loop.0, loop.1, after.1, after.2)
