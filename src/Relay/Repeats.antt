-- ===== src/Relay/Repeats.antt =====
-- What clients that ask for a plain file, not a dso, make a server send.
use spindle.Prelude.{
  ℕ, zero, suc, ◌+◌, [], ◌∷◌, ◌++◌, true, false, ◌≡◌, refl, CString, str_eq_refl, arith,
}
use spindle.Requestors.{been_requested}
use spindle.Relay.{
  Relay, Network, to_parent, client_request_file, handle_send_query, handle_send_file_query,
  was_requested, forward_query, request_message, letter_of,
}
use spindle.Relay.Queries.{count_queries, count-append, is_query, starts_with_letter}

-- The case REQ_FILE of `handle_client_progress` a number of times, for a plain file.
unfoldable pub client_requests : Network → CString → ℕ → Relay → Relay
client_requests net path zero r = r
client_requests net path (suc n) r =
    client_requests net path n (client_request_file net path false r)

one_request :
    (net : Network) (path : CString) (r : Relay)
    → net.forwards ≡ true
    → been_requested r.file_requests path ≡ false
    → ((client_request_file net path false r).sent
        ≡ r.sent ++ (to_parent path (request_message 70 path) ∷ []))
      × (been_requested (client_request_file net path false r).file_requests path ≡ false)
unfolding client_request_file handle_send_query handle_send_file_query was_requested forward_query
    letter_of
one_request net path r works fresh = rw (fresh, works) (refl, fresh)

one_query :
    (path : CString) → count_queries 70 path (to_parent path (request_message 70 path) ∷ []) ≡ 1
unfolding count_queries is_query starts_with_letter request_message
one_query path = rw (str_eq_refl path) refl

-- If no other server has asked for a plain file, and the network works, then each time that
-- `handle_client_progress` finds a client waiting for it, the query for it is sent again.
pub client_requests-repeat :
    (net : Network) (path : CString) (n : ℕ) (r : Relay)
    → net.forwards ≡ true
    → been_requested r.file_requests path ≡ false
    → count_queries 70 path (client_requests net path n r).sent ≡ count_queries 70 path r.sent + n
unfolding client_requests
client_requests-repeat net path zero r works fresh = omega arith
client_requests-repeat net path (suc n) r works fresh =
    let one = one_request net path r works fresh in
    let next = client_request_file net path false r in
    let counted : count_queries 70 path next.sent ≡ count_queries 70 path r.sent + 1 = rw one.0 (
      omega (
        arith,
        count-append 70 path r.sent (to_parent path (request_message 70 path) ∷ []),
        one_query path,
      )) in
    omega (arith, client_requests-repeat net path n next works one.1)
