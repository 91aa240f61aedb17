-- ===== src/Exit/Tests.antt =====
-- A server with no child servers, below rank 0, and one client.
use spindle.Prelude.{◌+◌, ◌≤◌, List, [], ◌∷◌, true, false, none, some, ◌≡◌, ◌≢◌, refl, ◌⊎◌}
use spindle.Exit.{
  Config, Server, Action, Result, parent_exit_cancel, parent_exit_ready,
  handle_send_exit_ready_if_done, not_done, children_waited_for, handle_send_exit_cancel,
  handle_client_start, grow_table, find_free, add_client, server_cb, end_client, handle_client_end,
  client_starts, client_ends, handle, start, here, next,
}
use spindle.Exit.InUse.{in_use}
use spindle.Exit.Table.{Reach-in_use}
use spindle.Exit.Quiet.{announces, announces_quiet}
use spindle.Exit.Tally.{readys, cancels, standing, readys-cancels}
use spindle.Exit.Late.{late_client}

abbrev leaf : Config
leaf = record { md_rank = 2; num_children = 0; opt_persist = false; opt_beexit = false }

abbrev state_of : Result → Server
state_of none = start
state_of (some (s, sent)) = s

abbrev one_client : Server
one_client = state_of (handle leaf (client_starts (some 5)) start)

abbrev ready : Server
ready = state_of (handle leaf (client_ends 0) one_client)

abbrev again : Server
again = state_of (handle leaf (client_starts (some 6)) ready)

first_step : handle leaf (client_starts (some 5)) start ≡ some (one_client, [])
unfolding handle server_cb grow_table find_free add_client handle_client_start
first_step = refl

second_step : handle leaf (client_ends 0) one_client ≡ some (ready, parent_exit_ready ∷ [])
unfolding handle server_cb grow_table find_free add_client handle_client_start handle_client_end
    end_client handle_send_exit_ready_if_done not_done children_waited_for
second_step = refl

third_step : handle leaf (client_starts (some 6)) ready ≡ some (again, parent_exit_cancel ∷ [])
unfolding handle server_cb grow_table find_free add_client handle_client_start handle_client_end
    end_client handle_send_exit_ready_if_done not_done children_waited_for handle_send_exit_cancel
third_step = refl

fourth_step :
    handle leaf (client_ends 0) again ≡ some (state_of (handle leaf (client_ends 0) again), [])
unfolding handle server_cb grow_table find_free add_client handle_client_start handle_client_end
    end_client handle_send_exit_ready_if_done not_done children_waited_for handle_send_exit_cancel
fourth_step = refl

ready_noted : ready.sent_exit_ready ≡ true
unfolding handle server_cb grow_table find_free add_client handle_client_start handle_client_end
    end_client handle_send_exit_ready_if_done not_done children_waited_for handle_send_exit_cancel
ready_noted = refl

parents_alive : ready.num_exited_parents ≡ 0
unfolding handle server_cb grow_table find_free add_client handle_client_start handle_client_end
    end_client handle_send_exit_ready_if_done not_done children_waited_for handle_send_exit_cancel
parents_alive = refl

late_client_example :
    ((parent_exit_cancel ∷ []) ≡ (parent_exit_cancel ∷ []))
    × (Path (List Action) [] [])
    × ((state_of (handle leaf (client_ends 0) again)).sent_exit_ready ≡ true)
late_client_example =
    late_client leaf ready again (state_of (handle leaf (client_ends 0) again))
      (parent_exit_cancel ∷ []) [] (some 6) 0 refl ready_noted parents_alive third_step fourth_step

Reach-in_use_example :
    (one_client.clients_live ≡ in_use one_client.client_table)
    × (server_cb leaf (some 7) one_client ≢ none)
    × (handle_client_end leaf 0 one_client ≢ none)
Reach-in_use_example =
    Reach-in_use {c = leaf} {s = one_client} {sent = []}
      (next here (client_starts (some 5)) tt first_step) (some 7) 0

announces_ready : announces (parent_exit_ready ∷ []) ≡ true
unfolding announces
announces_ready = refl

announces_quiet_example :
    (ready.clients_live ≡ 0)
    × (in_use ready.client_table ≡ 0)
    × ((ready.exit_on_client_close ≡ true)
        ⊎ (leaf.num_children ≤ ready.exit_readys_recvd + ready.num_exited_children_peers))
announces_quiet_example =
    announces_quiet {c = leaf} {s = one_client} {sent = []}
      (next here (client_starts (some 5)) tt first_step) (client_ends 0) second_step announces_ready

readys-cancels_example :
    readys (parent_exit_ready ∷ [])
    ≡ cancels (parent_exit_ready ∷ []) + standing ready.sent_exit_ready
readys-cancels_example =
    readys-cancels {c = leaf} {s = ready} {sent = parent_exit_ready ∷ []} refl
      (next (next here (client_starts (some 5)) refl first_step) (client_ends 0) tt second_step)
