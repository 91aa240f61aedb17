-- ===== src/Exit.antt =====
-- When a server exits: the client table of src/server/auditserver/ldcs_audit_server_server_cb.c, and the
-- handlers of src/server/auditserver/ldcs_audit_server_handlers.c that count live clients and the child
-- servers that are ready, and that tell the parent. `none` is a failed assertion or `_error`.
pub mod Cases
pub mod InUse
pub mod Table
pub mod Quiet
pub mod Tally
pub mod Late
mod Tests
use spindle.Prelude.{
  ℕ, zero, suc, ◌+◌, ◌-◌, List, [], ◌∷◌, ◌++◌, Bool, true, false, not, ◌&&◌, ◌||◌, ◌==◌, leb, ltb,
  if◌then◌else◌, ◌≡◌, Option, none, some, length, get_elem?, set, replicate,
}

-- `ldcs_client_status_t`
pub data ClientStatus : Type 0 where
  active active_pseudo ended free unknown : ClientStatus

-- Of `ldcs_client_t`, what the count of clients depends on; a `connid` below 0 is `none`.
pub record Client : Type 0 where
  pub connid : Option ℕ
  pub state : ClientStatus
  pub lrank : ℕ

-- What does not change in `ldcs_process_data_t`: the rank, the number of child servers, and whether
-- `OPT_PERSIST` and `OPT_BEEXIT` are set in `opts`.
pub record Config : Type 0 where
  pub md_rank : ℕ
  pub num_children : ℕ
  pub opt_persist : Bool
  pub opt_beexit : Bool

-- What does, the flags as Booleans; `client_table_size` is the length of the table.
pub record Server : Type 0 where
  pub client_table : List Client
  pub client_table_used : ℕ
  pub client_counter : ℕ
  pub clients_live : ℕ
  pub sent_exit_ready : Bool
  pub exit_readys_recvd : ℕ
  pub exit_note_done : Bool
  pub exit_on_client_close : Bool
  pub num_exited_children_peers : ℕ
  pub num_exited_parents : ℕ
  -- `mark_exit` has been called
  pub exiting : Bool

abbrev pub start : Server
start = record {
  client_table = [];
  client_table_used = 0;
  client_counter = 0;
  clients_live = 0;
  sent_exit_ready = false;
  exit_readys_recvd = 0;
  exit_note_done = false;
  exit_on_client_close = false;
  num_exited_children_peers = 0;
  num_exited_parents = 0;
  exiting = false;
}

-- The messages sent: to the front end, to all children, and to the parent.
pub data Action : Type 0 where
  frontend_exit_ready broadcast_exit parent_exit_ready parent_exit_cancel : Action

abbrev pub Result : Type 0
Result = Option (Server × List Action)

abbrev pub is_free : ClientStatus → Bool
is_free free = true
is_free _ = false

abbrev pub is_active : ClientStatus → Bool
is_active active = true
is_active _ = false

-- `handle_exit_broadcast`
unfoldable pub handle_exit_broadcast : Server → List Action → Result
handle_exit_broadcast s sent = some (record s { exiting = true }, sent ++ (broadcast_exit ∷ []))

-- `ldcs_audit_server_md_is_responsible`: only rank 0 is.
abbrev pub is_responsible : Config → Bool
is_responsible c = c.md_rank == 0

-- The early returns of `handle_send_exit_ready_if_done`, in their order.
unfoldable pub children_waited_for : Config → Server → ℕ
children_waited_for c s =
    if ltb s.num_exited_children_peers c.num_children
    then c.num_children - s.num_exited_children_peers
    else 0

unfoldable pub not_done : Config → Server → Bool
unfolding children_waited_for
not_done c s =
    (c.opt_persist && not s.exit_on_client_close)
    || (s.sent_exit_ready && s.num_exited_parents == 0)
    || ltb 0 s.clients_live
    || (c.opt_beexit && not s.exit_note_done && not s.exit_on_client_close)
    || (ltb s.exit_readys_recvd (children_waited_for c s) && not s.exit_on_client_close)

unfoldable pub handle_send_exit_ready_if_done : Config → Server → Result
unfolding not_done handle_exit_broadcast
handle_send_exit_ready_if_done c s =
    let now = record s { sent_exit_ready = true } in
    if not_done c s
    then some (s, [])
    else if is_responsible c
    then handle_exit_broadcast now (frontend_exit_ready ∷ [])
    else some (now, parent_exit_ready ∷ [])

unfoldable pub handle_exit_ready_msg : Config → Server → Result
unfolding handle_send_exit_ready_if_done
handle_exit_ready_msg c s =
    handle_send_exit_ready_if_done c (record s { exit_readys_recvd = s.exit_readys_recvd + 1 })

unfoldable pub handle_send_exit_cancel : Config → Server → Result
handle_send_exit_cancel c s =
    if s.sent_exit_ready
    then if is_responsible c then some (s, []) else some (s, parent_exit_cancel ∷ [])
    else none

unfoldable pub reset_ready : Result → Result
reset_ready none = none
reset_ready (some (s, sent)) = some (record s { sent_exit_ready = false }, sent)

unfoldable pub handle_exit_cancel_msg : Config → Server → Result
unfolding handle_send_exit_cancel reset_ready
handle_exit_cancel_msg c s =
    let now = record s { exit_readys_recvd = s.exit_readys_recvd - 1 } in
    if ltb 0 s.exit_readys_recvd
    then if s.sent_exit_ready then reset_ready (handle_send_exit_cancel c now) else some (now, [])
    else none

unfoldable pub handle_client_start : Config → Server → Result
unfolding handle_send_exit_cancel
handle_client_start c s = if s.sent_exit_ready then handle_send_exit_cancel c s else some (s, [])

-- `_ldcs_server_CB`: sixteen more entries where all have been used, and the first free one.
abbrev pub free_client : Client
free_client = record { connid = none; state = free; lrank = 0 }

unfoldable pub grow_table : Server → Server
grow_table s =
    if leb (length s.client_table) s.client_table_used
    then record s { client_table = s.client_table ++ replicate 16 free_client }
    else s

abbrev pub one_more : Option ℕ → Option ℕ
one_more none = none
one_more (some nc) = some (suc nc)

unfoldable pub find_free : List Client → Option ℕ
find_free [] = none
find_free (cl ∷ cls) = if is_free cl.state then some 0 else one_more (find_free cls)

-- The new client, once its connection is open.
unfoldable pub add_client : Option ℕ → ℕ → Server → Server
add_client connid nc s = record s {
  client_table =
      set s.client_table nc (record { connid = connid; state = active; lrank = s.client_counter });
  client_table_used = s.client_table_used + 1;
  client_counter = s.client_counter + 1;
  clients_live = s.clients_live + 1;
}

-- A round of the loop of `_ldcs_server_CB`, with what `ldcs_open_server_connections` returns.
unfoldable pub server_cb : Config → Option ℕ → Server → Result
unfolding grow_table find_free add_client handle_client_start
server_cb c connid s = elim (find_free (grow_table s).client_table) [
  | none ↦ none
  | some nc ↦ handle_client_start c (add_client connid nc (grow_table s))
]

-- `handle_client_end`; outside the table nothing is read.
abbrev pub is_connected : Option ℕ → Bool
is_connected none = false
is_connected (some id) = true

abbrev pub is_open : Client → Bool
is_open cl = is_connected cl.connid && is_active cl.state

unfoldable pub end_client : ℕ → Client → Server → Server
end_client nc cl s = record s {
  client_table = set s.client_table nc (record cl { state = free });
  clients_live = s.clients_live - 1;
}

unfoldable pub handle_client_end : Config → ℕ → Server → Result
unfolding end_client handle_send_exit_ready_if_done
handle_client_end c nc s = elim (get_elem? s.client_table nc) [
  | none ↦ some (s, [])
  | some cl ↦
      if is_open cl
      then if ltb 0 s.clients_live
        then handle_send_exit_ready_if_done c (end_client nc cl s)
        else none
      else some (s, [])
]

unfoldable pub handle_server_error : Bool → Server → Result
handle_server_error is_parent s = some (
  if is_parent
      then record s { num_exited_parents = s.num_exited_parents + 1 }
      else record s { num_exited_children_peers = s.num_exited_children_peers + 1 },
  [],
)

-- `handleExitNote`, which only closes the socket, is left out.
unfoldable pub exit_note_cb : Config → Server → Result
unfolding handle_send_exit_ready_if_done
exit_note_cb c s = handle_send_exit_ready_if_done c (record s { exit_note_done = true })

unfoldable pub set_exit_on_client_close : Config → Server → Result
unfolding handle_send_exit_ready_if_done
set_exit_on_client_close c s =
    handle_send_exit_ready_if_done c (record s { exit_on_client_close = true })

-- What a server can meet.
pub data Event : Type 0 where
  client_starts : Option ℕ → Event
  client_ends : ℕ → Event
  child_ready child_cancels exit_broadcast note close_on_exit : Event
  peer_exits : Bool → Event

-- `handle_server_message` and the callbacks, for these.
unfoldable pub handle : Config → Event → Server → Result
unfolding server_cb handle_client_end handle_exit_ready_msg handle_exit_cancel_msg
    handle_exit_broadcast exit_note_cb set_exit_on_client_close handle_server_error
handle c (client_starts connid) s = server_cb c connid s
handle c (client_ends nc) s = handle_client_end c nc s
handle c child_ready s = handle_exit_ready_msg c s
handle c child_cancels s = handle_exit_cancel_msg c s
handle c exit_broadcast s = handle_exit_broadcast s []
handle c note s = exit_note_cb c s
handle c close_on_exit s = set_exit_on_client_close c s
handle c (peer_exits is_parent) s = handle_server_error is_parent s

-- Reachable states, with all that was sent on the way, where each event is allowed in its state.
pub data Reach (Allowed : Event → Server → Type 0) (c : Config)
    : Server → List Action → Type 0 where
  here : Reach Allowed c start []
  next :
      {s t : Server} {sent more : List Action}
      → Reach Allowed c s sent
      → (e : Event) → Allowed e s
      → handle c e s ≡ some (t, more)
      → Reach Allowed c t (sent ++ more)

abbrev pub Anytime : Event → Server → Type 0
Anytime e s = Unit {0}
