-- ===== src/Exit/Quiet.antt =====
-- When a server announces that it is ready to exit: to its parent, or, on rank 0, to the front end.
use spindle.Prelude.{
  ℕ, ◌+◌, ◌≤◌, List, [], ◌∷◌, Bool, true, false, not, ◌&&◌, leb, Option, some, ◌≡◌, refl, ap, sym,
  ◌∙◌, arith, ◌⊎◌, inl, inr, Bool-cases, Option-cases, length,
}
use mathlib.Core.Path.{subst}
use spindle.Exit.{
  Config, Server, Action, frontend_exit_ready, broadcast_exit, parent_exit_ready,
  parent_exit_cancel, is_responsible, handle_send_exit_ready_if_done, not_done, children_waited_for,
  handle_exit_broadcast, handle_exit_ready_msg, handle_exit_cancel_msg, handle_send_exit_cancel,
  handle_client_start, grow_table, find_free, add_client, server_cb, end_client, handle_client_end,
  handle_server_error, exit_note_cb, set_exit_on_client_close, Event, client_starts, client_ends,
  child_ready, child_cancels, exit_broadcast, note, close_on_exit, peer_exits, handle, Reach, next,
  Anytime,
}
use spindle.Exit.InUse.{in_use}
use spindle.Exit.Table.{Reach-IsTable}
use spindle.Exit.Cases.{
  unheard, uncounted, closes, end-cases, waits, exits, tells, done-cases, late, counts, tops,
  passes, cancel-cases,
}

-- Whether the messages hold an announcement.
unfoldable pub announces : List Action → Bool
announces [] = false
announces (frontend_exit_ready ∷ more) = true
announces (parent_exit_ready ∷ more) = true
announces (broadcast_exit ∷ more) = announces more
announces (parent_exit_cancel ∷ more) = announces more

-- All clients are gone, and so is all that the server has to wait for.
record IsQuiet (c : Config) (t : Server) : Type 0 where
  no_client : t.clients_live ≡ 0
  children :
      (t.exit_on_client_close ≡ true)
      ⊎ (c.num_children ≤ t.exit_readys_recvd + t.num_exited_children_peers)

not_done-IsQuiet : (c : Config) (s : Server) → not_done c s ≡ false → IsQuiet c s
unfolding not_done children_waited_for
not_done-IsQuiet c s h = record { no_client = ground arith; children = ground arith }

done-IsQuiet :
    (c : Config) (s t : Server) (more : List Action)
    → handle_send_exit_ready_if_done c s ≡ some (t, more)
    → announces more ≡ true
    → IsQuiet c t
unfolding announces
done-IsQuiet c s t more h a = elim (done-cases c s) [
  | waits n e ↦ ground arith
  | exits n r e ↦
      let q = not_done-IsQuiet c s n in
      let same : Path Server (record s { sent_exit_ready = true; exiting = true }) t =
        ground arith in
      subst (IsQuiet c) same (record { no_client = q.no_client; children = q.children })
  | tells n r e ↦
      let q = not_done-IsQuiet c s n in
      let same : Path Server (record s { sent_exit_ready = true }) t = ground arith in
      subst (IsQuiet c) same (record { no_client = q.no_client; children = q.children })
]

-- What a new client makes a server send, by whether it has sent that it is ready.
abbrev pub StartSends : Config → Bool → List Action → Type 0
StartSends c ready more =
    (((ready && not (is_responsible c)) ≡ true) × (more ≡ (parent_exit_cancel ∷ [])))
    ⊎ (((ready && not (is_responsible c)) ≡ false) × (more ≡ []))

start-sends :
    (c : Config) (s t : Server) (more : List Action)
    → handle_client_start c s ≡ some (t, more)
    → (s ≡ t) × StartSends c s.sent_exit_ready more
unfolding handle_client_start handle_send_exit_cancel
start-sends c s t more h = (ground arith, ground arith)

-- A larger table leaves the flags alone.
record IsSameFlags (s t : Server) : Type 0 where
  ready : t.sent_exit_ready ≡ s.sent_exit_ready
  parents : t.num_exited_parents ≡ s.num_exited_parents

grow_table-IsSameFlags : (s : Server) → IsSameFlags s (grow_table s)
unfolding grow_table
grow_table-IsSameFlags s = elim (Bool-cases (leb (length s.client_table) s.client_table_used)) [
  | inl y ↦ rw y (record { ready = refl; parents = refl })
  | inr n ↦ rw n (record { ready = refl; parents = refl })
]

pub server_cb-sends :
    (c : Config) (connid : Option ℕ) (s t : Server) (more : List Action)
    → server_cb c connid s ≡ some (t, more)
    → (t.sent_exit_ready ≡ s.sent_exit_ready)
      × (t.num_exited_parents ≡ s.num_exited_parents)
      × StartSends c s.sent_exit_ready more
unfolding server_cb add_client
server_cb-sends c connid s t more h = elim (Option-cases (find_free (grow_table s).client_table)) [
  | inl e ↦ ground (arith, e, h)
  | inr (nc, e) ↦
      let g = grow_table s in
      let opened : handle_client_start c (add_client connid nc g) ≡ some (t, more) =
        ground (arith, e, h) in
      let k = grow_table-IsSameFlags s in
      let (same, sends) = start-sends c (add_client connid nc g) t more opened in
      (
        ap (λ u. u.sent_exit_ready) (sym same) ∙ k.ready,
        ap (λ u. u.num_exited_parents) (sym same) ∙ k.parents,
        subst (λ b. StartSends c b more) k.ready sends,
      )
]

start-announces :
    (c : Config) (b : Bool) (more : List Action) → StartSends c b more → announces more ≡ false
unfolding announces
start-announces c b more (inl (y, e)) = rw e refl
start-announces c b more (inr (n, e)) = rw e refl

cancel-announces :
    (c : Config) (s t : Server) (more : List Action)
    → handle_exit_cancel_msg c s ≡ some (t, more)
    → announces more ≡ false
unfolding announces
cancel-announces c s t more h = elim (cancel-cases c s) [
  | late l e ↦ ground arith
  | counts l n e ↦ ground arith
  | tops l n r e ↦ ground arith
  | passes l n r e ↦ ground arith
]

end-IsQuiet :
    (c : Config) (nc : ℕ) (s t : Server) (more : List Action)
    → handle_client_end c nc s ≡ some (t, more)
    → announces more ≡ true
    → IsQuiet c t
unfolding announces
end-IsQuiet c nc s t more h a = elim (end-cases c nc s) [
  | unheard e ↦ ground arith
  | uncounted e ↦ ground arith
  | closes cl e ↦ done-IsQuiet c (end_client nc cl s) t more (sym e ∙ h) a
]

handle-IsQuiet :
    (c : Config) (e : Event) (s t : Server) (more : List Action)
    → handle c e s ≡ some (t, more)
    → announces more ≡ true
    → IsQuiet c t
unfolding handle handle_exit_ready_msg exit_note_cb set_exit_on_client_close handle_exit_broadcast
    handle_server_error announces
handle-IsQuiet c (client_starts connid) s t more h a =
    let (ready, parents, sends) = server_cb-sends c connid s t more h in
    let silent = start-announces c s.sent_exit_ready more sends in ground arith
handle-IsQuiet c (client_ends nc) s t more h a = end-IsQuiet c nc s t more h a
handle-IsQuiet c child_ready s t more h a =
    done-IsQuiet c (record s { exit_readys_recvd = s.exit_readys_recvd + 1 }) t more h a
handle-IsQuiet c child_cancels s t more h a =
    let silent = cancel-announces c s t more h in ground arith
handle-IsQuiet c exit_broadcast s t more h a = ground arith
handle-IsQuiet c note s t more h a = done-IsQuiet c (record s { exit_note_done = true }) t more h a
handle-IsQuiet c close_on_exit s t more h a =
    done-IsQuiet c (record s { exit_on_client_close = true }) t more h a
handle-IsQuiet c (peer_exits is_parent) s t more h a = ground arith

-- When a server announces that it is ready to exit, none of its clients is live, no entry of the
-- table is in use, and unless it is to exit with its clients, the ready notices of child servers
-- that it counts and its child servers that are gone are together at least as many as its child
-- servers (one that was ready and then left counts twice).
pub announces_quiet :
    {c : Config} {s t : Server} {sent more : List Action}
    → Reach Anytime c s sent
    → (e : Event) → handle c e s ≡ some (t, more)
    → announces more ≡ true
    → (t.clients_live ≡ 0)
      × (in_use t.client_table ≡ 0)
      × ((t.exit_on_client_close ≡ true)
          ⊎ (c.num_children ≤ t.exit_readys_recvd + t.num_exited_children_peers))
announces_quiet {c = c} {s = s} {t = t} {more = more} r e h a =
    let i = Reach-IsTable (next r e tt h) in
    let q = handle-IsQuiet c e s t more h a in
    (q.no_client, sym i.counted ∙ q.no_client, q.children)
