-- ===== src/Exit/Table.antt =====
-- The client table: the live clients are the entries in use, and there is always a free one.
use spindle.Prelude.{
  ℕ, ◌+◌, ◌≤◌, ◌<◌, List, [], ◌∷◌, true, false, leb, ltb, Option, none, some, length, get_elem?,
  replicate, ◌≡◌, ◌≢◌, refl, ap, sym, ◌∙◌, arith, inl, inr, length-append, Bool-cases, Option-cases,
}
use mathlib.Core.Path.{subst}
use spindle.Exit.{
  active, free, Config, Server, Action, Result, is_active, is_open, handle_send_exit_ready_if_done,
  handle_exit_broadcast, handle_exit_ready_msg, handle_exit_cancel_msg, handle_send_exit_cancel,
  reset_ready, handle_client_start, free_client, grow_table, find_free, add_client, server_cb,
  end_client, handle_client_end, handle_server_error, exit_note_cb, set_exit_on_client_close, Event,
  handle, client_starts, client_ends, child_ready, child_cancels, exit_broadcast, note,
  close_on_exit, peer_exits, Reach, Anytime, parent_exit_cancel, here, next, is_responsible,
}
use spindle.Exit.Cases.{waits, exits, tells, done-cases, late, counts, tops, passes, cancel-cases}
use spindle.Exit.InUse.{in_use, in_use-append, length-set, in_use-start, in_use-full, in_use-end}

-- What the handlers keep of the table.
pub record IsTable (s : Server) : Type 0 where
  pub counted : s.clients_live ≡ in_use s.client_table
  pub bounded : s.clients_live ≤ s.client_table_used
  pub roomy : s.client_table_used ≤ length s.client_table

-- The same table and counts.
pub record IsSameTable (s t : Server) : Type 0 where
  pub table : t.client_table ≡ s.client_table
  pub used : t.client_table_used ≡ s.client_table_used
  pub live : t.clients_live ≡ s.clients_live

IsTable-same : {s t : Server} → IsSameTable s t → IsTable s → IsTable t
IsTable-same e i = record {
  counted = e.live ∙ i.counted ∙ ap in_use (sym e.table);
  bounded = omega (arith, e.live, e.used, i.bounded);
  roomy = omega (arith, e.used, i.roomy, ap length e.table);
}

-- A handler that answers, and keeps what holds of the table.
record IsAnswered (r : Result) : Type 0 where
  state : Server
  sent : List Action
  answer : r ≡ some (state, sent)
  kept : IsTable state

done-IsAnswered :
    (c : Config) (s : Server) → IsTable s → IsAnswered (handle_send_exit_ready_if_done c s)
done-IsAnswered c s i = elim (done-cases c s) [
  | waits n e ↦ record { state = _; sent = _; answer = e; kept = i }
  | exits n r e ↦ record {
    state = _;
    sent = _;
    answer = e;
    kept = IsTable-same {s = s} (record { table = refl; used = refl; live = refl }) i;
  }
  | tells n r e ↦ record {
    state = _;
    sent = _;
    answer = e;
    kept = IsTable-same {s = s} (record { table = refl; used = refl; live = refl }) i;
  }
]

client_start-IsAnswered :
    (c : Config) (s : Server) → IsTable s → IsAnswered (handle_client_start c s)
unfolding handle_client_start handle_send_exit_cancel
client_start-IsAnswered c s i = elim (Bool-cases s.sent_exit_ready) [
  | inr n ↦ record { state = s; sent = []; answer = ground arith; kept = i }
  | inl y ↦ elim (Bool-cases (is_responsible c)) [
    | inl r ↦ record { state = s; sent = []; answer = ground arith; kept = i }
    | inr r ↦ record { state = s; sent = parent_exit_cancel ∷ []; answer = ground arith; kept = i }
  ]
]

grow_table-IsTable :
    (s : Server)
    → IsTable s
    → IsTable (grow_table s)
      × ((grow_table s).client_table_used < length (grow_table s).client_table)
unfolding grow_table in_use
grow_table-IsTable s i = elim (Bool-cases (leb (length s.client_table) s.client_table_used)) [
  | inl y ↦ rw y (
    record {
      counted = omega (arith, i.counted, in_use-append s.client_table (replicate 16 free_client));
      bounded = i.bounded;
      roomy = omega (arith, i.roomy, length-append s.client_table (replicate 16 free_client));
    },
    omega (arith, i.roomy, length-append s.client_table (replicate 16 free_client)),
  )
  | inr n ↦ rw n (i, ground arith)
]

server_cb-IsAnswered :
    (c : Config) (connid : Option ℕ) (s : Server) → IsTable s → IsAnswered (server_cb c connid s)
unfolding server_cb add_client
server_cb-IsAnswered c connid s i =
    let (kept, room) = grow_table-IsTable s i in
    elim (Option-cases (find_free (grow_table s).client_table)) [
      | inl e ↦ absurd (
          omega
            (arith, kept.counted, kept.bounded, room, in_use-full (grow_table s).client_table e))
      | inr (nc, e) ↦
          let g = grow_table s in
          rw (server_cb, e)
            (client_start-IsAnswered c (add_client connid nc g) (record {
              counted = omega (
                arith,
                kept.counted,
                in_use-start g.client_table nc
                    (record { connid = connid; state = active; lrank = g.client_counter }) e refl,
              );
              bounded = omega (arith, kept.bounded);
              roomy = omega (
                arith,
                room,
                length-set g.client_table nc
                    (record { connid = connid; state = active; lrank = g.client_counter }),
              );
            }))
    ]

client_end-IsAnswered :
    (c : Config) (nc : ℕ) (s : Server) → IsTable s → IsAnswered (handle_client_end c nc s)
unfolding handle_client_end end_client
client_end-IsAnswered c nc s i = elim (Option-cases (get_elem? s.client_table nc)) [
  | inl e ↦ rw (handle_client_end, e) (record { state = s; sent = []; answer = refl; kept = i })
  | inr (cl, e) ↦ elim (Bool-cases (is_open cl)) [
    | inr n ↦
        rw (handle_client_end, e, n) (record { state = s; sent = []; answer = refl; kept = i })
    | inl y ↦
        let active : is_active cl.state ≡ true = ground arith in
        let fewer = in_use-end s.client_table nc cl e active in
        let live : ltb 0 s.clients_live ≡ true = ground (arith, fewer, i.counted) in
        rw (handle_client_end, e, y, live)
          (done-IsAnswered c (end_client nc cl s) (record {
            counted = omega (arith, i.counted, fewer);
            bounded = omega (arith, i.bounded);
            roomy =
                omega (arith, i.roomy, length-set s.client_table nc (record cl { state = free }));
          }))
  ]
]

same_of :
    {s a t : Server} {sent more : List Action}
    → IsSameTable s a
    → Path Result (some (a, sent)) (some (t, more))
    → IsSameTable s t
same_of {s = s} {a = a} {t = t} k h =
    let same : a ≡ t = ground arith in subst (IsSameTable s) same k

cancel-IsTable :
    (c : Config) (s t : Server) (more : List Action)
    → IsTable s
    → handle_exit_cancel_msg c s ≡ some (t, more)
    → IsSameTable s t
unfolding handle_exit_cancel_msg handle_send_exit_cancel reset_ready
cancel-IsTable c s t more i h = elim (cancel-cases c s) [
  | late l e ↦ cc
  | counts l n e ↦ same_of (record { table = refl; used = refl; live = refl }) (sym e ∙ h)
  | tops l n r e ↦ same_of (record { table = refl; used = refl; live = refl }) (sym e ∙ h)
  | passes l n r e ↦ same_of (record { table = refl; used = refl; live = refl }) (sym e ∙ h)
]

of_answer :
    {r : Result} {t : Server} {more : List Action} → IsAnswered r → r ≡ some (t, more) → IsTable t
of_answer a h = let same : a.state ≡ _ = ground (arith, a.answer, h) in subst IsTable same a.kept

handle-IsTable :
    (c : Config) (e : Event) (s t : Server) (more : List Action)
    → IsTable s
    → handle c e s ≡ some (t, more)
    → IsTable t
unfolding handle handle_exit_ready_msg exit_note_cb set_exit_on_client_close handle_exit_broadcast
    handle_server_error
handle-IsTable c (client_starts connid) s t more i h =
    of_answer (server_cb-IsAnswered c connid s i) h
handle-IsTable c (client_ends nc) s t more i h = of_answer (client_end-IsAnswered c nc s i) h
handle-IsTable c child_ready s t more i h =
    of_answer
      (done-IsAnswered c (record s { exit_readys_recvd = s.exit_readys_recvd + 1 })
        (IsTable-same {s = s} (record { table = refl; used = refl; live = refl }) i))
      h
handle-IsTable c child_cancels s t more i h = IsTable-same (cancel-IsTable c s t more i h) i
handle-IsTable c exit_broadcast s t more i h =
    of_answer
      (record {
        state = _;
        sent = _;
        answer = refl;
        kept = IsTable-same {s = s} (record { table = refl; used = refl; live = refl }) i;
      })
      h
handle-IsTable c note s t more i h =
    of_answer
      (done-IsAnswered c (record s { exit_note_done = true })
        (IsTable-same {s = s} (record { table = refl; used = refl; live = refl }) i))
      h
handle-IsTable c close_on_exit s t more i h =
    of_answer
      (done-IsAnswered c (record s { exit_on_client_close = true })
        (IsTable-same {s = s} (record { table = refl; used = refl; live = refl }) i))
      h
handle-IsTable c (peer_exits true) s t more i h =
    of_answer
      (record {
        state = _;
        sent = _;
        answer = refl;
        kept = IsTable-same {s = s} (record { table = refl; used = refl; live = refl }) i;
      })
      h
handle-IsTable c (peer_exits false) s t more i h =
    of_answer
      (record {
        state = _;
        sent = _;
        answer = refl;
        kept = IsTable-same {s = s} (record { table = refl; used = refl; live = refl }) i;
      })
      h

pub Reach-IsTable :
    {Allowed : Event → Server → Type 0} {c : Config} {s : Server} {sent : List Action}
    → Reach Allowed c s sent
    → IsTable s
unfolding in_use
Reach-IsTable here = record { counted = refl; bounded = omega arith; roomy = omega arith }
Reach-IsTable (next r e a h) = handle-IsTable _ e _ _ _ (Reach-IsTable r) h

-- In every state that a server reaches, the live clients are the entries in use, and a new client
-- and the end of any client find the entry and the count that they need.
pub Reach-in_use :
    {c : Config} {s : Server} {sent : List Action}
    → Reach Anytime c s sent
    → (connid : Option ℕ) (nc : ℕ)
    → (s.clients_live ≡ in_use s.client_table)
      × (server_cb c connid s ≢ none)
      × (handle_client_end c nc s ≢ none)
Reach-in_use {c = c} {s = s} r connid nc =
    let i = Reach-IsTable r in
    let a = server_cb-IsAnswered c connid s i in
    let b = client_end-IsAnswered c nc s i in
    (i.counted, λ n. ground (arith, a.answer, n), λ n. ground (arith, b.answer, n))
