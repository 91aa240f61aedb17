-- ===== src/Exit/Tally.antt =====
-- What a server has told its parent in all: each cancel takes back one announcement, as long as no
-- client starts while an announcement stands.
use spindle.Prelude.{
  ℕ, suc, ◌+◌, List, [], ◌∷◌, ◌++◌, Bool, true, false, Option, some, ◌≡◌, refl, ap, sym, ◌∙◌, arith,
}
use mathlib.Core.Path.{subst}
use spindle.Exit.{
  Config, Server, Action, Result, frontend_exit_ready, broadcast_exit, parent_exit_ready,
  parent_exit_cancel, is_responsible, handle_send_exit_ready_if_done, not_done,
  handle_exit_broadcast, handle_exit_ready_msg, handle_exit_cancel_msg, server_cb, end_client,
  handle_client_end, handle_server_error, exit_note_cb, set_exit_on_client_close, Event,
  client_starts, client_ends, child_ready, child_cancels, exit_broadcast, note, close_on_exit,
  peer_exits, handle, Reach, here, next,
}
use spindle.Exit.Cases.{
  waits, exits, tells, done-cases, late, counts, tops, passes, cancel-cases, unheard, uncounted,
  closes, end-cases,
}
use spindle.Exit.Quiet.{server_cb-sends}

-- How often the parent was told.
unfoldable pub readys : List Action → ℕ
readys [] = 0
readys (parent_exit_ready ∷ more) = suc (readys more)
readys (frontend_exit_ready ∷ more) = readys more
readys (broadcast_exit ∷ more) = readys more
readys (parent_exit_cancel ∷ more) = readys more

unfoldable pub cancels : List Action → ℕ
cancels [] = 0
cancels (parent_exit_cancel ∷ more) = suc (cancels more)
cancels (parent_exit_ready ∷ more) = cancels more
cancels (frontend_exit_ready ∷ more) = cancels more
cancels (broadcast_exit ∷ more) = cancels more

readys-append : (a b : List Action) → readys (a ++ b) ≡ readys a + readys b
unfolding readys
readys-append [] b = omega arith
readys-append (parent_exit_ready ∷ a) b = omega (arith, readys-append a b)
readys-append (frontend_exit_ready ∷ a) b = readys-append a b
readys-append (broadcast_exit ∷ a) b = readys-append a b
readys-append (parent_exit_cancel ∷ a) b = readys-append a b

cancels-append : (a b : List Action) → cancels (a ++ b) ≡ cancels a + cancels b
unfolding cancels
cancels-append [] b = omega arith
cancels-append (parent_exit_cancel ∷ a) b = omega (arith, cancels-append a b)
cancels-append (frontend_exit_ready ∷ a) b = cancels-append a b
cancels-append (broadcast_exit ∷ a) b = cancels-append a b
cancels-append (parent_exit_ready ∷ a) b = cancels-append a b

-- No client starts while an announcement stands, and the parent does not exit.
abbrev pub Calm : Event → Server → Type 0
Calm (client_starts connid) s = s.sent_exit_ready ≡ false
Calm (peer_exits is_parent) s = is_parent ≡ false
Calm _ s = Unit {0}

abbrev pub standing : Bool → ℕ
standing true = 1
standing false = 0

-- What a step adds to the account.
record IsBalanced (s t : Server) (more : List Action) : Type 0 where
  parents : t.num_exited_parents ≡ s.num_exited_parents
  account : readys more + standing s.sent_exit_ready ≡ cancels more + standing t.sent_exit_ready

IsBalanced-result :
    {s a t : Server} {sent more : List Action}
    → IsBalanced s a sent
    → Path Result (some (a, sent)) (some (t, more))
    → IsBalanced s t more
IsBalanced-result {s = s} {a = a} {t = t} {sent = sent} {more = more} k h =
    let same : a ≡ t = ground arith in
    let same_sent : sent ≡ more = ground arith in
    subst (λ l. IsBalanced s t l) same_sent (subst (λ u. IsBalanced s u sent) same k)

pub not_done-fresh :
    (c : Config) (s : Server)
    → not_done c s ≡ false
    → s.num_exited_parents ≡ 0
    → s.sent_exit_ready ≡ false
unfolding not_done
not_done-fresh c s n p = ground arith

module _ (c : Config) (below : is_responsible c ≡ false) where
  done-IsBalanced :
      (s t : Server) (more : List Action)
      → s.num_exited_parents ≡ 0
      → handle_send_exit_ready_if_done c s ≡ some (t, more)
      → IsBalanced s t more
  unfolding readys cancels
  done-IsBalanced s t more p h = elim (done-cases c s) [
    | waits n e ↦ IsBalanced-result (record { parents = refl; account = omega arith }) (sym e ∙ h)
    | exits n r e ↦ ground arith
    | tells n r e ↦
        IsBalanced-result
          (record { parents = refl; account = omega (arith, ap standing (not_done-fresh c s n p)) })
          (sym e ∙ h)
  ]

  cancel-IsBalanced :
      (s t : Server) (more : List Action)
      → handle_exit_cancel_msg c s ≡ some (t, more)
      → IsBalanced s t more
  unfolding readys cancels
  cancel-IsBalanced s t more h = elim (cancel-cases c s) [
    | late l e ↦ ground arith
    | counts l n e ↦
        IsBalanced-result (record { parents = refl; account = omega arith }) (sym e ∙ h)
    | tops l n r e ↦ ground arith
    | passes l n r e ↦
        IsBalanced-result (record { parents = refl; account = omega (arith, ap standing n) })
          (sym e ∙ h)
  ]

  end-IsBalanced :
      (nc : ℕ) (s t : Server) (more : List Action)
      → s.num_exited_parents ≡ 0
      → handle_client_end c nc s ≡ some (t, more)
      → IsBalanced s t more
  unfolding readys cancels end_client
  end-IsBalanced nc s t more p h = elim (end-cases c nc s) [
    | unheard e ↦ IsBalanced-result (record { parents = refl; account = omega arith }) (sym e ∙ h)
    | uncounted e ↦ ground arith
    | closes cl e ↦
        let k = done-IsBalanced (end_client nc cl s) t more p (sym e ∙ h) in
        record { parents = k.parents; account = k.account }
  ]

  start-IsBalanced :
      (connid : Option ℕ) (s t : Server) (more : List Action)
      → s.sent_exit_ready ≡ false
      → server_cb c connid s ≡ some (t, more)
      → IsBalanced s t more
  unfolding readys cancels
  start-IsBalanced connid s t more n h =
      let (ready, parents, sends) = server_cb-sends c connid s t more h in
      let nothing : more ≡ [] = ground arith in
      record { parents = parents; account = rw nothing (omega (arith, ap standing ready)) }

  handle-IsBalanced :
      (e : Event) (s t : Server) (more : List Action)
      → Calm e s
      → s.num_exited_parents ≡ 0
      → handle c e s ≡ some (t, more)
      → IsBalanced s t more
  unfolding handle handle_exit_ready_msg exit_note_cb set_exit_on_client_close handle_exit_broadcast
      handle_server_error readys cancels
  handle-IsBalanced (client_starts connid) s t more a p h = start-IsBalanced connid s t more a h
  handle-IsBalanced (client_ends nc) s t more a p h = end-IsBalanced nc s t more p h
  handle-IsBalanced child_ready s t more a p h =
      let k =
        done-IsBalanced (record s { exit_readys_recvd = s.exit_readys_recvd + 1 }) t more p h in
      record { parents = k.parents; account = k.account }
  handle-IsBalanced child_cancels s t more a p h = cancel-IsBalanced s t more h
  handle-IsBalanced exit_broadcast s t more a p h =
      IsBalanced-result {s = s} {a = record s { exiting = true }}
        (record { parents = refl; account = omega arith }) h
  handle-IsBalanced note s t more a p h =
      let k = done-IsBalanced (record s { exit_note_done = true }) t more p h in
      record { parents = k.parents; account = k.account }
  handle-IsBalanced close_on_exit s t more a p h =
      let k = done-IsBalanced (record s { exit_on_client_close = true }) t more p h in
      record { parents = k.parents; account = k.account }
  handle-IsBalanced (peer_exits true) s t more a p h = cc
  handle-IsBalanced (peer_exits false) s t more a p h =
      IsBalanced-result {s = s}
        {a = record s { num_exited_children_peers = s.num_exited_children_peers + 1 }}
        (record { parents = refl; account = omega arith }) h

  Reach-account :
      {s : Server} {sent : List Action}
      → Reach Calm c s sent
      → (s.num_exited_parents ≡ 0) × (readys sent ≡ cancels sent + standing s.sent_exit_ready)
  unfolding readys cancels
  Reach-account here = (refl, refl)
  Reach-account (next {s = s} {t = t} {sent = sent} {more = more} r e a h) =
      let (p, account) = Reach-account r in
      let k = handle-IsBalanced e s t more a p h in
      (
        k.parents ∙ p,
        omega (arith, account, k.account, readys-append sent more, cancels-append sent more),
      )

-- Where no client starts while an announcement stands and the parent does not exit, a server other
-- than rank 0 has announced itself as often as it has cancelled, and once more exactly while it
-- notes that an announcement stands.
pub readys-cancels :
    {c : Config} {s : Server} {sent : List Action}
    → is_responsible c ≡ false
    → Reach Calm c s sent
    → readys sent ≡ cancels sent + standing s.sent_exit_ready
readys-cancels {c = c} below r = let (p, account) = Reach-account c below r in account
