-- ===== src/Exit/Late.antt =====
-- A client that starts after its server has announced that it is ready to exit.
use spindle.Prelude.{ℕ, List, [], ◌∷◌, true, false, Option, some, ◌≡◌, ap, sym, ◌∙◌, arith}
use spindle.Exit.{
  Config, Server, Action, parent_exit_cancel, is_responsible, handle_send_exit_ready_if_done,
  end_client, handle_client_end, client_starts, client_ends, handle,
}
use spindle.Exit.Cases.{waits, exits, tells, done-cases, unheard, uncounted, closes, end-cases}
use spindle.Exit.Quiet.{server_cb-sends}
use spindle.Exit.Tally.{not_done-fresh}

-- While an announcement stands and the parent lives, a server does not announce itself.
silent :
    (c : Config) (t u : Server) (more : List Action)
    → t.sent_exit_ready ≡ true
    → t.num_exited_parents ≡ 0
    → handle_send_exit_ready_if_done c t ≡ some (u, more)
    → (more ≡ []) × (u.sent_exit_ready ≡ true)
silent c t u more y p h = elim (done-cases c t) [
  | waits n e ↦
      let same : t ≡ u = ground (arith, e, h) in
      (ground (arith, e, h), ap (λ v. v.sent_exit_ready) (sym same) ∙ y)
  | exits n r e ↦ let fresh = not_done-fresh c t n p in ground arith
  | tells n r e ↦ let fresh = not_done-fresh c t n p in ground arith
]

ends_silent :
    (c : Config) (nc : ℕ) (t u : Server) (more : List Action)
    → t.sent_exit_ready ≡ true
    → t.num_exited_parents ≡ 0
    → handle_client_end c nc t ≡ some (u, more)
    → (more ≡ []) × (u.sent_exit_ready ≡ true)
unfolding end_client
ends_silent c nc t u more y p h = elim (end-cases c nc t) [
  | unheard e ↦
      let same : t ≡ u = ground (arith, e, h) in
      (ground (arith, e, h), ap (λ v. v.sent_exit_ready) (sym same) ∙ y)
  | uncounted e ↦ ground arith
  | closes cl e ↦ silent c (end_client nc cl t) u more y p (sym e ∙ h)
]

-- If none of its parents has exited, a client that starts where an announcement stands makes the
-- server, if it is not rank 0, cancel it; but when a client then ends, the server sends nothing,
-- and it still notes that its announcement stands.
pub late_client :
    (c : Config) (s t u : Server) (first second : List Action)
    → (connid : Option ℕ) (nc : ℕ) → is_responsible c ≡ false
    → s.sent_exit_ready ≡ true
    → s.num_exited_parents ≡ 0
    → handle c (client_starts connid) s ≡ some (t, first)
    → handle c (client_ends nc) t ≡ some (u, second)
    → (first ≡ (parent_exit_cancel ∷ [])) × (second ≡ []) × (u.sent_exit_ready ≡ true)
unfolding handle
late_client c s t u first second connid nc below y p h k =
    let (ready, parents, sends) = server_cb-sends c connid s t first h in
    let (none_sent, still) = ends_silent c nc t u second (ready ∙ y) (parents ∙ p) k in
    (ground arith, none_sent, still)
