-- ===== src/Exit/Cases.antt =====
-- The branches of the handlers that count who is ready, each with its result.
use spindle.Prelude.{
  ℕ, ◌-◌, [], ◌∷◌, true, false, ltb, none, some, get_elem?, ◌≡◌, refl, arith, inl, inr, Bool-cases,
  Option-cases,
}
use spindle.Exit.{
  Client, Config, Server, is_open, handle_send_exit_ready_if_done, not_done, handle_exit_broadcast,
  handle_exit_cancel_msg, handle_send_exit_cancel, reset_ready, end_client, handle_client_end,
  frontend_exit_ready, broadcast_exit, parent_exit_ready, parent_exit_cancel, is_responsible,
}

-- The cases of `handle_send_exit_ready_if_done`.
pub data DoneCase (c : Config) (s : Server) : Type 0 where
  waits : not_done c s ≡ true → handle_send_exit_ready_if_done c s ≡ some (s, []) → DoneCase c s
  exits :
      not_done c s ≡ false
      → is_responsible c ≡ true
      → handle_send_exit_ready_if_done c s
        ≡ some (
          record s { sent_exit_ready = true; exiting = true },
          frontend_exit_ready ∷ broadcast_exit ∷ [],
        )
      → DoneCase c s
  tells :
      not_done c s ≡ false
      → is_responsible c ≡ false
      → handle_send_exit_ready_if_done c s
        ≡ some (record s { sent_exit_ready = true }, parent_exit_ready ∷ [])
      → DoneCase c s

pub done-cases : (c : Config) (s : Server) → DoneCase c s
unfolding handle_send_exit_ready_if_done handle_exit_broadcast
done-cases c s = elim (Bool-cases (not_done c s)) [
  | inl n ↦ waits n (rw n refl)
  | inr n ↦ elim (Bool-cases (is_responsible c)) [
    | inl r ↦ exits n r (rw (n, r) refl)
    | inr r ↦ tells n r (rw (n, r) refl)
  ]
]

-- The cases of `handle_client_end`.
pub data EndCase (c : Config) (nc : ℕ) (s : Server) : Type 0 where
  unheard : handle_client_end c nc s ≡ some (s, []) → EndCase c nc s
  uncounted : handle_client_end c nc s ≡ none → EndCase c nc s
  closes :
      (cl : Client)
      → handle_client_end c nc s ≡ handle_send_exit_ready_if_done c (end_client nc cl s)
      → EndCase c nc s

pub end-cases : (c : Config) (nc : ℕ) (s : Server) → EndCase c nc s
unfolding handle_client_end
end-cases c nc s = elim (Option-cases (get_elem? s.client_table nc)) [
  | inl e ↦ unheard (rw (handle_client_end, e) refl)
  | inr (cl, e) ↦ elim (Bool-cases (is_open cl)) [
    | inr n ↦ unheard (rw (handle_client_end, e, n) refl)
    | inl y ↦ elim (Bool-cases (ltb 0 s.clients_live)) [
      | inl live ↦ closes cl (rw (handle_client_end, e, y, live) refl)
      | inr none_live ↦ uncounted (rw (handle_client_end, e, y, none_live) refl)
    ]
  ]
]

-- The cases of `handle_exit_cancel_msg`.
pub data CancelCase (c : Config) (s : Server) : Type 0 where
  late : ltb 0 s.exit_readys_recvd ≡ false → handle_exit_cancel_msg c s ≡ none → CancelCase c s
  counts :
      ltb 0 s.exit_readys_recvd ≡ true
      → s.sent_exit_ready ≡ false
      → handle_exit_cancel_msg c s
        ≡ some (record s { exit_readys_recvd = s.exit_readys_recvd - 1 }, [])
      → CancelCase c s
  tops :
      ltb 0 s.exit_readys_recvd ≡ true
      → s.sent_exit_ready ≡ true
      → is_responsible c ≡ true
      → handle_exit_cancel_msg c s
        ≡ some
            (record s { exit_readys_recvd = s.exit_readys_recvd - 1; sent_exit_ready = false }, [])
      → CancelCase c s
  passes :
      ltb 0 s.exit_readys_recvd ≡ true
      → s.sent_exit_ready ≡ true
      → is_responsible c ≡ false
      → handle_exit_cancel_msg c s
        ≡ some (
          record s { exit_readys_recvd = s.exit_readys_recvd - 1; sent_exit_ready = false },
          parent_exit_cancel ∷ [],
        )
      → CancelCase c s

pub cancel-cases : (c : Config) (s : Server) → CancelCase c s
unfolding handle_exit_cancel_msg handle_send_exit_cancel reset_ready
cancel-cases c s = elim (Bool-cases (ltb 0 s.exit_readys_recvd)) [
  | inr l ↦ late l (ground arith)
  | inl l ↦ elim (Bool-cases s.sent_exit_ready) [
    | inr n ↦ counts l n (ground arith)
    | inl n ↦ elim (Bool-cases (is_responsible c)) [
      | inl r ↦ tops l n r (ground arith)
      | inr r ↦ passes l n r (ground arith)
    ]
  ]
]
