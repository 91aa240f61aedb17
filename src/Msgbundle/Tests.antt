-- ===== src/Msgbundle/Tests.antt =====
-- Runs of the bundler, and the theorems at concrete inputs.
use spindle.Prelude.{
  ◌*◌, ◌<◌, List, [], ◌∷◌, ◌++◌, some, true, false, ◌≡◌, All, length, replicate, arith,
}
use spindle.Wire.{Message}
use spindle.Msgbundle.{parent, peer, node_eq, joined}
use spindle.Msgbundle.Send.{sent_to}
use spindle.Msgbundle.Receive.{encode, messages_of, messages_of-encode}
use spindle.Msgbundle.Order.{received, pending}
use spindle.Msgbundle.Delivery.{
  Command, send, flush, run, start, sent, AllSendable, received-pending,
}
use spindle.Msgbundle.Buffer.{run_in_bounds}
use spindle.Msgbundle.Timer

abbrev short : Message
short = record { header = record { msg_type = 6; len = 3 }; body = 68 ∷ 47 ∷ 0 ∷ [] }

-- The caller's own part of a message of five bytes.
abbrev split : Message
split = record { header = record { msg_type = 29; len = 5 }; body = 1 ∷ 2 ∷ [] }

abbrev large : Message
large = record { header = record { msg_type = 29; len = 1000 }; body = replicate 1000 7 }

abbrev calls : List Command
calls =
    send short (peer 5) []
    ∷ send short parent []
    ∷ send split (peer 5) (3 ∷ 4 ∷ 5 ∷ [])
    ∷ send large (peer 5) []
    ∷ send short (peer 5) []
    ∷ flush
    ∷ send short (peer 5) []
    ∷ []

calls-AllSendable : AllSendable calls
calls-AllSendable = omega arith

abbrev whole : Message
whole = record split { body = 1 ∷ 2 ∷ 3 ∷ 4 ∷ 5 ∷ [] }

received-pending_example :
    received (peer 5) (run (start true 1 2) calls).log
      ++ pending (peer 5) (run (start true 1 2) calls)
    ≡ short ∷ whole ∷ large ∷ short ∷ short ∷ []
unfolding sent sent_to node_eq joined
received-pending_example = received-pending (peer 5) true 1 2 calls calls-AllSendable

run_in_bounds_example : All (λ mb. length mb.cache < 1 * 1024) (run (start true 1 2) calls).entries
run_in_bounds_example = run_in_bounds true 1 2 calls calls-AllSendable

messages_of-encode_example : messages_of (encode (short ∷ whole ∷ [])) ≡ some (short ∷ whole ∷ [])
messages_of-encode_example = messages_of-encode (short ∷ whole ∷ []) (omega arith)

abbrev racing : Timer.State
racing = record {
  pc = Timer.fired;
  active_timeout = true;
  active_flush = false;
  pipe = 1;
  pending = true;
}

abbrev stopped : Timer.State
stopped = Timer.after_mark (Timer.after_callback racing)

-- A message sent to the stopped timer stays in its buffer.
abbrev unwatched : Timer.State
unwatched = record stopped { pending = true; active_timeout = true }
