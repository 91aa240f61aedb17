-- ===== src/Msgbundle/Delivery.antt =====
-- Sequences of sends and flushes: no message is lost, repeated or moved past another on the way to
-- its destination, whatever mix of buffers, flushes and messages that pass through.
use spindle.Prelude.{
  ℕ, List, [], ◌∷◌, ◌++◌, Bool, true, false, ◌≡◌, refl, ◌∙◌, append_assoc, append-nil, arith,
  Bool-cases, inl, inr,
}
use mathlib.Core.Path.{subst, ap₂}
use spindle.Wire.{Message}
use spindle.Msgbundle.{Node, Bundler, flush_each, flush_all, msgbundle_force_flush, spindle_send}
use spindle.Msgbundle.Receive.{encode, messages_of-encode}
use spindle.Msgbundle.Order.{
  received, received-nil, pending, received-append, received-flush_each, cache_of-empty_each,
  empty_each-IsDistinct,
}
use spindle.Msgbundle.Tracks.{Tracks, IsSendable}
use spindle.Msgbundle.Send.{IsWell, sent_to, send-Tracks, send-config, send-IsWell, cache_of-nil}

-- `flush` is the timer's `flush_msgbuffer_cb` or `msgbundle_force_flush`.
pub data Command : Type 0 where
  send : Message → Node → List ℕ → Command
  flush : Command

unfoldable pub run : Bundler → List Command → Bundler
run b [] = b
run b (send msg node secondary ∷ cs) = run (spindle_send b msg node secondary) cs
run b (flush ∷ cs) = run (msgbundle_force_flush b) cs

-- What `msgbundle_init` leaves: no buffer, and nothing sent.
unfoldable pub start : Bool → ℕ → ℕ → Bundler
start enabled cache_size_kb num_children = record {
  enabled = enabled;
  cache_size_kb = cache_size_kb;
  num_children = num_children;
  entries = [];
  active_timeout = false;
  log = [];
}

-- The messages that the calls send to a destination, in order.
unfoldable pub sent : Node → Bool → ℕ → List Command → List Message
sent n enabled num_children [] = []
sent n enabled num_children (send msg node secondary ∷ cs) =
    sent_to n enabled num_children msg node secondary ++ sent n enabled num_children cs
sent n enabled num_children (flush ∷ cs) = sent n enabled num_children cs

abbrev pub AllSendable : List Command → Type 0
AllSendable [] = Unit
AllSendable (send msg node secondary ∷ cs) = IsSendable msg secondary × AllSendable cs
AllSendable (flush ∷ cs) = AllSendable cs

pub flush_off : (b : Bundler) → b.enabled ≡ false → msgbundle_force_flush b ≡ b
unfolding msgbundle_force_flush
flush_off b e = ground arith

pub flush_on : (b : Bundler) → b.enabled ≡ true → msgbundle_force_flush b ≡ flush_all b
unfolding msgbundle_force_flush
flush_on b e = ground arith

flush-Tracks :
    (b : Bundler) (n : Node) (acc : List Message)
    → IsWell b
    → Tracks b n acc
    → Tracks (msgbundle_force_flush b) n acc
unfolding flush_all encode
flush-Tracks b n acc w t = elim (Bool-cases b.enabled) [
  | inr e ↦ rw (flush_off b e) t
  | inl e ↦ rw (flush_on b e) (record {
    waiting = [];
    held = cache_of-empty_each n b.entries;
    whole = tt;
    total =
        append-nil _
        ∙ received-append n b.log (flush_each b.entries)
        ∙ rw (received-flush_each n b.entries t.waiting w.distinct t.held t.whole) t.total;
  })
]

flush-IsWell : (b : Bundler) → IsWell b → IsWell (msgbundle_force_flush b)
unfolding flush_all
flush-IsWell b w = elim (Bool-cases b.enabled) [
  | inr e ↦ rw (flush_off b e) w
  | inl e ↦
      rw (flush_on b e)
        (record { distinct = empty_each-IsDistinct b.entries w.distinct; unused = λ h. cc })
]

pub flush-config :
    (b : Bundler)
    → ((msgbundle_force_flush b).enabled ≡ b.enabled)
      × ((msgbundle_force_flush b).num_children ≡ b.num_children)
unfolding msgbundle_force_flush flush_all
flush-config b = ground arith

run-Tracks :
    (b : Bundler) (n : Node) (acc : List Message) (cs : List Command)
    → IsWell b
    → AllSendable cs
    → Tracks b n acc
    → Tracks (run b cs) n (acc ++ sent n b.enabled b.num_children cs)
unfolding run sent
run-Tracks b n acc [] w s t = rw (append-nil acc) t
run-Tracks b n acc (send msg node sec ∷ cs) w s t =
    let same = send-config b msg node sec in
    subst (Tracks (run (spindle_send b msg node sec) cs) n)
      (ap₂ (λ e k. (acc ++ sent_to n b.enabled b.num_children msg node sec) ++ sent n e k cs) same.0
          same.1
        ∙ append_assoc acc (sent_to n b.enabled b.num_children msg node sec) _)
      (run-Tracks (spindle_send b msg node sec) n _ cs (send-IsWell b msg node sec w) s.1
        (send-Tracks b msg node sec n acc w s.0 t))
run-Tracks b n acc (flush ∷ cs) w s t =
    let same = flush-config b in
    subst (Tracks (run (msgbundle_force_flush b) cs) n)
      (ap₂ (λ e k. acc ++ sent n e k cs) same.0 same.1)
      (run-Tracks (msgbundle_force_flush b) n acc cs (flush-IsWell b w) s
        (flush-Tracks b n acc w t))

start-Tracks : (n : Node) (on : Bool) (kb k : ℕ) → Tracks (start on kb k) n []
unfolding start encode
start-Tracks n on kb k = record {
  waiting = [];
  held = cache_of-nil n;
  whole = tt;
  total = append-nil _ ∙ received-nil n;
}

start-run :
    (n : Node) (on : Bool) (kb k : ℕ) (cs : List Command)
    → AllSendable cs
    → Tracks (run (start on kb k) cs) n (sent n on k cs)
unfolding start
start-run n on kb k cs s =
    run-Tracks (start on kb k) n [] cs (record { distinct = tt; unused = λ e. refl }) s
      (start-Tracks n on kb k)

pending-waiting :
    (b : Bundler) (n : Node) (acc : List Message) (t : Tracks b n acc) → pending n b ≡ t.waiting
unfolding pending
pending-waiting b n acc t =
    rw (t.held, pending) (rw (messages_of-encode t.waiting t.whole, pending))

-- For every destination, the messages that it receives, with each bundle cut up again, followed by
-- those that its buffer holds, are the messages sent to it, in the order of the calls. The messages
-- are whole and not themselves bundles; bundling may be off, and any flushes may come between.
pub received-pending :
    (n : Node) (on : Bool) (kb children : ℕ) (cs : List Command)
    → AllSendable cs
    → received n (run (start on kb children) cs).log ++ pending n (run (start on kb children) cs)
      ≡ sent n on children cs
received-pending n on kb children cs s =
    let t = start-run n on kb children cs s in rw (pending-waiting _ n _ t) t.total
