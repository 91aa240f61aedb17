-- ===== src/Msgbundle/Timer.antt =====
-- The timer thread of src/server/auditserver/msgbundle.c, `thrd_main`, against the main thread:
-- every order of their steps between two operations on the mutex or the pipe. A forced flush
-- (`msgbundle_force_flush`, for an alive message and before the server says that it is ready to
-- exit) is a step too; `msgbundle_done`, which ends the session, is not.
use spindle.Prelude.{ℕ, ◌+◌, ◌-◌, ◌<◌, Bool, true, false, ◌≡◌}

-- Where the timer thread is: waiting for `active_timeout`; in `usleep`; between `write` and the
-- lock that follows it; waiting for `active_flush` to fall.
pub data Pc : Type 0 where
  idle asleep fired awaiting : Pc

pub record State : Type 0 where
  pub pc : Pc
  pub active_timeout : Bool
  pub active_flush : Bool
  -- bytes in the pipe
  pub pipe : ℕ
  -- some buffer is not empty
  pub pending : Bool

-- The steps, with or without forced flushes.
pub data Step (forces : Bool) (s t : State) : Type 0 where
  wake : s.pc ≡ idle → s.active_timeout ≡ true → t ≡ record s { pc = asleep } → Step forces s t
  fire : s.pc ≡ asleep → t ≡ record s { pc = fired; pipe = s.pipe + 1 } → Step forces s t
  mark :
      s.pc ≡ fired
      → t ≡ record s { pc = awaiting; active_timeout = false; active_flush = true }
      → Step forces s t
  release : s.pc ≡ awaiting → s.active_flush ≡ false → t ≡ record s { pc = idle } → Step forces s t
  -- a send that leaves a message in a buffer, with `start_cache_timeout`
  buffer : t ≡ record s { pending = true; active_timeout = true } → Step forces s t
  -- `flush_msgbuffer_cb` on a readable pipe
  callback :
      0 < s.pipe
      → t ≡ record s { pipe = s.pipe - 1; pending = false; active_flush = false }
      → Step forces s t
  -- `msgbundle_force_flush`, which reads nothing from the pipe
  force : forces ≡ true → t ≡ record s { pending = false; active_flush = false } → Step forces s t

pub data Reach (forces : Bool) (s : State) : State → Type 0 where
  here : Reach forces s s
  next : {t u : State} → Reach forces s t → Step forces t u → Reach forces s u

abbrev pub start : State
start = record {
  pc = idle;
  active_timeout = false;
  active_flush = false;
  pipe = 0;
  pending = false;
}

-- The timer thread waits for a callback that nothing will start.
pub record IsStuck (s : State) : Type 0 where
  pub place : s.pc ≡ awaiting
  pub flag : s.active_flush ≡ true
  pub drained : s.pipe ≡ 0

abbrev pub after_callback : State → State
after_callback s = record s { pipe = s.pipe - 1; pending = false; active_flush = false }

abbrev pub after_mark : State → State
after_mark s = record s { pc = awaiting; active_timeout = false; active_flush = true }

abbrev pub after_force : State → State
after_force s = record s { pending = false; active_flush = false }
