-- ===== src/Prog/Replay.antt =====
-- Running a program on given replies, for the examples.
use poollet.Base.{List, [], ◌∷◌}
use poollet.Prog.{Reply, Prog, done, call}
use poollet.Prog.Trace.{Exchange, Runs, stop, step}

module _ {A : Type 0} where
  -- A reply for each call of a run.
  abbrev pub Replies : Prog A → Type 0
  Replies (done a) = Unit
  Replies (call o k) = (r : Reply o) × Replies (k r)

  abbrev pub trace_of : (p : Prog A) → Replies p → List Exchange
  trace_of (done a) replies = []
  trace_of (call o k) replies =
      record { op = o; reply = replies.0 } ∷ trace_of (k replies.0) replies.1

  abbrev pub result_of : (p : Prog A) → Replies p → A
  result_of (done a) replies = a
  result_of (call o k) replies = result_of (k replies.0) replies.1

  pub run_of :
      (p : Prog A) (replies : Replies p) → Runs p (trace_of p replies) (result_of p replies)
  run_of (done a) replies = stop
  run_of (call o k) replies = step replies.0 (run_of (k replies.0) replies.1)
