-- ===== src/Examples/Runs/Secret.antt =====
-- A run of the reconciler of Secret: its deletion, after the target is gone.
use poollet.Dependents.{is_referenced}
use poollet.Base.{false, []}
use poollet.Errors.{ok}
use poollet.Prog.Trace.{Accepts}
use poollet.Prog.Replay.{Replies, trace_of, run_of}
use poollet.Protocol.{Allowed, advance, start}
use poollet.Controllers.Secret.{reconcile_exists}
use poollet.Controllers.Secret.Order.{secret_run-Accepts, subject}
use poollet.Examples.Codec.{machinery}
use poollet.Examples.Objects.{config, target_namespace, source_secret}

abbrev replies : Replies (reconcile_exists machinery config [] source_secret)
unfolding reconcile_exists is_referenced
replies = (ok target_namespace, (ok false, (ok tt, tt)))

secret_run-Accepts_example :
    Accepts advance
      (Allowed (subject machinery config source_secret))
      start
      (trace_of (reconcile_exists machinery config [] source_secret) replies)
secret_run-Accepts_example =
    secret_run-Accepts machinery config [] source_secret tt
      (run_of (reconcile_exists machinery config [] source_secret) replies)
