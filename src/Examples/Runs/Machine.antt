-- ===== src/Examples/Runs/Machine.antt =====
-- A run of the reconciler of Machine: its volume is missing, and its target is applied in part.
use poollet.BrokerClient.{broker_controlled_create_or_patch}
use poollet.Base.{false}
use poollet.Errors.{is_not_synced_or_not_found, ok, err, not_found}
use poollet.Prog.Trace.{Accepts}
use poollet.Prog.Replay.{Replies, trace_of, run_of}
use poollet.Protocol.{Allowed, advance, start}
use poollet.Controllers.Machine.{reconcile_exists}
use poollet.Controllers.Machine.Order.{machine_run-Accepts, subject}
use poollet.Examples.Codec.{machinery}
use poollet.Examples.Objects.{config, shared, target_namespace, source_secret, source_machine}

abbrev replies : Replies (reconcile_exists machinery shared config source_machine)
unfolding reconcile_exists is_not_synced_or_not_found broker_controlled_create_or_patch
replies = (
  ok target_namespace,
  (
    ok false,
    (ok source_secret, (err not_found, (tt, (ok source_machine, (ok source_machine, tt))))),
  ),
)

machine_run-Accepts_example :
    Accepts advance
      (Allowed (subject machinery shared config source_machine))
      start
      (trace_of (reconcile_exists machinery shared config source_machine) replies)
machine_run-Accepts_example =
    machine_run-Accepts machinery shared config source_machine
      (run_of (reconcile_exists machinery shared config source_machine) replies)
