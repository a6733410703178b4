-- ===== src/Examples/Runs/ConfigMap.antt =====
-- A run of the reconciler of ConfigMap: its deletion, after the target is gone.
use poollet.Dependents.{is_referenced}
use poollet.Base.{false, []}
use poollet.Errors.{ok}
use poollet.Prog.Trace.{Accepts}
use poollet.Prog.Replay.{Replies, trace_of, run_of}
use poollet.Protocol.{Allowed, advance, start}
use poollet.Controllers.ConfigMap.{reconcile_exists}
use poollet.Controllers.ConfigMap.Order.{config_map_run-Accepts, subject}
use poollet.Examples.Codec.{machinery}
use poollet.Examples.Objects.{config, target_namespace, source_config_map}

abbrev replies : Replies (reconcile_exists machinery config [] source_config_map)
unfolding reconcile_exists is_referenced
replies = (ok target_namespace, (ok false, (ok tt, tt)))

config_map_run-Accepts_example :
    Accepts advance
      (Allowed (subject machinery config source_config_map))
      start
      (trace_of (reconcile_exists machinery config [] source_config_map) replies)
config_map_run-Accepts_example =
    config_map_run-Accepts machinery config [] source_config_map tt
      (run_of (reconcile_exists machinery config [] source_config_map) replies)
