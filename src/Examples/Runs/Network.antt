-- ===== src/Examples/Runs/Network.antt =====
-- A run of the reconciler of Network: it is used by an interface and applied.
use poollet.Helpers.{machine_runs_in_machine_pool}
use poollet.Usage.{is_network_interface_used_cached, is_network_used_cached}
use poollet.Base.{false, [], ◌∷◌}
use poollet.Errors.{ok}
use poollet.Prog.Trace.{Accepts}
use poollet.Prog.Replay.{Replies, trace_of, run_of}
use poollet.Protocol.{Allowed, advance, start}
use poollet.Controllers.Network.{reconcile_exists}
use poollet.Controllers.Network.Order.{network_run-Accepts, subject}
use poollet.Examples.Codec.{machinery}
use poollet.Examples.Objects.{
  config, shared, target_namespace, source_machine, source_nic, source_network,
}

abbrev replies : Replies (reconcile_exists machinery shared config source_network)
unfolding reconcile_exists is_network_used_cached is_network_interface_used_cached
    machine_runs_in_machine_pool
replies = (
  ok (source_nic ∷ []),
  (ok source_machine, (ok target_namespace, (ok false, (ok source_network, tt)))),
)

network_run-Accepts_example :
    Accepts advance
      (Allowed (subject machinery shared config source_network))
      start
      (trace_of (reconcile_exists machinery shared config source_network) replies)
network_run-Accepts_example =
    network_run-Accepts machinery shared config source_network
      (run_of (reconcile_exists machinery shared config source_network) replies)
