-- ===== src/Examples/Runs/NetworkInterface.antt =====
-- A run of the reconciler of NetworkInterface: it is used by a machine whose target does not exist, and applied.
use poollet.BrokerClient.{broker_controlled_create_or_patch}
use poollet.Helpers.{machine_runs_in_machine_pool}
use poollet.Usage.{is_network_interface_used_cached}
use poollet.Base.{false}
use poollet.Errors.{is_not_synced_or_not_found, ok, err, not_found}
use poollet.Prog.Trace.{Accepts}
use poollet.Prog.Replay.{Replies, trace_of, run_of}
use poollet.Protocol.{Allowed, advance, start}
use poollet.Controllers.NetworkInterface.{reconcile_exists}
use poollet.Controllers.NetworkInterface.Order.{network_interface_run-Accepts, subject}
use poollet.Examples.Codec.{machinery}
use poollet.Examples.Objects.{
  config, shared, target_namespace, source_machine, source_nic, source_network,
}

abbrev replies : Replies (reconcile_exists machinery shared config source_nic)
unfolding reconcile_exists is_network_interface_used_cached machine_runs_in_machine_pool
    is_not_synced_or_not_found broker_controlled_create_or_patch
replies = (
  ok source_machine,
  (
    ok target_namespace,
    (ok false, (ok source_network, (err not_found, (tt, (ok source_nic, tt))))),
  ),
)

network_interface_run-Accepts_example :
    Accepts advance
      (Allowed (subject machinery shared config source_nic))
      start
      (trace_of (reconcile_exists machinery shared config source_nic) replies)
network_interface_run-Accepts_example =
    network_interface_run-Accepts machinery shared config source_nic
      (run_of (reconcile_exists machinery shared config source_nic) replies)
