-- ===== src/Examples/Runs/VirtualIp.antt =====
-- A run of the reconciler of VirtualIp: it is used by an interface and applied.
use poollet.BrokerClient.{broker_controlled_create_or_patch}
use poollet.Helpers.{machine_runs_in_machine_pool}
use poollet.Usage.{is_network_interface_used_cached, is_virtual_ip_used_cached}
use poollet.Base.{false}
use poollet.Errors.{ok}
use poollet.Prog.Trace.{Accepts}
use poollet.Prog.Replay.{Replies, trace_of, run_of}
use poollet.Protocol.{Allowed, advance, start}
use poollet.Controllers.VirtualIp.{reconcile_exists}
use poollet.Controllers.VirtualIp.Order.{virtual_ip_run-Accepts, subject}
use poollet.Examples.Codec.{machinery}
use poollet.Examples.Objects.{
  config, shared, target_namespace, source_machine, source_nic, source_virtual_ip,
}

abbrev replies : Replies (reconcile_exists machinery shared config source_virtual_ip)
unfolding reconcile_exists is_virtual_ip_used_cached is_network_interface_used_cached
    machine_runs_in_machine_pool broker_controlled_create_or_patch
replies = (
  ok source_nic,
  (
    ok source_machine,
    (ok target_namespace, (ok false, (ok source_nic, (ok source_virtual_ip, tt)))),
  ),
)

virtual_ip_run-Accepts_example :
    Accepts advance
      (Allowed (subject machinery shared config source_virtual_ip))
      start
      (trace_of (reconcile_exists machinery shared config source_virtual_ip) replies)
virtual_ip_run-Accepts_example =
    virtual_ip_run-Accepts machinery shared config source_virtual_ip
      (run_of (reconcile_exists machinery shared config source_virtual_ip) replies)
