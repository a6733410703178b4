-- ===== src/Examples/Runs/AliasPrefix.antt =====
-- A run of the reconciler of AliasPrefix: it is used by an interface, and applied with its routing.
use poollet.BrokerClient.{broker_controlled_create_or_patch}
use poollet.Usage.{is_network_interface_used_cached, is_alias_prefix_used_cached}
use poollet.Base.{false}
use poollet.Errors.{ok}
use poollet.Prog.Trace.{Accepts}
use poollet.Prog.Replay.{Replies, trace_of, run_of}
use poollet.Protocol.{advance, start}
use poollet.Controllers.AliasPrefix.{reconcile_exists}
use poollet.Controllers.AliasPrefix.Order.{alias_prefix_run-Accepts, AllowedRouting}
use poollet.Examples.Codec.{machinery}
use poollet.Examples.Objects.{
  config, shared, target_namespace, source_machine, source_nic, source_network, source_alias_prefix,
  routing,
}

abbrev replies : Replies (reconcile_exists machinery shared config source_alias_prefix)
unfolding reconcile_exists is_alias_prefix_used_cached is_network_interface_used_cached
    broker_controlled_create_or_patch
replies = (
  ok routing,
  (
    ok source_nic,
    (
      ok source_machine,
      (
        ok target_namespace,
        (
          ok false,
          (
            ok source_network,
            (
              ok source_alias_prefix,
              (ok routing, (ok source_nic, (ok source_machine, (ok routing, tt)))),
            ),
          ),
        ),
      ),
    ),
  ),
)

alias_prefix_run-Accepts_example :
    Accepts advance
      (AllowedRouting machinery shared config source_alias_prefix)
      start
      (trace_of (reconcile_exists machinery shared config source_alias_prefix) replies)
alias_prefix_run-Accepts_example =
    alias_prefix_run-Accepts machinery shared config source_alias_prefix
      (run_of (reconcile_exists machinery shared config source_alias_prefix) replies)
