-- ===== src/Examples/Runs/Volume.antt =====
-- A run of the reconciler of Volume: the target has an access secret, and none was made yet in the source cluster.
use poollet.BrokerClient.{broker_controlled_create_or_patch}
use poollet.Controllers.VolumeAppliers.{sync_volume_applier}
use poollet.Base.{false, []}
use poollet.Errors.{is_not_found, ok}
use poollet.Prog.Trace.{Accepts}
use poollet.Prog.Replay.{Replies, trace_of, run_of}
use poollet.Controllers.Volumes.Protocol.{see, AllowedVolume, begin}
use poollet.Controllers.Volumes.Volume.{reconcile_exists}
use poollet.Controllers.Volumes.Volume.Order.{volume_run-Accepts, policy}
use poollet.Examples.Codec.{machinery}
use poollet.Examples.Objects.{config, target_namespace, source_secret}
use poollet.Examples.Local.{local, local-MakesOwned, pool_volume, accessible, target_secret}

abbrev replies : Replies (reconcile_exists machinery local config 7 pool_volume)
unfolding reconcile_exists sync_volume_applier broker_controlled_create_or_patch is_not_found
replies = (
  ok false,
  (
    ok target_namespace,
    (ok accessible, (ok target_secret, (ok [], (ok source_secret, (ok pool_volume, tt))))),
  ),
)

volume_run-Accepts_example :
    Accepts see
      (AllowedVolume local pool_volume (policy machinery local config 7))
      begin
      (trace_of (reconcile_exists machinery local config 7 pool_volume) replies)
volume_run-Accepts_example =
    volume_run-Accepts machinery local config 7 pool_volume local-MakesOwned
      (run_of (reconcile_exists machinery local config 7 pool_volume) replies)
