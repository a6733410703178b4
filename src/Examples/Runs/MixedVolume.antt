-- ===== src/Examples/Runs/MixedVolume.antt =====
-- A run of the reconciler of MixedVolume: the volume is of the pool, and another secret has the label of its access secret.
use poollet.BrokerClient.{broker_controlled_create_or_patch}
use poollet.Controllers.VolumeAppliers.{sync_volume_applier}
use poollet.Base.{false, []}
use poollet.Errors.{is_not_found, ok}
use poollet.Prog.Trace.{Accepts}
use poollet.Prog.Replay.{Replies, trace_of, run_of}
use poollet.Controllers.Volumes.Protocol.{see, AllowedVolume, begin}
use poollet.Controllers.Volumes.MixedVolume.{reconcile_exists, Fallback}
use poollet.Controllers.Volumes.MixedVolume.Order.{mixed_volume_run-Accepts, policy}
use poollet.Examples.Codec.{machinery}
use poollet.Examples.Objects.{config, shared, target_namespace, source_secret}
use poollet.Examples.Local.{local, local-MakesOwned, pool_volume, accessible, target_secret}

abbrev fallback : Fallback
fallback = record { pool_name = "rest"; pool_labels = [] }

abbrev replies : Replies (reconcile_exists machinery local shared config fallback 7 pool_volume)
unfolding reconcile_exists sync_volume_applier broker_controlled_create_or_patch is_not_found
replies = (
  ok false,
  (
    ok target_namespace,
    (ok accessible, (ok target_secret, (ok [], (ok source_secret, (ok pool_volume, tt))))),
  ),
)

mixed_volume_run-Accepts_example :
    Accepts see
      (AllowedVolume local pool_volume (policy machinery local shared config fallback 7))
      begin
      (trace_of (reconcile_exists machinery local shared config fallback 7 pool_volume) replies)
mixed_volume_run-Accepts_example =
    mixed_volume_run-Accepts machinery local shared config fallback 7 pool_volume local-MakesOwned
      (run_of (reconcile_exists machinery local shared config fallback 7 pool_volume) replies)
