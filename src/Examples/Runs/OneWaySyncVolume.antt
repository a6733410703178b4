-- ===== src/Examples/Runs/OneWaySyncVolume.antt =====
-- A run of the reconciler of OneWaySyncVolume: the volume is not used, and its target is gone.
use poollet.Controllers.VolumeAppliers.{sync_volume_applier}
use poollet.Usage.{
  is_volume_used_by_machine_in_machine_pool_live, is_volume_used_by_machine_in_machine_pool_cached,
}
use poollet.Base.{false}
use poollet.Errors.{ok}
use poollet.Prog.Trace.{Accepts}
use poollet.Prog.Replay.{Replies, trace_of, run_of}
use poollet.Controllers.Volumes.Protocol.{see, AllowedVolume, begin}
use poollet.Controllers.Volumes.OneWaySyncVolume.{reconcile_exists}
use poollet.Controllers.Volumes.OneWaySyncVolume.Order.{one_way_volume_run-Accepts, policy}
use poollet.Examples.Codec.{machinery}
use poollet.Examples.Objects.{config, shared, target_namespace}
use poollet.Examples.Local.{local, pool_volume}

abbrev replies : Replies (reconcile_exists machinery shared config pool_volume)
unfolding reconcile_exists is_volume_used_by_machine_in_machine_pool_cached
    is_volume_used_by_machine_in_machine_pool_live sync_volume_applier
replies = (ok target_namespace, (ok false, (ok tt, tt)))

one_way_volume_run-Accepts_example :
    Accepts see
      (AllowedVolume local pool_volume (policy machinery shared config))
      begin
      (trace_of (reconcile_exists machinery shared config pool_volume) replies)
one_way_volume_run-Accepts_example =
    one_way_volume_run-Accepts machinery local shared config pool_volume
      (run_of (reconcile_exists machinery shared config pool_volume) replies)
