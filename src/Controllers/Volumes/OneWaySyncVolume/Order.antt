-- ===== src/Controllers/Volumes/OneWaySyncVolume/Order.antt =====
-- The one-way volume reconciler keeps to the protocol of the volume reconcilers.
use poollet.Base.{false, inl, inr, Bool-cases, List}
use poollet.Errors.{ok, err}
use poollet.Api.Metadata.{Machinery}
use poollet.Api.Objects.{Volume}
use poollet.Prog.Trace.{Runs, Exchange, Accepts, Accepts-Runs}
use poollet.Helpers.{Shared}
use poollet.SingleClient.Generate.{LocalControllers}
use poollet.Controllers.Common.{Config, ReconcileResult, contains_finalizer}
use poollet.Controllers.VolumeAppliers.{sync_volume_applier}
use poollet.Controllers.Volumes.Protocol.{Policy, see, begin, AllowedVolume}
use poollet.Controllers.Volumes.Protocol.SyncApplier.{sync-IsApplier}
use poollet.Controllers.Volumes.Shapes.{
  Keeps, delete_shape-Keeps, apply_shape-Keeps, ensure_shape-Keeps, exists_shape-Keeps,
  used_shape-Keeps,
}
use poollet.Controllers.Volumes.OneWaySyncVolume.{
  finalizer, delete, reconcile, reconcile_kept, reconcile_exists,
}

abbrev pub policy : (k : Machinery) (sh : Shared) (r : Config) → Policy
policy k sh r = record { finalizer = finalizer k sh r; proxying = false; copying = false }

module _ (k : Machinery) (local : LocalControllers) (sh : Shared) (r : Config) (obj : Volume) where
  delete-Keeps : Keeps local obj (policy k sh r) begin (delete k sh r obj)
  unfolding delete
  delete-Keeps = elim (Bool-cases (contains_finalizer obj.metadata.finalizers (finalizer k sh r))) [
    | inr absent ↦ rw absent tt
    | inl present ↦ rw present (
        delete_shape-Keeps local obj (policy k sh r) (sync_volume_applier k r false)
          (sync-IsApplier local obj (policy k sh r) k r false) _ _ _ present)
  ]

  reconcile-Keeps : Keeps local obj (policy k sh r) begin (reconcile k sh r obj)
  unfolding reconcile
  reconcile-Keeps = ensure_shape-Keeps local obj (policy k sh r) _ (
      apply_shape-Keeps local obj (policy k sh r) (sync_volume_applier k r false)
        (sync-IsApplier local obj (policy k sh r) k r false) _
        λ s. elim [ err e ↦ λ h. tt | ok (t, partial) ↦ λ h. tt ])

  reconcile_kept-Keeps : Keeps local obj (policy k sh r) begin (reconcile_kept k sh r obj)
  unfolding reconcile_kept
  reconcile_kept-Keeps =
      used_shape-Keeps local obj (policy k sh r) sh r.pool_name (delete k sh r obj)
        (reconcile k sh r obj) delete-Keeps reconcile-Keeps

  reconcile_exists-Keeps : Keeps local obj (policy k sh r) begin (reconcile_exists k sh r obj)
  unfolding reconcile_exists
  reconcile_exists-Keeps =
      exists_shape-Keeps local obj (policy k sh r) obj.metadata.deletion_timestamp
        (delete k sh r obj) _ delete-Keeps reconcile_kept-Keeps

-- In every run of the one-way volume reconciler: the target is written only with the finalizer in
-- place, in the target namespace that the provider has named for the namespace of the volume and
-- under the name of the volume; the target is deleted only there, under that name, and only if the
-- volume has the finalizer; the reconciler's finalizer is put on no other object than the volume,
-- and is removed from it only after the target cluster has said that the target is gone, or if the
-- provider has named no target namespace; and nothing else but events is written in either cluster.
pub one_way_volume_run-Accepts :
    (k : Machinery) (local : LocalControllers) (sh : Shared) (r : Config) (obj : Volume)
    {trace : List Exchange} {result : ReconcileResult}
    → Runs (reconcile_exists k sh r obj) trace result
    → Accepts see (AllowedVolume local obj (policy k sh r)) begin trace
one_way_volume_run-Accepts k local sh r obj run =
    (Accepts-Runs see (AllowedVolume local obj (policy k sh r)) (λ s a. Unit) run begin
      (reconcile_exists-Keeps k local sh r obj)).0
