-- ===== src/Controllers/Volumes/OneWaySyncVolume.antt =====
-- machinebrokerlet/controllers/storage/onewaysyncvolume_controller.go; `pool_name` is the name of
-- the machine pool.
pub mod Order
use poollet.Base.{
  ℕ, String, Bool, true, false, not, ◌==◌, ◌&&◌, List, [], ◌∷◌, Option, none, some, if◌then◌else◌,
}
use poollet.Base.Dict.{Dict}
use poollet.Errors.{Result, ok, err, Error, wrap, message, ignore_not_found}
use poollet.Api.Metadata.{Machinery, volume}
use poollet.Api.Objects.{Volume}
use poollet.Prog.{
  Prog, done, perform, ◌>>=◌, ◌>>?◌, ObjectKey, source, cached, get, ensure_finalizer,
  remove_finalizer,
}
use poollet.Domain.{Domain, subdomain, slash}
use poollet.Helpers.{Shared, volume_runs_in_volume_pool, refers_to}
use poollet.Usage.{is_volume_used_cached_or_live}
use poollet.SingleClient.Generate.{LocalControllers}
use poollet.Multicluster.Reference.{OwnerReference}
use poollet.Multicluster.Meta.{get_controller_of}
use poollet.Controllers.Common.{
  Config, ReconcileResult, no_requeue, requeue, returned, contains_finalizer,
}
use poollet.Controllers.Apply.{requeue_partial}
use poollet.Controllers.VolumeAppliers.{VolumeApplier, sync_volume_applier, proxy_volume_applier}
use poollet.Controllers.Access.{apply_access, patch_volume_status}

module _ (k : Machinery) (sh : Shared) (r : Config) where
  unfoldable pub finalizer : String
  unfolding subdomain slash
  finalizer = slash (subdomain r.base_domain r.pool_name) "volume"

  abbrev pub applier : VolumeApplier
  applier = sync_volume_applier k r false

  unfoldable pub delete : Volume → Prog ReconcileResult
  unfolding finalizer
  delete obj =
      if not (contains_finalizer obj.metadata.finalizers finalizer)
      then done no_requeue
      else applier.delete_target obj >>= elim [
        | err e ↦ done (err (wrap "error deleting target" e))
        | ok false ↦ done requeue
        | ok true ↦
            perform (remove_finalizer source volume obj finalizer)
            >>= elim [ err e ↦ done (err e) | ok _ ↦ done no_requeue ]
      ]

  unfoldable pub reconcile : Volume → Prog ReconcileResult
  unfolding finalizer
  reconcile obj = perform (ensure_finalizer source volume obj finalizer) >>= elim [
    | err e ↦ done (err e)
    | ok true ↦ done no_requeue
    | ok false ↦ applier.apply_target obj >>= requeue_partial
  ]

  -- The part of `reconcileExists` for a volume that is not being deleted.
  unfoldable pub reconcile_kept : Volume → Prog ReconcileResult
  unfolding delete reconcile is_volume_used_cached_or_live
  reconcile_kept obj =
      is_volume_used_cached_or_live sh r.pool_name obj
      >>= elim [ err e ↦ done (err e) | ok false ↦ delete obj | ok true ↦ reconcile obj ]

  unfoldable pub reconcile_exists : Volume → Prog ReconcileResult
  unfolding delete reconcile_kept
  reconcile_exists obj = elim obj.metadata.deletion_timestamp [
    | some _ ↦ delete obj
    | none ↦ reconcile_kept obj
  ]

  -- `Reconcile`, on the key of the request.
  unfoldable pub handle : ObjectKey → Prog ReconcileResult
  unfolding reconcile_exists
  handle key = perform (get (cached source) volume key) >>= elim [
    | err e ↦ done (returned (ignore_not_found (some e)))
    | ok obj ↦ reconcile_exists obj
  ]

  -- `Target`: the volume in the target cluster, for the key of one in the source cluster.
  unfoldable pub target_for : ObjectKey → Prog (Result Volume)
  target_for key = perform (get (cached source) volume key) >>? λ obj. applier.get_target obj
