-- ===== src/Controllers/Volumes/MixedVolume.antt =====
-- partitionlet/controllers/storage/mixedvolume_controller.go. `fallback` holds FallbackPoolName
-- and FallbackPoolLabels.
pub mod Order
use poollet.Base.{
  ℕ, String, Bool, true, false, not, ◌==◌, ◌&&◌, List, [], ◌∷◌, Option, none, some, if◌then◌else◌,
}
use poollet.Base.Dict.{Dict}
use poollet.Errors.{Result, ok, err, Error, wrap, message, ignore_not_found}
use poollet.Api.Metadata.{Machinery, volume}
use poollet.Api.Objects.{Volume}
use poollet.Prog.{
  Prog, done, perform, ◌>>=◌, ◌>>?◌, ObjectKey, source, cached, get, ensure_finalizer,
  remove_finalizer,
}
use poollet.Domain.{Domain, subdomain, slash}
use poollet.Helpers.{Shared, volume_runs_in_volume_pool, refers_to}
use poollet.Usage.{is_volume_used_cached_or_live}
use poollet.SingleClient.Generate.{LocalControllers}
use poollet.Multicluster.Reference.{OwnerReference}
use poollet.Multicluster.Meta.{get_controller_of}
use poollet.Controllers.Common.{
  Config, ReconcileResult, no_requeue, requeue, returned, contains_finalizer,
}
use poollet.Controllers.Apply.{requeue_partial}
use poollet.Controllers.VolumeAppliers.{VolumeApplier, sync_volume_applier, proxy_volume_applier}
use poollet.Controllers.Access.{apply_access, patch_volume_status}

pub record Fallback : Type 0 where
  pub pool_name : String
  pub pool_labels : Dict String

-- `len(labels) == 0`
abbrev pub is_empty : Dict String → Bool
is_empty [] = true
is_empty (label ∷ labels) = false

module _ (k : Machinery) (local : LocalControllers) (sh : Shared) (r : Config) (fallback : Fallback)
    (now : ℕ) where
  unfoldable pub domain : Domain
  unfolding subdomain
  domain = subdomain r.base_domain r.pool_name

  unfoldable pub finalizer : String
  unfolding domain slash
  finalizer = slash domain "volume"

  -- The configuration of the applier for the volumes of other pools.
  abbrev pub fallback_config : Config
  fallback_config = record r {
    target_pool_name = fallback.pool_name;
    target_pool_labels = fallback.pool_labels;
  }

  -- The applier, and whether the volume is managed.
  unfoldable pub applier_for : Volume → Result (VolumeApplier × Bool)
  applier_for obj =
      if refers_to obj.volume_pool_ref r.pool_name
      then ok (sync_volume_applier k r false, true)
      else if fallback.pool_name == "" && is_empty fallback.pool_labels
      then err (message "volume is not managed by mixed volume reconciler and no fallback given")
      else ok (sync_volume_applier k fallback_config false, false)

  -- The part of `delete` with the applier.
  unfoldable pub delete_by : Volume → Result (VolumeApplier × Bool) → Prog ReconcileResult
  unfolding finalizer
  delete_by obj (err e) = done (err (wrap "error getting applier for volume" e))
  delete_by obj (ok (applier, managed)) = applier.delete_target obj >>= elim [
    | err e ↦ done (err (wrap "error deleting target" e))
    | ok false ↦ done requeue
    | ok true ↦
        perform (remove_finalizer source volume obj finalizer)
        >>= elim [ err e ↦ done (err (wrap "error removing finalizer" e)) | ok _ ↦ done no_requeue ]
  ]

  unfoldable pub delete : Volume → Prog ReconcileResult
  unfolding finalizer delete_by applier_for
  delete obj =
      if not (contains_finalizer obj.metadata.finalizers finalizer)
      then done no_requeue
      else delete_by obj (applier_for obj)

  -- The part of `reconcile` with the target of a managed volume.
  unfoldable pub apply_status : Volume → Bool → Volume → Prog ReconcileResult
  unfolding domain apply_access patch_volume_status
  apply_status obj partial target = apply_access k local domain obj target >>= elim [
    | err e ↦ done (err e)
    | ok access ↦
        patch_volume_status now obj target.state access
        >>= elim [ err e ↦ done (err e) | ok _ ↦ done (ok partial) ]
  ]

  abbrev pub finish : Volume → Bool → Result (Option Volume × Bool) → Prog ReconcileResult
  finish obj managed (err e) = done (err e)
  finish obj managed (ok (none, partial)) = done (ok partial)
  finish obj true (ok (some target, partial)) = apply_status obj partial target
  finish obj false (ok (some target, partial)) = done (ok partial)

  unfoldable pub reconcile_by : Volume → Result (VolumeApplier × Bool) → Prog ReconcileResult
  unfolding apply_status
  reconcile_by obj (err e) = done (err (wrap "error getting applier for volume" e))
  reconcile_by obj (ok (applier, managed)) = applier.apply_target obj >>= finish obj managed

  unfoldable pub reconcile : Volume → Prog ReconcileResult
  unfolding finalizer reconcile_by applier_for
  reconcile obj = perform (ensure_finalizer source volume obj finalizer) >>= elim [
    | err e ↦ done (err e)
    | ok true ↦ done no_requeue
    | ok false ↦ reconcile_by obj (applier_for obj)
  ]

  -- The part of `reconcileExists` for a volume that is not being deleted.
  unfoldable pub reconcile_kept : Volume → Prog ReconcileResult
  unfolding delete reconcile volume_runs_in_volume_pool is_volume_used_cached_or_live
  reconcile_kept obj =
      if volume_runs_in_volume_pool obj r.pool_name
      then reconcile obj
      else is_volume_used_cached_or_live sh r.pool_name obj
        >>= elim [ err e ↦ done (err e) | ok false ↦ delete obj | ok true ↦ reconcile obj ]

  unfoldable pub reconcile_exists : Volume → Prog ReconcileResult
  unfolding delete reconcile_kept
  reconcile_exists obj = elim obj.metadata.deletion_timestamp [
    | some _ ↦ delete obj
    | none ↦ reconcile_kept obj
  ]

  -- `Reconcile`, on the key of the request.
  unfoldable pub handle : ObjectKey → Prog ReconcileResult
  unfolding reconcile_exists
  handle key = perform (get (cached source) volume key) >>= elim [
    | err e ↦ done (returned (ignore_not_found (some e)))
    | ok obj ↦ reconcile_exists obj
  ]

  abbrev get_target_by : Volume → Result (VolumeApplier × Bool) → Prog (Result Volume)
  get_target_by obj (err e) = done (err e)
  get_target_by obj (ok (applier, managed)) = applier.get_target obj

  -- `Target`: the volume in the target cluster, for the key of one in the source cluster.
  unfoldable pub target_for : ObjectKey → Prog (Result Volume)
  unfolding applier_for
  target_for key =
      perform (get (cached source) volume key) >>? λ obj. get_target_by obj (applier_for obj)
