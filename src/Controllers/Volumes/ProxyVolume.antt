-- ===== src/Controllers/Volumes/ProxyVolume.antt =====
-- proxyvolumebrokerlet/controllers/storage/proxyvolume_controller.go.
pub mod Order
use poollet.Base.{
  ℕ, String, Bool, true, false, not, ◌==◌, ◌&&◌, List, [], ◌∷◌, Option, none, some, if◌then◌else◌,
}
use poollet.Base.Dict.{Dict}
use poollet.Errors.{Result, ok, err, Error, wrap, message, ignore_not_found}
use poollet.Api.Metadata.{Machinery, volume}
use poollet.Api.Objects.{Volume}
use poollet.Prog.{
  Prog, done, perform, ◌>>=◌, ◌>>?◌, ObjectKey, source, cached, get, ensure_finalizer,
  remove_finalizer,
}
use poollet.Domain.{Domain, subdomain, slash}
use poollet.Helpers.{Shared, volume_runs_in_volume_pool, refers_to}
use poollet.Usage.{is_volume_used_cached_or_live}
use poollet.SingleClient.Generate.{LocalControllers}
use poollet.Multicluster.Reference.{OwnerReference}
use poollet.Multicluster.Meta.{get_controller_of}
use poollet.Controllers.Common.{
  Config, ReconcileResult, no_requeue, requeue, returned, contains_finalizer,
}
use poollet.Controllers.Apply.{requeue_partial}
use poollet.Controllers.VolumeAppliers.{VolumeApplier, sync_volume_applier, proxy_volume_applier}
use poollet.Controllers.Access.{apply_access, patch_volume_status}

module _ (k : Machinery) (local : LocalControllers) (r : Config) (now : ℕ) where
  unfoldable pub domain : Domain
  unfolding subdomain
  domain = subdomain r.base_domain r.pool_name

  unfoldable pub finalizer : String
  unfolding domain slash
  finalizer = slash domain "volume"

  abbrev pub applier_by : Option OwnerReference → VolumeApplier
  applier_by none = sync_volume_applier k r true
  applier_by (some ctrl) = proxy_volume_applier k r.cluster_name

  -- A volume that is controlled from another cluster is proxied.
  unfoldable pub applier_for : Volume → VolumeApplier
  unfolding get_controller_of
  applier_for obj = applier_by (get_controller_of k obj.metadata)

  unfoldable pub delete : Volume → Prog ReconcileResult
  unfolding finalizer applier_for
  delete obj =
      if not (contains_finalizer obj.metadata.finalizers finalizer)
      then done no_requeue
      else (applier_for obj).delete_target obj >>= elim [
        | err e ↦ done (err (wrap "error deleting target" e))
        | ok false ↦ done requeue
        | ok true ↦ perform (remove_finalizer source volume obj finalizer) >>= elim [
          | err e ↦ done (err (wrap "error removing finalizer" e))
          | ok _ ↦ done no_requeue
        ]
      ]

  -- The part of `reconcile` with the target that was applied.
  unfoldable pub apply_status : Volume → Bool → Volume → Prog ReconcileResult
  unfolding domain apply_access patch_volume_status
  apply_status obj partial target = apply_access k local domain obj target >>= elim [
    | err e ↦ done (err e)
    | ok access ↦
        patch_volume_status now obj target.state access
        >>= elim [ err e ↦ done (err e) | ok _ ↦ done (ok partial) ]
  ]

  abbrev pub finish : Volume → Result (Option Volume × Bool) → Prog ReconcileResult
  finish obj (err e) = done (err e)
  finish obj (ok (none, partial)) = done (ok partial)
  finish obj (ok (some target, partial)) = apply_status obj partial target

  unfoldable pub reconcile : Volume → Prog ReconcileResult
  unfolding finalizer applier_for apply_status
  reconcile obj = perform (ensure_finalizer source volume obj finalizer) >>= elim [
    | err e ↦ done (err e)
    | ok true ↦ done no_requeue
    | ok false ↦ (applier_for obj).apply_target obj >>= finish obj
  ]

  unfoldable pub reconcile_exists : Volume → Prog ReconcileResult
  unfolding delete reconcile volume_runs_in_volume_pool
  reconcile_exists obj =
      if not (volume_runs_in_volume_pool obj r.pool_name)
      then done no_requeue
      else elim obj.metadata.deletion_timestamp [ some _ ↦ delete obj | none ↦ reconcile obj ]

  -- `Reconcile`, on the key of the request.
  unfoldable pub handle : ObjectKey → Prog ReconcileResult
  unfolding reconcile_exists
  handle key = perform (get (cached source) volume key) >>= elim [
    | err e ↦ done (returned (ignore_not_found (some e)))
    | ok obj ↦ reconcile_exists obj
  ]

  -- `Target`: the volume in the target cluster, for the key of one in the source cluster.
  unfoldable pub target_for : ObjectKey → Prog (Result Volume)
  unfolding applier_for
  target_for key =
      perform (get (cached source) volume key) >>? λ obj. (applier_for obj).get_target obj
