-- ===== src/Controllers/ConfigMap.antt =====
-- broker/controllers/core/configmap_controller.go.
pub mod Order
use poollet.Base.{String, Bool, true, false, not, Option, none, some, if◌then◌else◌, []}
use poollet.Errors.{
  Result, ok, err, Error, wrap, ignore_not_synced, ignore_not_found, is_not_found, new_not_synced,
}
use poollet.Api.Metadata.{Kind, Machinery, Metadata, config_map}
use poollet.Api.Objects.{ConfigMap, meta_object}
use poollet.Prog.{
  Prog, done, perform, ◌>>=◌, ◌>>?◌, ObjectKey, source, target, cached, get, delete_if_exists,
  ensure_finalizer, remove_finalizer,
}
use poollet.Domain.{Domain, subdomain, slash}
use poollet.Dependents.{Mixin, is_referenced}
use poollet.Provider.{target_namespace_for}
use poollet.BrokerClient.{broker_controlled_create_or_patch}
use poollet.Controllers.Common.{
  Config, ReconcileResult, no_requeue, requeue, returned, contains_finalizer, key_in, target_object,
}

module _ (k : Machinery) (r : Config) where
  unfoldable pub finalizer : String
  unfolding subdomain slash
  finalizer = slash (subdomain r.base_domain r.pool_name) "configmap"

  unfoldable pub delete : ConfigMap → Prog ReconcileResult
  unfolding finalizer target_namespace_for
  delete obj =
      if not (contains_finalizer obj.metadata.finalizers finalizer)
      then done no_requeue
      else target_namespace_for obj.metadata >>= elim [
        | err e ↦ done (returned (ignore_not_synced (some e)))
        | ok target_namespace ↦
            perform (delete_if_exists target config_map (key_in target_namespace obj.metadata))
            >>= elim [
              | err e ↦ done (err (wrap "error deleting target" e))
              | ok true ↦ done requeue
              | ok false ↦ perform (remove_finalizer source config_map obj finalizer) >>= elim [
                | err e ↦ done (err (wrap "error removing finalizer" e))
                | ok _ ↦ done no_requeue
              ]
            ]
      ]

  -- The mutation of the target config_map.
  unfoldable pub copy_data : ConfigMap → ConfigMap → Result ConfigMap
  copy_data obj target_config_map = ok (record target_config_map { contents = obj.contents })

  unfoldable pub reconcile : ConfigMap → Prog ReconcileResult
  unfolding finalizer target_namespace_for broker_controlled_create_or_patch copy_data
  reconcile obj = target_namespace_for obj.metadata >>= elim [
    | err e ↦ done (returned (ignore_not_synced (some e)))
    | ok target_namespace ↦ perform (ensure_finalizer source config_map obj finalizer) >>= elim [
      | err e ↦ done (err e)
      | ok true ↦ done requeue
      | ok false ↦
          broker_controlled_create_or_patch k r.cluster_name (meta_object config_map obj) config_map
            target
            (record {
              metadata = target_object target_namespace obj.metadata.name;
              contents = obj.contents;
            })
            (copy_data obj)
          >>= elim [ err e ↦ done (err (wrap "error applying target" e)) | ok _ ↦ done no_requeue ]
    ]
  ]

  unfoldable pub reconcile_exists : Mixin → ConfigMap → Prog ReconcileResult
  unfolding delete reconcile
  reconcile_exists dependents obj = elim obj.metadata.deletion_timestamp [
    | some _ ↦ delete obj
    | none ↦
        is_referenced dependents (meta_object config_map obj)
        >>= elim [ err e ↦ done (err e) | ok false ↦ delete obj | ok true ↦ reconcile obj ]
  ]

  -- `Reconcile`, on the key of the request.
  unfoldable pub handle : Mixin → ObjectKey → Prog ReconcileResult
  unfolding reconcile_exists
  handle dependents key = perform (get (cached source) config_map key) >>= elim [
    | err e ↦ done (returned (ignore_not_found (some e)))
    | ok obj ↦ reconcile_exists dependents obj
  ]

  -- `Target`: the config_map in the target cluster, for the key of one in the source cluster.
  unfoldable pub target_for : ObjectKey → Prog (Result ConfigMap)
  unfolding target_namespace_for
  target_for key = perform (get (cached source) config_map key) >>? λ obj.
      target_namespace_for obj.metadata >>? λ target_namespace.
      perform
        (get (cached target) config_map (record { namespace = target_namespace; name = key.name }))
      >>= elim [
        | ok target_config_map ↦ done (ok target_config_map)
        | err e ↦
            done (err (if is_not_found (some e) then new_not_synced "configmaps" key.name else e))
      ]
