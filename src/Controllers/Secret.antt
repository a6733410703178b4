-- ===== src/Controllers/Secret.antt =====
-- broker/controllers/core/secret_controller.go.
pub mod Order
pub mod Clusters
use poollet.Base.{String, Bool, true, false, not, Option, none, some, if◌then◌else◌, []}
use poollet.Errors.{
  Result, ok, err, Error, wrap, ignore_not_synced, ignore_not_found, is_not_found, new_not_synced,
}
use poollet.Api.Metadata.{Kind, Machinery, Metadata, secret}
use poollet.Api.Objects.{Secret, meta_object}
use poollet.Prog.{
  Prog, done, perform, ◌>>=◌, ◌>>?◌, ObjectKey, source, target, cached, get, delete_if_exists,
  ensure_finalizer, remove_finalizer,
}
use poollet.Domain.{Domain, subdomain, slash}
use poollet.Dependents.{Mixin, is_referenced}
use poollet.Provider.{target_namespace_for}
use poollet.BrokerClient.{broker_controlled_create_or_patch}
use poollet.Controllers.Common.{
  Config, ReconcileResult, no_requeue, requeue, returned, contains_finalizer, key_in, target_object,
}

module _ (k : Machinery) (r : Config) where
  unfoldable pub finalizer : String
  unfolding subdomain slash
  finalizer = slash (subdomain r.base_domain r.pool_name) "secret"

  unfoldable pub delete : Secret → Prog ReconcileResult
  unfolding finalizer target_namespace_for
  delete obj =
      if not (contains_finalizer obj.metadata.finalizers finalizer)
      then done no_requeue
      else target_namespace_for obj.metadata >>= elim [
        | err e ↦ done (returned (ignore_not_synced (some e)))
        | ok target_namespace ↦
            perform (delete_if_exists target secret (key_in target_namespace obj.metadata))
            >>= elim [
              | err e ↦ done (err (wrap "error deleting target" e))
              | ok true ↦ done requeue
              | ok false ↦ perform (remove_finalizer source secret obj finalizer) >>= elim [
                | err e ↦ done (err (wrap "error removing finalizer" e))
                | ok _ ↦ done no_requeue
              ]
            ]
      ]

  -- The mutation of the target secret.
  unfoldable pub copy_data : Secret → Secret → Result Secret
  copy_data obj target_secret = ok (record target_secret { contents = obj.contents })

  unfoldable pub reconcile : Secret → Prog ReconcileResult
  unfolding finalizer target_namespace_for broker_controlled_create_or_patch copy_data
  reconcile obj = target_namespace_for obj.metadata >>= elim [
    | err e ↦ done (returned (ignore_not_synced (some e)))
    | ok target_namespace ↦ perform (ensure_finalizer source secret obj finalizer) >>= elim [
      | err e ↦ done (err e)
      | ok true ↦ done requeue
      | ok false ↦
          broker_controlled_create_or_patch k r.cluster_name (meta_object secret obj) secret target
            (record { metadata = target_object target_namespace obj.metadata.name; contents = [] })
            (copy_data obj)
          >>= elim [ err e ↦ done (err (wrap "error applying target" e)) | ok _ ↦ done no_requeue ]
    ]
  ]

  unfoldable pub reconcile_exists : Mixin → Secret → Prog ReconcileResult
  unfolding delete reconcile
  reconcile_exists dependents obj = elim obj.metadata.deletion_timestamp [
    | some _ ↦ delete obj
    | none ↦
        is_referenced dependents (meta_object secret obj)
        >>= elim [ err e ↦ done (err e) | ok false ↦ delete obj | ok true ↦ reconcile obj ]
  ]

  -- `Reconcile`, on the key of the request.
  unfoldable pub handle : Mixin → ObjectKey → Prog ReconcileResult
  unfolding reconcile_exists
  handle dependents key = perform (get (cached source) secret key) >>= elim [
    | err e ↦ done (returned (ignore_not_found (some e)))
    | ok obj ↦ reconcile_exists dependents obj
  ]

  -- `Target`: the secret in the target cluster, for the key of one in the source cluster.
  unfoldable pub target_for : ObjectKey → Prog (Result Secret)
  unfolding target_namespace_for
  target_for key = perform (get (cached source) secret key) >>? λ obj.
      target_namespace_for obj.metadata >>? λ target_namespace.
      perform
        (get (cached target) secret (record { namespace = target_namespace; name = key.name }))
      >>= elim [
        | ok target_secret ↦ done (ok target_secret)
        | err e ↦
            done (err (if is_not_found (some e) then new_not_synced "secrets" key.name else e))
      ]
