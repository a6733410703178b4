-- ===== src/Controllers/Network.antt =====
-- broker/controllers/networking/network_controller.go.
pub mod Order
use poollet.Base.{String, Bool, true, false, not, Option, none, some, if◌then◌else◌}
use poollet.Errors.{Result, ok, err, Error, wrap, ignore_not_synced, ignore_not_found}
use poollet.Api.Metadata.{Kind, Machinery, Metadata, network}
use poollet.Api.Objects.{Network, NetworkInterface, meta_object}
use poollet.Prog.{
  Prog, done, perform, ◌>>=◌, ◌>>?◌, ObjectKey, source, target, cached, get, delete_if_exists,
  ensure_finalizer, remove_finalizer,
}
use poollet.Domain.{subdomain, slash}
use poollet.Provider.{target_namespace_for}
use poollet.Helpers.{Shared}
use poollet.Usage.{is_network_used_cached_or_live}
use poollet.BrokerClient.{broker_controlled_create_or_patch}
use poollet.Controllers.Common.{
  Config, ReconcileResult, no_requeue, requeue, returned, contains_finalizer, key_in, target_object,
  direct_target_namespace,
}
use poollet.Controllers.Apply.{target_or_not_synced}

module _ (k : Machinery) (sh : Shared) (r : Config) where
  unfoldable pub finalizer : String
  unfolding subdomain slash
  finalizer = slash (subdomain r.base_domain r.pool_name) "network"

  unfoldable pub delete : Network → Prog ReconcileResult
  unfolding finalizer
  delete obj =
      if not (contains_finalizer obj.metadata.finalizers finalizer)
      then done no_requeue
      else direct_target_namespace obj.metadata >>= elim [
        | err e ↦ done (returned (ignore_not_synced (some e)))
        | ok target_namespace ↦
            perform (delete_if_exists target network (key_in target_namespace obj.metadata))
            >>= elim [
              | err e ↦ done (err (wrap "error deleting target" e))
              | ok true ↦ done requeue
              | ok false ↦ perform (remove_finalizer source network obj finalizer) >>= elim [
                | err e ↦ done (err (wrap "error removing finalizer" e))
                | ok _ ↦ done no_requeue
              ]
            ]
      ]

  unfoldable pub reconcile : Network → Prog ReconcileResult
  unfolding finalizer target_namespace_for broker_controlled_create_or_patch
  reconcile obj = target_namespace_for obj.metadata >>= elim [
    | err e ↦ done (returned (ignore_not_synced (some e)))
    | ok target_namespace ↦ perform (ensure_finalizer source network obj finalizer) >>= elim [
      | err e ↦ done (err e)
      | ok true ↦ done no_requeue
      | ok false ↦
          broker_controlled_create_or_patch k r.cluster_name (meta_object network obj) network
            target (record { metadata = target_object target_namespace obj.metadata.name }) ok
          >>= elim [ err e ↦ done (err (wrap "error applying target" e)) | ok _ ↦ done no_requeue ]
    ]
  ]

  unfoldable pub reconcile_exists : Network → Prog ReconcileResult
  unfolding delete reconcile is_network_used_cached_or_live
  reconcile_exists obj = elim obj.metadata.deletion_timestamp [
    | some _ ↦ delete obj
    | none ↦
        is_network_used_cached_or_live sh r.pool_name obj
        >>= elim [ err e ↦ done (err e) | ok false ↦ delete obj | ok true ↦ reconcile obj ]
  ]

  -- `Reconcile`, on the key of the request.
  unfoldable pub handle : ObjectKey → Prog ReconcileResult
  unfolding reconcile_exists
  handle key = perform (get (cached source) network key) >>= elim [
    | err e ↦ done (returned (ignore_not_found (some e)))
    | ok obj ↦ reconcile_exists obj
  ]

  -- `Target`: the network in the target cluster, for the key of one in the source cluster.
  unfoldable pub target_for : ObjectKey → Prog (Result Network)
  unfolding target_namespace_for
  target_for key = perform (get (cached source) network key) >>? λ obj.
      target_namespace_for obj.metadata >>? λ target_namespace.
      target_or_not_synced network "networks" (key_in target_namespace obj.metadata)
        obj.metadata.name

-- The key of the request for the network of an interface, which the watch of interfaces enqueues.
unfoldable pub network_requests_from_network_interface : NetworkInterface → ObjectKey
network_requests_from_network_interface nic = record {
  namespace = nic.metadata.namespace;
  name = nic.network_ref;
}
