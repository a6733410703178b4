-- ===== src/Controllers/VirtualIp.antt =====
-- broker/controllers/networking/virtualip_controller.go.
pub mod Order
use poollet.Base.{String, Bool, true, false, not, Option, none, some, if◌then◌else◌}
use poollet.Errors.{Result, ok, err, Error, wrap, ignore_not_synced, ignore_not_found}
use poollet.Api.Metadata.{Kind, Machinery, Metadata, virtual_ip, network_interface}
use poollet.Api.Objects.{VirtualIp, NetworkInterface, LocalUidReference}
use poollet.Prog.{
  Prog, done, perform, ◌>>=◌, ◌>>?◌, ObjectKey, source, target, cached, get, delete_if_exists,
  ensure_finalizer, remove_finalizer, event,
}
use poollet.Domain.{subdomain, slash}
use poollet.Provider.{target_namespace_for}
use poollet.Sync.{CompositeMutationBuilder, empty_builder, add}
use poollet.Helpers.{Shared}
use poollet.Usage.{is_virtual_ip_used_cached_or_live}
use poollet.BrokerClient.{broker_controlled_create_or_patch}
use poollet.Controllers.Common.{
  Config, ReconcileResult, no_requeue, requeue, returned, contains_finalizer, key_in, target_object,
  direct_target_namespace,
}
use poollet.Controllers.Apply.{
  target_or_not_synced, key_of, key_beside, with_target, apply_builder, requeue_partial,
}

abbrev Builder : Type 0
Builder = CompositeMutationBuilder VirtualIp

module _ (k : Machinery) (sh : Shared) (r : Config) where
  unfoldable pub finalizer : String
  unfolding subdomain slash
  finalizer = slash (subdomain r.base_domain r.pool_name) "virtualip"

  unfoldable pub delete : VirtualIp → Prog ReconcileResult
  unfolding finalizer
  delete obj =
      if not (contains_finalizer obj.metadata.finalizers finalizer)
      then done no_requeue
      else direct_target_namespace obj.metadata >>= elim [
        | err e ↦ done (returned (ignore_not_synced (some e)))
        | ok target_namespace ↦
            perform (delete_if_exists target virtual_ip (key_in target_namespace obj.metadata))
            >>= elim [
              | err e ↦ done (err (wrap "error deleting target" e))
              | ok true ↦ done requeue
              | ok false ↦ perform (remove_finalizer source virtual_ip obj finalizer) >>= elim [
                | err e ↦ done (err (wrap "error removing finalizer" e))
                | ok _ ↦ done no_requeue
              ]
            ]
      ]

  abbrev set_target_ref : Option LocalUidReference → VirtualIp → VirtualIp
  set_target_ref ref t = record t { target_ref = ref }

  unfoldable pub register_target_ref_mutation : VirtualIp → Builder → Prog (Result Builder)
  unfolding add with_target
  register_target_ref_mutation obj b = elim obj.target_ref [
    | none ↦ done (ok (add (set_target_ref none) b))
    | some ref ↦
        with_target network_interface (key_beside obj.metadata ref.name)
          "error getting network interface target"
          (perform (event virtual_ip (key_of obj.metadata) "FailedSyncingVirtualIPTarget"))
          (add (set_target_ref none) b)
          λ nic.
            add
              (set_target_ref (some (record { name = nic.metadata.name; uid = nic.metadata.uid })))
              b
  ]

  abbrev pub set_defaults : VirtualIp → VirtualIp → VirtualIp
  set_defaults obj t = record t { ip_type = obj.ip_type; ip_family = obj.ip_family }

  unfoldable pub register_default_mutation : VirtualIp → Builder → Result Builder
  unfolding add
  register_default_mutation obj b = ok (add (set_defaults obj) b)

  abbrev pub fresh_target : String → VirtualIp → VirtualIp
  fresh_target target_namespace obj = record {
    metadata = target_object target_namespace obj.metadata.name;
    ip_type = "";
    ip_family = "";
    target_ref = none;
  }

  unfoldable pub apply_target : VirtualIp → String → Prog (Result (Option VirtualIp × Bool))
  unfolding register_default_mutation register_target_ref_mutation
  apply_target obj target_namespace =
      (done (register_default_mutation obj empty_builder) >>? register_target_ref_mutation obj)
      >>? apply_builder k r.cluster_name virtual_ip virtual_ip obj
          (fresh_target target_namespace obj)

  unfoldable pub reconcile : VirtualIp → Prog ReconcileResult
  unfolding finalizer target_namespace_for apply_target
  reconcile obj = target_namespace_for obj.metadata >>= elim [
    | err e ↦ done (returned (ignore_not_synced (some e)))
    | ok target_namespace ↦ perform (ensure_finalizer source virtual_ip obj finalizer) >>= elim [
      | err e ↦ done (err e)
      | ok true ↦ done no_requeue
      | ok false ↦ apply_target obj target_namespace >>= requeue_partial
    ]
  ]

  unfoldable pub reconcile_exists : VirtualIp → Prog ReconcileResult
  unfolding delete reconcile is_virtual_ip_used_cached_or_live
  reconcile_exists obj = elim obj.metadata.deletion_timestamp [
    | some _ ↦ delete obj
    | none ↦
        is_virtual_ip_used_cached_or_live sh r.pool_name obj
        >>= elim [ err e ↦ done (err e) | ok false ↦ delete obj | ok true ↦ reconcile obj ]
  ]

  -- `Reconcile`, on the key of the request.
  unfoldable pub handle : ObjectKey → Prog ReconcileResult
  unfolding reconcile_exists
  handle key = perform (get (cached source) virtual_ip key) >>= elim [
    | err e ↦ done (returned (ignore_not_found (some e)))
    | ok obj ↦ reconcile_exists obj
  ]

  -- `Target`: the virtual IP in the target cluster, for the key of one in the source cluster.
  unfoldable pub target_for : ObjectKey → Prog (Result VirtualIp)
  unfolding target_namespace_for
  target_for key = perform (get (cached source) virtual_ip key) >>? λ obj.
      target_namespace_for obj.metadata >>? λ target_namespace.
      target_or_not_synced virtual_ip "virtualips" (key_in target_namespace obj.metadata)
        obj.metadata.name
