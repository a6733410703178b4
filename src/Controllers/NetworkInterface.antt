-- ===== src/Controllers/NetworkInterface.antt =====
-- broker/controllers/networking/networkinterface_controller.go.
pub mod Order
use poollet.Base.Lists.{length, eqb}
use poollet.Base.{
  List, [], ◌∷◌, ◌==◌, map, String, Bool, true, false, not, Option, none, some, if◌then◌else◌,
}
use poollet.Errors.{Result, ok, err, Error, wrap, ignore_not_synced, ignore_not_found}
use poollet.Api.Metadata.{
  Kind, Machinery, Metadata, network_interface, network, machine, virtual_ip,
}
use poollet.Api.Objects.{
  NetworkInterface, LocalUidReference, Ip, VirtualIpSource, VirtualIp, Machine,
}
use poollet.Prog.{
  Prog, done, perform, ◌>>=◌, ◌>>?◌, ObjectKey, source, target, cached, get, delete_if_exists,
  ensure_finalizer, remove_finalizer, event,
}
use poollet.Domain.{subdomain, slash}
use poollet.Provider.{target_namespace_for}
use poollet.Sync.{CompositeMutationBuilder, empty_builder, add, set_partial}
use poollet.Helpers.{Shared, network_interface_virtual_ip_name}
use poollet.Usage.{is_network_interface_used_cached_or_live}
use poollet.BrokerClient.{broker_controlled_create_or_patch}
use poollet.Controllers.Common.{
  Config, ReconcileResult, no_requeue, requeue, returned, contains_finalizer, key_in, target_object,
}
use poollet.Controllers.Apply.{
  target_or_not_synced, key_of, key_beside, with_target, apply_builder, requeue_partial,
}

abbrev pub Builder : Type 0
Builder = CompositeMutationBuilder NetworkInterface

module _ (k : Machinery) (sh : Shared) (r : Config) where
  unfoldable pub finalizer : String
  unfolding subdomain slash
  finalizer = slash (subdomain r.base_domain r.pool_name) "networkinterface"

  unfoldable pub delete : NetworkInterface → Prog ReconcileResult
  unfolding finalizer target_namespace_for
  delete obj =
      if not (contains_finalizer obj.metadata.finalizers finalizer)
      then done no_requeue
      else target_namespace_for obj.metadata >>= elim [
        | err e ↦ done (err e)
        | ok target_namespace ↦
            perform
              (delete_if_exists target network_interface (key_in target_namespace obj.metadata))
            >>= elim [
              | err e ↦ done (err (wrap "error deleting target" e))
              | ok true ↦ done requeue
              | ok false ↦
                  perform (remove_finalizer source network_interface obj finalizer) >>= elim [
                    | err e ↦ done (err (wrap "error removing finalizer" e))
                    | ok _ ↦ done no_requeue
                  ]
            ]
      ]

  abbrev pub set_network_ref : String → NetworkInterface → NetworkInterface
  set_network_ref name t = record t { network_ref = name }

  unfoldable pub register_network_mutation : NetworkInterface → Builder → Prog (Result Builder)
  unfolding add set_partial with_target
  register_network_mutation obj b =
      with_target network (key_beside obj.metadata obj.network_ref)
        "error getting network target key"
        (perform (event network_interface (key_of obj.metadata) "FailedApplyingNetworkInterface"))
        (set_partial b) λ target_network. add (set_network_ref target_network.metadata.name) b

  abbrev pub set_machine_ref : Option LocalUidReference → NetworkInterface → NetworkInterface
  set_machine_ref ref t = record t { machine_ref = ref }

  unfoldable pub register_machine_mutation : NetworkInterface → Builder → Prog (Result Builder)
  unfolding add with_target
  register_machine_mutation obj b = elim obj.machine_ref [
    | none ↦ done (ok (add (set_machine_ref none) b))
    | some ref ↦
        with_target machine (key_beside obj.metadata ref.name) "error getting machine target key"
          (perform
            (event network_interface (key_of obj.metadata) "FailedSyncingNetworkInterfaceMachine"))
          (add (set_machine_ref none) b)
          λ m.
            add (set_machine_ref (some (record { name = m.metadata.name; uid = m.metadata.uid }))) b
  ]

  abbrev pub set_virtual_ip : Option VirtualIpSource → NetworkInterface → NetworkInterface
  set_virtual_ip v t = record t { virtual_ip = v }

  unfoldable pub register_virtual_ip_mutation : NetworkInterface → Builder → Prog (Result Builder)
  unfolding add set_partial with_target network_interface_virtual_ip_name
  register_virtual_ip_mutation obj b = elim obj.virtual_ip [
    | none ↦ done (ok (add (set_virtual_ip none) b))
    | some _ ↦
        with_target virtual_ip (key_beside obj.metadata (network_interface_virtual_ip_name obj))
          "error getting virtual ip target key" (done tt) (set_partial b)
          λ v.
            add
              (set_virtual_ip
                (some (record { virtual_ip_ref = some v.metadata.name; ephemeral = none })))
              b
  ]

  abbrev pub set_ips : List Ip → NetworkInterface → NetworkInterface
  set_ips status_ips t = record t {
    ip_families = map (λ (ip : Ip). ip.family) status_ips;
    ips = status_ips;
  }

  unfoldable pub register_default_mutation : NetworkInterface → Builder → Result Builder
  unfolding add set_partial
  register_default_mutation obj b =
      if not (eqb (length obj.status_ips) (length obj.ip_families))
      then ok (set_partial b)
      else ok (add (set_ips obj.status_ips) b)

  abbrev pub fresh_target : String → NetworkInterface → NetworkInterface
  fresh_target target_namespace obj = record {
    metadata = target_object target_namespace obj.metadata.name;
    network_ref = "";
    machine_ref = none;
    virtual_ip = none;
    ip_families = [];
    ips = [];
    status_ips = [];
  }

  -- The mutations that `applyTarget` registers, in its order.
  unfoldable pub register_all : NetworkInterface → Prog (Result Builder)
  unfolding register_default_mutation register_network_mutation register_machine_mutation
      register_virtual_ip_mutation
  register_all obj =
      done (register_default_mutation obj empty_builder)
      >>? register_network_mutation obj
      >>? register_machine_mutation obj
      >>? register_virtual_ip_mutation obj

  unfoldable pub apply_target :
      NetworkInterface → String → Prog (Result (Option NetworkInterface × Bool))
  unfolding register_all
  apply_target obj target_namespace =
      register_all obj
      >>? apply_builder k r.cluster_name network_interface network_interface obj
          (fresh_target target_namespace obj)

  unfoldable pub reconcile : NetworkInterface → Prog ReconcileResult
  unfolding finalizer target_namespace_for apply_target
  reconcile obj = target_namespace_for obj.metadata >>= elim [
    | err e ↦ done (returned (ignore_not_synced (some e)))
    | ok target_namespace ↦
        perform (ensure_finalizer source network_interface obj finalizer) >>= elim [
          | err e ↦ done (err e)
          | ok true ↦ done no_requeue
          | ok false ↦ apply_target obj target_namespace >>= requeue_partial
        ]
  ]

  unfoldable pub reconcile_exists : NetworkInterface → Prog ReconcileResult
  unfolding delete reconcile is_network_interface_used_cached_or_live
  reconcile_exists obj = elim obj.metadata.deletion_timestamp [
    | some _ ↦ delete obj
    | none ↦
        is_network_interface_used_cached_or_live sh r.pool_name obj
        >>= elim [ err e ↦ done (err e) | ok false ↦ delete obj | ok true ↦ reconcile obj ]
  ]

  -- `Reconcile`, on the key of the request.
  unfoldable pub handle : ObjectKey → Prog ReconcileResult
  unfolding reconcile_exists
  handle key = perform (get (cached source) network_interface key) >>= elim [
    | err e ↦ done (returned (ignore_not_found (some e)))
    | ok obj ↦ reconcile_exists obj
  ]

  -- `Target`: the network interface in the target cluster, for the key of one in the source cluster.
  unfoldable pub target_for : ObjectKey → Prog (Result NetworkInterface)
  unfolding target_namespace_for
  target_for key = perform (get (cached source) network_interface key) >>? λ obj.
      target_namespace_for obj.metadata >>? λ target_namespace.
      target_or_not_synced network_interface "networkinterfaces"
        (key_in target_namespace obj.metadata) obj.metadata.name

-- The requests that the watch of virtual IPs enqueues for an interface.
unfoldable pub enqueue_by_virtual_ip_target_name : VirtualIp → List ObjectKey
enqueue_by_virtual_ip_target_name obj = elim obj.target_ref [
  | none ↦ []
  | some _ ↦ key_of obj.metadata ∷ []
]

-- The requests that the watch of machines enqueues for their interfaces.
unfoldable pub enqueue_by_machine_network_interface_names : Shared → Machine → List ObjectKey
enqueue_by_machine_network_interface_names sh m =
    map (key_beside m.metadata) (sh.machine_spec_network_interface_names m)
