-- ===== src/Controllers/Machine.antt =====
-- broker/controllers/compute/machine_controller.go: the reconciler of machines.
pub mod Order
use poollet.Base.{String, Bool, true, false, not, [], Option, none, some, if◌then◌else◌}
use poollet.Errors.{Result, ok, err, Error, message, wrap, ignore_not_synced, ignore_not_found}
use poollet.Api.Metadata.{Machinery, machine}
use poollet.Api.Objects.{Machine}
use poollet.Prog.{
  Prog, done, perform, ◌>>=◌, ◌>>?◌, ObjectKey, source, target, cached, get, delete_if_exists,
  ensure_finalizer, remove_finalizer, patch_status,
}
use poollet.Domain.{subdomain, slash}
use poollet.Provider.{target_namespace_for}
use poollet.Sync.{empty_builder}
use poollet.Helpers.{Shared, machine_runs_in_machine_pool}
use poollet.BrokerClient.{broker_controlled_create_or_patch}
use poollet.Controllers.Common.{
  Config, ReconcileResult, no_requeue, requeue, returned, contains_finalizer, key_in, target_object,
}
use poollet.Controllers.Apply.{target_or_not_synced, apply_builder}
use poollet.Controllers.MachineMutations.{
  Builder, register_image_pull_secret_mutation, register_ignition_mutation,
  register_volumes_mutation, register_network_interfaces_mutation, register_default_mutation,
}

module _ (k : Machinery) (sh : Shared) (r : Config) where
  unfoldable pub finalizer : String
  unfolding subdomain slash
  finalizer = slash (subdomain r.base_domain r.pool_name) "machine"

  unfoldable pub delete : Machine → Prog ReconcileResult
  unfolding finalizer target_namespace_for
  delete obj =
      if not (contains_finalizer obj.metadata.finalizers finalizer)
      then done no_requeue
      else target_namespace_for obj.metadata >>= elim [
        | err e ↦ done (returned (ignore_not_synced (some e)))
        | ok target_namespace ↦
            perform (delete_if_exists target machine (key_in target_namespace obj.metadata))
            >>= elim [
              | err e ↦ done (err (wrap "error deleting target" e))
              | ok true ↦ done requeue
              | ok false ↦ perform (remove_finalizer source machine obj finalizer) >>= elim [
                | err e ↦ done (err (wrap "error removing finalizer" e))
                | ok _ ↦ done no_requeue
              ]
            ]
      ]

  unfoldable pub patch_state : Machine → String → Prog (Result Machine)
  patch_state obj state =
      perform (patch_status source machine obj (record obj { state = state })) >>= elim [
        | err e ↦ done (err (wrap "error patching status" e))
        | ok patched ↦ done (ok patched)
      ]

  abbrev pub fresh_target : String → Machine → Machine
  fresh_target target_namespace obj = record {
    metadata = target_object target_namespace obj.metadata.name;
    machine_class_ref = "";
    machine_pool_selector = [];
    machine_pool_ref = none;
    image = "";
    image_pull_secret_ref = none;
    ignition_ref = none;
    efi_vars = [];
    volumes = [];
    network_interfaces = [];
    state = "";
    volume_statuses = [];
    network_interface_statuses = [];
  }

  -- The mutations that `applyTarget` registers, in its order.
  unfoldable pub register_all : Machine → Prog (Result Builder)
  unfolding register_image_pull_secret_mutation register_ignition_mutation register_volumes_mutation
      register_network_interfaces_mutation register_default_mutation
  register_all obj =
      register_image_pull_secret_mutation obj empty_builder
      >>? register_ignition_mutation obj
      >>? register_volumes_mutation sh r obj
      >>? register_network_interfaces_mutation sh r obj
      >>? λ b. done (register_default_mutation sh r obj b)

  unfoldable pub apply_target : Machine → String → Prog (Result (Option Machine × Bool))
  unfolding register_all
  apply_target obj target_namespace =
      register_all obj
      >>? apply_builder k r.cluster_name machine machine obj (fresh_target target_namespace obj)

  -- The rest of a reconciliation, once the target is applied or cannot be yet.
  unfoldable pub finish : Machine → Result (Option Machine × Bool) → Prog ReconcileResult
  unfolding patch_state
  finish obj (err e) = done (err e)
  finish obj (ok (none, partial)) = done (ok partial)
  finish obj (ok (some t, partial)) =
      patch_state obj t.state >>= elim [ err e ↦ done (err e) | ok _ ↦ done (ok partial) ]

  unfoldable pub reconcile : Machine → Prog ReconcileResult
  unfolding finalizer target_namespace_for apply_target finish
  reconcile obj = target_namespace_for obj.metadata >>= elim [
    | err e ↦ done (returned (ignore_not_synced (some e)))
    | ok target_namespace ↦ perform (ensure_finalizer source machine obj finalizer) >>= elim [
      | err e ↦ done (err e)
      | ok true ↦ done no_requeue
      | ok false ↦ apply_target obj target_namespace >>= finish obj
    ]
  ]

  unfoldable pub reconcile_exists : Machine → Prog ReconcileResult
  unfolding delete reconcile machine_runs_in_machine_pool
  reconcile_exists obj =
      if not (machine_runs_in_machine_pool obj r.pool_name)
      then done no_requeue
      else elim obj.metadata.deletion_timestamp [ some _ ↦ delete obj | none ↦ reconcile obj ]

  -- `Reconcile`, on the key of the request.
  unfoldable pub handle : ObjectKey → Prog ReconcileResult
  unfolding reconcile_exists
  handle key = perform (get (cached source) machine key) >>= elim [
    | err e ↦ done (returned (ignore_not_found (some e)))
    | ok obj ↦ reconcile_exists obj
  ]

  -- `Target`: the machine in the target cluster, for the key of one in the source cluster.
  unfoldable pub target_for : ObjectKey → Prog (Result Machine)
  unfolding target_namespace_for machine_runs_in_machine_pool
  target_for key = perform (get (cached source) machine key) >>? λ obj.
      if not (machine_runs_in_machine_pool obj r.pool_name)
      then done (err (message "machine is not running in machine pool"))
      else target_namespace_for obj.metadata >>? λ target_namespace.
          target_or_not_synced machine "machines" (key_in target_namespace obj.metadata)
            obj.metadata.name
