-- ===== src/Controllers/MachinePool.antt =====
-- broker/controllers/compute/machinepool_controller.go, and the list of the machines of a pool of
-- api/compute/client/index/index.go. `list_of` is the list of a string set with these insertions.
pub mod Order
use poollet.Base.{
  String, Bool, true, false, not, ◌==◌, List, [], ◌∷◌, ◌++◌, Option, none, some, if◌then◌else◌,
}
use poollet.Errors.{Result, ok, err, Error, wrap, is_not_found, ignore_not_found}
use poollet.Api.Metadata.{machine, machine_pool}
use poollet.Api.Objects.{Machine, MachinePool}
use poollet.Prog.{
  Prog, done, perform, ◌>>=◌, ObjectKey, source, target, cached, get, list, delete as delete_object,
  patch_status, remove_finalizer,
}
use poollet.Domain.{subdomain, slash}
use poollet.Controllers.Common.{Config, ReconcileResult, no_requeue, returned, contains_finalizer}
use poollet.Controllers.Apply.{key_of}

abbrev pub machine_spec_machine_pool_ref_name : String
machine_spec_machine_pool_ref_name = ".spec.machinePoolRef.name"

unfoldable pub list_machines_running_in_machine_pool : String → Prog (Result (List Machine))
list_machines_running_in_machine_pool pool_name =
    perform (
      list (cached source) machine (record {
        namespace = none;
        fields = (machine_spec_machine_pool_ref_name, pool_name) ∷ [];
        labels = [];
      }))
    >>= elim [
      | err e ↦ done (err (wrap "error listing machines running in machine pool" e))
      | ok machines ↦ done (ok machines)
    ]

-- The loop that deletes the machines; an error is only logged.
unfoldable pub delete_each : List Machine → Prog (Unit {0})
delete_each [] = done tt
delete_each (m ∷ machines) =
    perform (delete_object source machine (key_of m.metadata)) >>= λ _. delete_each machines

-- The names in the order in which the loops insert them.
unfoldable pub class_names : List MachinePool → List String
class_names [] = []
class_names (pool ∷ pools) = pool.available_machine_classes ++ class_names pools

abbrev pub with_status : MachinePool → String → List String → MachinePool
with_status pool state classes = record pool { state = state; available_machine_classes = classes }

module _ (r : Config) where
  unfoldable pub finalizer : String
  unfolding subdomain slash
  finalizer = slash (subdomain r.base_domain r.pool_name) "machinepool"

  abbrev remove_pool_finalizer : MachinePool → Prog ReconcileResult
  unfolding finalizer
  remove_pool_finalizer pool =
      perform (remove_finalizer source machine_pool pool finalizer)
      >>= elim [ err e ↦ done (err (wrap "error removing finalizer" e)) | ok _ ↦ done no_requeue ]

  -- The rest of `delete` with the machines that were listed.
  unfoldable pub delete_machines : MachinePool → List Machine → Prog ReconcileResult
  unfolding delete_each remove_pool_finalizer
  delete_machines pool [] = delete_each [] >>= λ _. remove_pool_finalizer pool
  delete_machines pool (m ∷ machines) = delete_each (m ∷ machines) >>= λ _. done no_requeue

  unfoldable pub delete : MachinePool → Prog ReconcileResult
  unfolding finalizer list_machines_running_in_machine_pool delete_machines
  delete pool =
      if not (contains_finalizer pool.metadata.finalizers finalizer)
      then done no_requeue
      else list_machines_running_in_machine_pool r.pool_name
        >>= elim [ err e ↦ done (err e) | ok machines ↦ delete_machines pool machines ]

  unfoldable pub target_pools : Prog (Result (List MachinePool))
  target_pools =
      if not (r.target_pool_name == "")
      then perform
          (get (cached target) machine_pool (record { namespace = ""; name = r.target_pool_name }))
        >>= elim [
          | err e ↦ done (
              if not (is_not_found (some e))
              then err (wrap "error getting target pool" e)
              else ok [])
          | ok pool ↦ done (ok (pool ∷ []))
        ]
      else perform (
          list (cached target) machine_pool
            (record { namespace = none; fields = []; labels = r.target_pool_labels }))
        >>= elim [
          | err e ↦ done (err (wrap "error listing target pools" e))
          | ok pools ↦ done (ok pools)
        ]

  module _ (list_of : List String → List String) where
    unfoldable pub accumulate_pools : Prog (Result (List String))
    unfolding target_pools class_names
    accumulate_pools =
        target_pools
        >>= elim [ err e ↦ done (err e) | ok pools ↦ done (ok (list_of (class_names pools))) ]

    unfoldable pub patch_pool_status : MachinePool → String → List String → Prog (Result (Unit {0}))
    patch_pool_status pool state classes =
        perform (patch_status source machine_pool pool (with_status pool state classes))
        >>= elim [ err e ↦ done (err (wrap "error patching status" e)) | ok _ ↦ done (ok tt) ]

    unfoldable pub reconcile : MachinePool → Prog ReconcileResult
    unfolding accumulate_pools patch_pool_status
    reconcile pool = accumulate_pools >>= elim [
      | err e ↦ done (err (wrap "error getting available machine classes" e))
      | ok classes ↦
          patch_pool_status pool "Ready" classes
          >>= elim [ err e ↦ done (err (wrap "error patching status" e)) | ok _ ↦ done no_requeue ]
    ]

    unfoldable pub reconcile_exists : MachinePool → Prog ReconcileResult
    unfolding delete reconcile
    reconcile_exists pool = elim pool.metadata.deletion_timestamp [
      | some _ ↦ delete pool
      | none ↦ reconcile pool
    ]

    -- `Reconcile`, which gets the configured pool whatever the request.
    unfoldable pub handle : Prog ReconcileResult
    unfolding reconcile_exists
    handle =
        perform (get (cached source) machine_pool (record { namespace = ""; name = r.pool_name }))
        >>= elim [
          | err e ↦ done (returned (ignore_not_found (some e)))
          | ok pool ↦ reconcile_exists pool
        ]
