-- ===== src/Controllers/Machine/Order.antt =====
-- The machine controller keeps to the protocol, whatever the clusters reply.
use poollet.Base.{◌≡◌, String, Bool, Option, none, refl, Bool-cases, inl, inr, some}
use poollet.Errors.{Result, ok, err}
use poollet.Api.Metadata.{Kind, Machinery, machine}
use poollet.Api.Objects.{Machine, Obj}
use poollet.Prog.{done}
use poollet.Prog.Trace.{Runs, Accepts}
use poollet.Protocol.{Allowed, advance, start, Subject, Progress, Item, item}
use poollet.Protocol.Quiet.{Quiet, Quiet-then}
use poollet.Helpers.{Shared, machine_runs_in_machine_pool}
use poollet.Sync.{empty_builder}
use poollet.Controllers.Common.{Config, contains_finalizer, ReconcileResult}
use poollet.Controllers.Obeys.{
  Obeys, target_namespace_for-Finds, delete_shape-Obeys, reconcile_shape-Obeys, exists_shape-Obeys,
  Obeys-Runs,
}
use poollet.Controllers.Apply.{apply_shape-Obeys, Applied}
use poollet.Controllers.MachineMutations.{
  register_ignition_mutation, register_volumes_mutation, register_network_interfaces_mutation,
  register_default_mutation,
}
use poollet.Controllers.MachineMutations.Quiet.{
  image_pull_secret-Quiet, ignition-Quiet, volumes-Quiet, network_interfaces-Quiet,
}
use poollet.Controllers.Machine.{
  finalizer, delete, reconcile, reconcile_exists, register_all, apply_target, finish, patch_state,
  fresh_target,
}

module _ (k : Machinery) (sh : Shared) (r : Config) (obj : Machine) where
  -- The machine with the state of the target that was written last.
  abbrev pub IsStatePatch : Option Item → (kind : Kind) → Obj kind → Type 0
  IsStatePatch written machine patched =
      (t : Machine) × (written ≡ some (item machine t)) × (patched ≡ record obj { state = t.state })
  IsStatePatch written kind patched = ⊥

  abbrev pub subject : Subject
  subject = record {
    kind = machine;
    obj = obj;
    finalizer = finalizer k sh r;
    IsPatch = IsStatePatch;
  }

  delete-Obeys : Obeys subject start (delete k sh r obj)
  unfolding delete
  delete-Obeys = elim (Bool-cases (contains_finalizer obj.metadata.finalizers (finalizer k sh r))) [
    | inl present ↦
        rw present (delete_shape-Obeys subject _ (target_namespace_for-Finds subject) _ present)
    | inr absent ↦ rw absent tt
  ]

  register_all-Quiet : Quiet (register_all k sh r obj)
  unfolding register_all
  register_all-Quiet =
      Quiet-then _ (λ b. done (register_default_mutation sh r obj b))
        (Quiet-then _ (register_network_interfaces_mutation sh r obj)
          (Quiet-then _ (register_volumes_mutation sh r obj)
            (Quiet-then _ (register_ignition_mutation obj)
              (image_pull_secret-Quiet obj empty_builder) λ b. ignition-Quiet obj b)
            λ b. volumes-Quiet sh r obj b)
          λ b. network_interfaces-Quiet sh r obj b)
        λ b. tt

  finish-Obeys :
      (ns : String) (s : Progress) (res : Result (Option Machine × Bool))
      → Applied subject ns s res
      → Obeys subject s (finish k sh r obj res)
  unfolding finish patch_state
  finish-Obeys ns s (err e) h = tt
  finish-Obeys ns s (ok (none, partial)) h = tt
  finish-Obeys ns s (ok (some t, partial)) h =
      rw h ((refl, refl, (t, refl, refl)), elim [ err e ↦ tt | ok _ ↦ tt ])

  reconcile-Obeys : Obeys subject start (reconcile k sh r obj)
  unfolding reconcile apply_target
  reconcile-Obeys = reconcile_shape-Obeys subject _ (target_namespace_for-Finds subject) _ _ _ λ ns.
      apply_shape-Obeys subject k r.cluster_name (fresh_target k sh r ns obj) ns
        (register_all k sh r obj) (finish k sh r obj) refl refl register_all-Quiet (finish-Obeys ns)

  reconcile_exists-Obeys : Obeys subject start (reconcile_exists k sh r obj)
  unfolding reconcile_exists
  reconcile_exists-Obeys = elim (Bool-cases (machine_runs_in_machine_pool obj r.pool_name)) [
    | inl here ↦ rw here (
        exists_shape-Obeys subject obj.metadata.deletion_timestamp (delete k sh r obj) _
          delete-Obeys reconcile-Obeys)
    | inr elsewhere ↦ rw elsewhere tt
  ]

-- In every run of the machine controller: the target is written only after the controller's
-- finalizer is in place on the source, in the target namespace that the provider has named and
-- under the name of the source; only the object of that kind, namespace and name is deleted, and
-- only if the source has the finalizer; the finalizer is put on no other object than the source,
-- and is removed from the source only after the target cluster has said that the target is gone;
-- the status of the source is patched only with the finalizer in place and once the target is
-- written, in nothing but its state, which becomes that of the target; and nothing else but events
-- is written in either cluster.
pub machine_run-Accepts :
    (k : Machinery) (sh : Shared) (r : Config) (obj : Machine) {trace : _}
    {result : ReconcileResult}
    → Runs (reconcile_exists k sh r obj) trace result
    → Accepts advance (Allowed (subject k sh r obj)) start trace
machine_run-Accepts k sh r obj run =
    Obeys-Runs (subject k sh r obj) _ (reconcile_exists-Obeys k sh r obj) run
