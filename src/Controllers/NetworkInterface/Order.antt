-- ===== src/Controllers/NetworkInterface/Order.antt =====
-- The network interface controller keeps to the protocol, whatever the clusters reply.
use poollet.Base.{refl, Bool-cases, inl, inr}
use poollet.Errors.{ok, err}
use poollet.Api.Metadata.{Machinery, network_interface, network_interface}
use poollet.Api.Objects.{NetworkInterface}
use poollet.Prog.Trace.{Runs, Accepts}
use poollet.Protocol.{Allowed, advance, start, Subject, Unpatched}
use poollet.Protocol.Quiet.{Quiet, Quiet-option, Quiet-then, Quiet-or_fail}
use poollet.Helpers.{Shared}
use poollet.Usage.Reading.{is_network_interface_used-Reads}
use poollet.Sync.{empty_builder}
use poollet.Controllers.Common.{Config, contains_finalizer, ReconcileResult}
use poollet.Controllers.Obeys.{
  Obeys, target_namespace_for-Finds, delete_shape-Obeys, reconcile_shape-Obeys, used_shape-Obeys,
  exists_shape-Obeys, Obeys-Runs,
}
use poollet.Controllers.Apply.{with_target-Quiet, apply_shape-Obeys, requeue_partial}
use poollet.Controllers.NetworkInterface.{
  finalizer, delete, reconcile, reconcile_exists, register_all, register_network_mutation,
  register_machine_mutation, register_virtual_ip_mutation, apply_target, register_default_mutation,
  fresh_target,
}

module _ (k : Machinery) (sh : Shared) (r : Config) (obj : NetworkInterface) where
  abbrev pub subject : Subject
  subject = record {
    kind = network_interface;
    obj = obj;
    finalizer = finalizer k sh r;
    IsPatch = Unpatched;
  }

  delete-Obeys : Obeys subject start (delete k sh r obj)
  unfolding delete
  delete-Obeys = elim (Bool-cases (contains_finalizer obj.metadata.finalizers (finalizer k sh r))) [
    | inl present ↦
        rw present (delete_shape-Obeys subject _ (target_namespace_for-Finds subject) _ present)
    | inr absent ↦ rw absent tt
  ]

  register_all-Quiet : Quiet (register_all k sh r obj)
  unfolding register_all register_default_mutation register_network_mutation
      register_machine_mutation register_virtual_ip_mutation
  register_all-Quiet =
      Quiet-then _ _
        (Quiet-then _ _
          (Quiet-or_fail (register_network_mutation k sh r obj)
            (register_default_mutation k sh r obj empty_builder) λ b. search with_target-Quiet)
          λ b. Quiet-option obj.machine_ref _ _ tt λ ref. search with_target-Quiet)
        λ b. Quiet-option obj.virtual_ip _ _ tt λ v. search with_target-Quiet

  reconcile-Obeys : Obeys subject start (reconcile k sh r obj)
  unfolding reconcile apply_target
  reconcile-Obeys = reconcile_shape-Obeys subject _ (target_namespace_for-Finds subject) _ _ _ λ ns.
      apply_shape-Obeys subject k r.cluster_name (fresh_target k sh r ns obj) ns
        (register_all k sh r obj) requeue_partial refl refl register_all-Quiet
        λ s. elim [ err e ↦ λ h. tt | ok _ ↦ λ h. tt ]

  reconcile_exists-Obeys : Obeys subject start (reconcile_exists k sh r obj)
  unfolding reconcile_exists
  reconcile_exists-Obeys =
      exists_shape-Obeys subject obj.metadata.deletion_timestamp (delete k sh r obj) _ delete-Obeys
        (used_shape-Obeys subject _ (delete k sh r obj) (reconcile k sh r obj)
          (is_network_interface_used-Reads sh r.pool_name obj) delete-Obeys reconcile-Obeys)

-- In every run of the network interface controller: the target is written only after the
-- controller's finalizer is in place on the source, in the target namespace that the provider has
-- named and under the name of the source; only the object of that kind, namespace and name is
-- deleted, and only if the source has the finalizer; the finalizer is put on no other object than
-- the source, and is removed from the source only after the target cluster has said that the target
-- is gone; and nothing else but events is written in either cluster.
pub network_interface_run-Accepts :
    (k : Machinery) (sh : Shared) (r : Config) (obj : NetworkInterface) {trace : _}
    {result : ReconcileResult}
    → Runs (reconcile_exists k sh r obj) trace result
    → Accepts advance (Allowed (subject k sh r obj)) start trace
network_interface_run-Accepts k sh r obj run =
    Obeys-Runs (subject k sh r obj) _ (reconcile_exists-Obeys k sh r obj) run
