-- ===== src/Controllers/VirtualIp/Order.antt =====
-- The virtual IP controller keeps to the protocol, whatever the clusters reply.
use poollet.Base.{refl, Bool-cases, inl, inr, some}
use poollet.Errors.{ok, err, ignore_not_synced}
use poollet.Api.Metadata.{Machinery, virtual_ip}
use poollet.Api.Objects.{VirtualIp}
use poollet.Prog.{◌>>?◌, done}
use poollet.Prog.Trace.{Runs, Accepts}
use poollet.Protocol.{Allowed, advance, start, Subject, Unpatched}
use poollet.Protocol.Quiet.{Quiet, Quiet-option}
use poollet.Helpers.{Shared}
use poollet.Usage.Reading.{is_virtual_ip_used-Reads}
use poollet.Sync.{CompositeMutationBuilder, empty_builder, add}
use poollet.Controllers.Common.{
  Config, contains_finalizer, ReconcileResult, returned, direct_target_namespace,
}
use poollet.Controllers.Obeys.{
  Obeys, target_namespace_for-Finds, direct_target_namespace-Finds, delete_shape-Obeys,
  reconcile_shape-Obeys, used_shape-Obeys, exists_shape-Obeys, Obeys-Runs,
}
use poollet.Controllers.Apply.{with_target-Quiet, apply_shape-Obeys, requeue_partial}
use poollet.Controllers.VirtualIp.{
  finalizer, delete, reconcile, reconcile_exists, register_target_ref_mutation, apply_target,
  register_default_mutation, fresh_target, set_defaults,
}

module _ (k : Machinery) (sh : Shared) (r : Config) (obj : VirtualIp) where
  abbrev pub subject : Subject
  subject = record {
    kind = virtual_ip;
    obj = obj;
    finalizer = finalizer k sh r;
    IsPatch = Unpatched;
  }

  delete-Obeys : Obeys subject start (delete k sh r obj)
  unfolding delete
  delete-Obeys = elim (Bool-cases (contains_finalizer obj.metadata.finalizers (finalizer k sh r))) [
    | inl present ↦ rw present (
        delete_shape-Obeys subject (direct_target_namespace obj.metadata)
          (direct_target_namespace-Finds subject) (λ e. returned (ignore_not_synced (some e)))
          present)
    | inr absent ↦ rw absent tt
  ]

  register_target_ref_mutation-Quiet :
      (b : CompositeMutationBuilder VirtualIp) → Quiet (register_target_ref_mutation k sh r obj b)
  unfolding register_target_ref_mutation
  register_target_ref_mutation-Quiet b =
      Quiet-option obj.target_ref _ _ tt λ ref. search with_target-Quiet

  reconcile-Obeys : Obeys subject start (reconcile k sh r obj)
  unfolding reconcile apply_target register_default_mutation
  reconcile-Obeys = reconcile_shape-Obeys subject _ (target_namespace_for-Finds subject) _ _ _ λ ns.
      apply_shape-Obeys subject k r.cluster_name (fresh_target k sh r ns obj) ns
        (done (register_default_mutation k sh r obj empty_builder)
          >>? register_target_ref_mutation k sh r obj)
        requeue_partial refl refl
        (register_target_ref_mutation-Quiet (add (set_defaults k sh r obj) empty_builder))
        λ s. elim [ err e ↦ λ h. tt | ok _ ↦ λ h. tt ]

  reconcile_exists-Obeys : Obeys subject start (reconcile_exists k sh r obj)
  unfolding reconcile_exists
  reconcile_exists-Obeys =
      exists_shape-Obeys subject obj.metadata.deletion_timestamp (delete k sh r obj) _ delete-Obeys
        (used_shape-Obeys subject _ (delete k sh r obj) (reconcile k sh r obj)
          (is_virtual_ip_used-Reads sh r.pool_name obj) delete-Obeys reconcile-Obeys)

-- In every run of the virtual IP controller: the target is written only after the controller's
-- finalizer is in place on the source, in the target namespace that the provider has named and
-- under the name of the source; only the object of that kind, namespace and name is deleted, and
-- only if the source has the finalizer; the finalizer is put on no other object than the source,
-- and is removed from the source only after the target cluster has said that the target is gone;
-- and nothing else but events is written in either cluster.
pub virtual_ip_run-Accepts :
    (k : Machinery) (sh : Shared) (r : Config) (obj : VirtualIp) {trace : _}
    {result : ReconcileResult}
    → Runs (reconcile_exists k sh r obj) trace result
    → Accepts advance (Allowed (subject k sh r obj)) start trace
virtual_ip_run-Accepts k sh r obj run =
    Obeys-Runs (subject k sh r obj) _ (reconcile_exists-Obeys k sh r obj) run
