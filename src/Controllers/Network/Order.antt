-- ===== src/Controllers/Network/Order.antt =====
-- The network controller keeps to the protocol, whatever the clusters reply.
use poollet.Base.{some, refl, Bool-cases, inl, inr}
use poollet.Errors.{ok, err, ignore_not_synced}
use poollet.Api.Metadata.{Machinery, network}
use poollet.Api.Objects.{Network}
use poollet.Prog.Trace.{Runs, Accepts}
use poollet.Protocol.{Allowed, advance, start, Subject, Unpatched}
use poollet.Helpers.{Shared}
use poollet.Usage.Reading.{is_network_used-Reads}
use poollet.Controllers.Common.{
  Config, contains_finalizer, ReconcileResult, direct_target_namespace, returned,
}
use poollet.Controllers.Obeys.{
  Obeys, target_namespace_for-Finds, direct_target_namespace-Finds, delete_shape-Obeys,
  reconcile_shape-Obeys, used_shape-Obeys, exists_shape-Obeys, Obeys-Runs,
}
use poollet.Controllers.Network.{finalizer, delete, reconcile, reconcile_exists}

module _ (k : Machinery) (sh : Shared) (r : Config) (obj : Network) where
  abbrev pub subject : Subject
  subject = record { kind = network; obj = obj; finalizer = finalizer k sh r; IsPatch = Unpatched }

  delete-Obeys : Obeys subject start (delete k sh r obj)
  unfolding delete
  delete-Obeys = elim (Bool-cases (contains_finalizer obj.metadata.finalizers (finalizer k sh r))) [
    | inl present ↦ rw present (
        delete_shape-Obeys subject (direct_target_namespace obj.metadata)
          (direct_target_namespace-Finds subject) (λ e. returned (ignore_not_synced (some e)))
          present)
    | inr absent ↦ rw absent tt
  ]

  reconcile-Obeys : Obeys subject start (reconcile k sh r obj)
  unfolding reconcile
  reconcile-Obeys =
      reconcile_shape-Obeys subject _ (target_namespace_for-Finds subject) _ _ _
        λ ns. ((refl, refl, refl, refl), elim [ err e ↦ tt | ok _ ↦ tt ])

  reconcile_exists-Obeys : Obeys subject start (reconcile_exists k sh r obj)
  unfolding reconcile_exists
  reconcile_exists-Obeys =
      exists_shape-Obeys subject obj.metadata.deletion_timestamp (delete k sh r obj) _ delete-Obeys
        (used_shape-Obeys subject _ (delete k sh r obj) (reconcile k sh r obj)
          (is_network_used-Reads sh r.pool_name obj) delete-Obeys reconcile-Obeys)

-- In every run of the network controller: the target is written only after the controller's
-- finalizer is in place on the source, in the target namespace that the provider has named and
-- under the name of the source; only the object of that kind, namespace and name is deleted, and
-- only if the source has the finalizer; the finalizer is put on no other object than the source,
-- and is removed from the source only after the target cluster has said that the target is gone;
-- and nothing else but events is written in either cluster.
pub network_run-Accepts :
    (k : Machinery) (sh : Shared) (r : Config) (obj : Network) {trace : _}
    {result : ReconcileResult}
    → Runs (reconcile_exists k sh r obj) trace result
    → Accepts advance (Allowed (subject k sh r obj)) start trace
network_run-Accepts k sh r obj run =
    Obeys-Runs (subject k sh r obj) _ (reconcile_exists-Obeys k sh r obj) run
