-- ===== src/Controllers/ConfigMap/Order.antt =====
-- The config map controller keeps to the protocol, whatever the clusters reply.
use poollet.Base.{refl, Bool-cases, inl, inr}
use poollet.Base.Lists.{All}
use poollet.Api.Metadata.{Machinery, config_map}
use poollet.Api.Objects.{ConfigMap, meta_object}
use poollet.Prog.Trace.{Runs, Accepts}
use poollet.Protocol.{Allowed, advance, start, Subject, Unpatched}
use poollet.Dependents.{Mixin}
use poollet.Dependents.References.{IsReadOnly, is_referenced-Reads}
use poollet.Controllers.Common.{Config, contains_finalizer, ReconcileResult}
use poollet.Controllers.Obeys.{
  Obeys, target_namespace_for-Finds, delete_shape-Obeys, reconcile_shape-Obeys, used_shape-Obeys,
  exists_shape-Obeys, Obeys-Runs,
}
use poollet.Controllers.ConfigMap.{finalizer, delete, reconcile, reconcile_exists}
use poollet.Errors.{ok, err}

module _ (k : Machinery) (r : Config) (obj : ConfigMap) where
  abbrev pub subject : Subject
  subject = record { kind = config_map; obj = obj; finalizer = finalizer k r; IsPatch = Unpatched }

  delete-Obeys : Obeys subject start (delete k r obj)
  unfolding delete
  delete-Obeys = elim (Bool-cases (contains_finalizer obj.metadata.finalizers (finalizer k r))) [
    | inl present ↦
        rw present (delete_shape-Obeys subject _ (target_namespace_for-Finds subject) _ present)
    | inr absent ↦ rw absent tt
  ]

  reconcile-Obeys : Obeys subject start (reconcile k r obj)
  unfolding reconcile
  reconcile-Obeys =
      reconcile_shape-Obeys subject _ (target_namespace_for-Finds subject) _ _ _
        λ ns. ((refl, refl, refl, refl), elim [ err e ↦ tt | ok _ ↦ tt ])

  reconcile_exists-Obeys :
      (dependents : Mixin)
      → All IsReadOnly dependents
      → Obeys subject start (reconcile_exists k r dependents obj)
  unfolding reconcile_exists
  reconcile_exists-Obeys dependents reads =
      exists_shape-Obeys subject obj.metadata.deletion_timestamp (delete k r obj) _ delete-Obeys (
        used_shape-Obeys subject _ (delete k r obj) (reconcile k r obj)
          (is_referenced-Reads dependents (meta_object config_map obj) reads) delete-Obeys
          reconcile-Obeys)

-- In every run of the config map controller, if the dependents only read: the target is written
-- only after the controller's finalizer is in place on the source, in the target namespace that the
-- provider has named and under the name of the source; only the object of that kind, namespace and
-- name is deleted, and only if the source has the finalizer; the finalizer is put on no other
-- object than the source, and is removed from the source only after the target cluster has said
-- that the target is gone; and nothing else but events is written in either cluster.
pub config_map_run-Accepts :
    (k : Machinery) (r : Config) (dependents : Mixin) (obj : ConfigMap) {trace : _}
    {result : ReconcileResult}
    → All IsReadOnly dependents
    → Runs (reconcile_exists k r dependents obj) trace result
    → Accepts advance (Allowed (subject k r obj)) start trace
config_map_run-Accepts k r dependents obj reads run =
    Obeys-Runs (subject k r obj) _ (reconcile_exists-Obeys k r obj dependents reads) run
