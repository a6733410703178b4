-- ===== src/Controllers/Secret/Clusters/Progress.antt =====
-- A secret that is deleted while the secret controller runs is gone after two reconciliations.
use poollet.Base.{true, false, ◌==◌, ◌≡◌, refl, ℕ, Option, none, some, arith, eq_refl, ◌∙◌, ap}
use poollet.Errors.{Result, ok, err, ignore_not_found}
use poollet.Api.Metadata.{Machinery}
use poollet.Api.Objects.{Secret, Namespace}
use poollet.Prog.{ObjectKey, Prog, done}
use poollet.Provider.{target_namespace_for}
use poollet.Dependents.{Mixin}
use poollet.Handlers.{key_eq}
use poollet.Controllers.Common.{
  Config, contains_finalizer, key_in, no_requeue, requeue, ReconcileResult, returned,
}
use poollet.Controllers.Apply.{key_of}
use poollet.Controllers.Secret.{finalizer, delete, reconcile_exists, handle}
use poollet.Controllers.Secret.Clusters.{Clusters, Api, IsApi, exec, released, found, exists}

pub key_eq_self : (key : ObjectKey) → key_eq key key ≡ true
key_eq_self key = ground (arith, eq_refl key.namespace, eq_refl key.name)

module _ (k : Machinery) (r : Config) (dependents : Mixin) (target_namespace : Namespace)
    (api : Api) (law : IsApi api target_namespace) (obj : Secret) where
  abbrev pub clusters : Option Secret → Clusters
  clusters t = record { source_secret = some obj; target_secret = t }

  pub found_self : (s : Secret) → found (key_of s.metadata) (some s) ≡ ok s
  found_self s = ground (arith, eq_refl s.metadata.namespace, eq_refl s.metadata.name)

  abbrev pub got : Result Secret → Prog ReconcileResult
  got (err e) = done (returned (ignore_not_found (some e)))
  got (ok o) = reconcile_exists k r dependents o

  pub exec-handle :
      (t : Option Secret)
      → exec api (clusters t) (handle k r dependents (key_of obj.metadata))
        ≡ exec api (clusters t) (reconcile_exists k r dependents obj)
  unfolding handle
  exec-handle t =
      rw (law.gets _ _, law.gets_only _ _)
        (ap (λ x. exec api (clusters t) (got x)) (found_self obj))

  delete-once :
      (t : Secret) (now : ℕ)
      → obj.metadata.deletion_timestamp ≡ some now
      → contains_finalizer obj.metadata.finalizers (finalizer k r) ≡ true
      → (obj.metadata.namespace == "") ≡ false
      → exists (key_in target_namespace.metadata.name obj.metadata) (some t) ≡ true
      → exec api (clusters (some t)) (reconcile_exists k r dependents obj)
        ≡ (clusters none, requeue)
  unfolding reconcile_exists delete target_namespace_for
  delete-once t now deleted held named at =
      rw (deleted, held, named)
        (rw (exec, law.provides _ _, law.provides_only _ _)
          (rw (exec, law.deletes _ _, law.deletes_it _ _) (ground (arith, at))))

  delete-twice :
      (now : ℕ)
      → obj.metadata.deletion_timestamp ≡ some now
      → contains_finalizer obj.metadata.finalizers (finalizer k r) ≡ true
      → (obj.metadata.namespace == "") ≡ false
      → exec api (clusters none) (reconcile_exists k r dependents obj) ≡ (
        record { source_secret = released (finalizer k r) obj; target_secret = none },
        no_requeue,
      )
  unfolding reconcile_exists delete target_namespace_for
  delete-twice now deleted held named =
      rw (deleted, held, named)
        (rw (exec, law.provides _ _, law.provides_only _ _)
          (rw (exec, law.deletes _ _, law.deletes_it _ _)
            (rw (exec, law.removes _ _ _, law.removes_it _ _ _) refl)))

  -- A secret is being deleted, holds the finalizer, is in a namespace that has a target namespace,
  -- and its target exists. If nobody else writes, two reconciliations delete the target and then
  -- remove the finalizer, with which the secret is gone unless it has other finalizers.
  pub handle-completes_deletion :
      (t : Secret) (now : ℕ)
      → obj.metadata.deletion_timestamp ≡ some now
      → contains_finalizer obj.metadata.finalizers (finalizer k r) ≡ true
      → (obj.metadata.namespace == "") ≡ false
      → exists (key_in target_namespace.metadata.name obj.metadata) (some t) ≡ true
      → exec api
          (exec api (clusters (some t)) (handle k r dependents (key_of obj.metadata))).0
          (handle k r dependents (key_of obj.metadata))
        ≡ (
          record { source_secret = released (finalizer k r) obj; target_secret = none },
          no_requeue,
        )
  handle-completes_deletion t now deleted held named at =
      let first = exec-handle (some t) ∙ delete-once t now deleted held named at in
      ap
        (λ (w : Clusters × ReconcileResult).
          exec api w.0 (handle k r dependents (key_of obj.metadata)))
        first
      ∙ exec-handle none
      ∙ delete-twice now deleted held named
