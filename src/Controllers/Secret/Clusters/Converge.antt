-- ===== src/Controllers/Secret/Clusters/Converge.antt =====
-- A secret that is used gets its target after two reconciliations.
use poollet.Base.{
  Bool, true, false, ◌==◌, ◌≡◌, refl, ℕ, Option, none, some, arith, ◌∙◌, ap, if◌then◌else◌,
}
use poollet.Errors.{Result, ok, err}
use poollet.Api.Metadata.{Machinery, MetaObject, GroupVersionKind, secret}
use poollet.Api.Objects.{Secret, Namespace, meta_object}
use poollet.Prog.{Prog, done, ◌>>=◌}
use poollet.Provider.{target_namespace_for}
use poollet.Dependents.{Mixin, is_referenced}
use poollet.Multicluster.Meta.Annotation.{IsLossless}
use poollet.Multicluster.Meta.{is_controlled_by}
use poollet.Multicluster.OwnerRefs.{set_controller_reference}
use poollet.BrokerClient.{broker_controlled_create_or_patch, broker_controlled_mutate}
use poollet.Controllers.Common.{Config, contains_finalizer, no_requeue, requeue, ReconcileResult}
use poollet.Controllers.Apply.{key_of}
use poollet.Controllers.Secret.{finalizer, delete, reconcile, reconcile_exists, handle, copy_data}
use poollet.Controllers.Secret.Clusters.{Clusters, Api, IsApi, exec, exec-bind, finalized}
use poollet.Controllers.Secret.Clusters.Made.{
  made, synced, with_finalizer, made-IsOwned, again, contains_finalizer-append, claimed-fresh,
}
use poollet.Controllers.Secret.Clusters.Progress.{exec-handle}

kept-is : {A : Type 0} (d : Option ℕ) (p q : A) → d ≡ none → (elim d [ some _ ↦ p | none ↦ q ]) ≡ q
kept-is none p q h = refl
kept-is (some d) p q h = absurd (ground arith)

module _ (k : Machinery) (r : Config) (dependents : Mixin) (target_namespace : Namespace)
    (api : Api) (law : IsApi api target_namespace)
    (used : (w : Clusters) (o : MetaObject)
      → exec api w (is_referenced dependents o) ≡ (w, ok true)) where
  abbrev by_use : Secret → Result Bool → Prog ReconcileResult
  by_use obj (err e) = done (err e)
  by_use obj (ok false) = delete k r obj
  by_use obj (ok true) = reconcile k r obj

  used-exists :
      (obj : Secret) (t : Option Secret)
      → obj.metadata.deletion_timestamp ≡ none
      → exec api
          (record { source_secret = some obj; target_secret = t })
          (reconcile_exists k r dependents obj)
        ≡ exec api (record { source_secret = some obj; target_secret = t }) (reconcile k r obj)
  unfolding reconcile_exists
  used-exists obj t kept =
      let w : Clusters = record { source_secret = some obj; target_secret = t } in
      ap (exec api w) (
        kept-is obj.metadata.deletion_timestamp (delete k r obj)
          (is_referenced dependents (meta_object secret obj) >>= by_use obj) kept)
      ∙ exec-bind api w (is_referenced dependents (meta_object secret obj)) (by_use obj)
      ∙ ap (λ (x : Clusters × Result Bool). exec api x.0 (by_use obj x.1))
          (used w (meta_object secret obj))

  finalizer-first :
      (obj : Secret) (t : Option Secret)
      → (obj.metadata.namespace == "") ≡ false
      → contains_finalizer obj.metadata.finalizers (finalizer k r) ≡ false
      → exec api (record { source_secret = some obj; target_secret = t }) (reconcile k r obj) ≡ (
        record { source_secret = some (finalized (finalizer k r) obj); target_secret = t },
        requeue,
      )
  unfolding reconcile target_namespace_for
  finalizer-first obj t named absent = rw named (
      rw (exec, law.provides _ _, law.provides_only _ _)
        (rw (exec, law.ensures _ _ _, law.ensures_it _ _ _) (rw absent refl)))

  target-then :
      (obj : Secret) (gvk : GroupVersionKind)
      → (obj.metadata.namespace == "") ≡ false
      → contains_finalizer obj.metadata.finalizers (finalizer k r) ≡ true
      → k.gvk_for_object secret ≡ ok gvk
      → exec api (record { source_secret = some obj; target_secret = none }) (reconcile k r obj) ≡ (
        record {
          source_secret = some obj;
          target_secret = some (made k r target_namespace gvk obj);
        },
        no_requeue,
      )
  unfolding reconcile target_namespace_for broker_controlled_create_or_patch
      broker_controlled_mutate copy_data set_controller_reference
  target-then obj gvk named held known = rw named (
      rw (exec, law.provides _ _, law.provides_only _ _)
        (rw (exec, law.ensures _ _ _, law.ensures_it _ _ _)
          (rw held (
            rw (exec, law.applies _ _ _, law.applies_it _ _ _)
              (rw
                (claimed-fresh k r.cluster_name obj gvk target_namespace.metadata.name
                  obj.metadata.name known)
                refl)))))

  stays :
      (lossless : IsLossless k) (obj : Secret) (gvk : GroupVersionKind)
      → k.gvk_for_object secret ≡ ok gvk
      → (obj.metadata.namespace == "") ≡ false
      → contains_finalizer obj.metadata.finalizers (finalizer k r) ≡ true
      → exec api (synced k r target_namespace gvk obj) (reconcile k r obj)
        ≡ (synced k r target_namespace gvk obj, no_requeue)
  unfolding reconcile target_namespace_for broker_controlled_create_or_patch
      broker_controlled_mutate copy_data
  stays lossless obj gvk known named held = rw named (
      rw (exec, law.provides _ _, law.provides_only _ _)
        (rw (exec, law.ensures _ _ _, law.ensures_it _ _ _)
          (rw held (
            rw
              (
                exec,
                law.applies _ _ _,
                law.applies_it _ _ _,
                again k r target_namespace lossless obj gvk known,
              )
              refl))))

  abbrev pub run : Clusters → Secret → Clusters × ReconcileResult
  run w obj = exec api w (handle k r dependents (key_of obj.metadata))

  handled :
      (obj : Secret) (t : Option Secret)
      → obj.metadata.deletion_timestamp ≡ none
      → run (record { source_secret = some obj; target_secret = t }) obj
        ≡ exec api (record { source_secret = some obj; target_secret = t }) (reconcile k r obj)
  handled obj t kept =
      exec-handle k r dependents target_namespace api law obj t ∙ used-exists obj t kept

  absent-first :
      (obj : Secret)
      → obj.metadata.deletion_timestamp ≡ none
      → (obj.metadata.namespace == "") ≡ false
      → contains_finalizer obj.metadata.finalizers (finalizer k r) ≡ false
      → run (record { source_secret = some obj; target_secret = none }) obj ≡ (
        record {
          source_secret = some (with_finalizer k r target_namespace obj);
          target_secret = none;
        },
        requeue,
      )
  absent-first obj kept named absent =
      handled obj none kept
      ∙ finalizer-first obj none named absent
      ∙ ap
          (λ b. (
            record {
              source_secret = some (if b then obj else with_finalizer k r target_namespace obj);
              target_secret = none;
            },
            requeue,
          ))
          absent

  -- A secret is used, is not being deleted, is in a namespace that has a target namespace, and has
  -- neither the finalizer nor a target; and the encoder loses nothing. If nobody else writes, two
  -- reconciliations put the finalizer on it and make the target, with the contents of the secret
  -- and controlled by it, and a third one changes nothing.
  pub handle-converges :
      (lossless : IsLossless k) (obj : Secret) (gvk : GroupVersionKind)
      → k.gvk_for_object secret ≡ ok gvk
      → obj.metadata.deletion_timestamp ≡ none
      → (obj.metadata.namespace == "") ≡ false
      → contains_finalizer obj.metadata.finalizers (finalizer k r) ≡ false
      → (run (run (record { source_secret = some obj; target_secret = none }) obj).0 obj
          ≡ (synced k r target_namespace gvk (with_finalizer k r target_namespace obj), no_requeue))
        × (run (synced k r target_namespace gvk (with_finalizer k r target_namespace obj)) obj ≡ (
          synced k r target_namespace gvk (with_finalizer k r target_namespace obj),
          no_requeue,
        ))
        × ((made k r target_namespace gvk (with_finalizer k r target_namespace obj)).contents
            ≡ obj.contents)
        × (is_controlled_by k r.cluster_name obj.metadata
              (made k r target_namespace gvk (with_finalizer k r target_namespace obj)).metadata
            ≡ true)
  unfolding is_controlled_by
  handle-converges lossless obj gvk known kept named absent =
      let held = contains_finalizer-append obj.metadata.finalizers (finalizer k r) in
      (
        ap (λ (w : Clusters × ReconcileResult). run w.0 obj) (absent-first obj kept named absent)
            ∙ handled (with_finalizer k r target_namespace obj) none kept
            ∙ target-then (with_finalizer k r target_namespace obj) gvk named held known,
        handled (with_finalizer k r target_namespace obj)
              (some (made k r target_namespace gvk (with_finalizer k r target_namespace obj))) kept
            ∙ stays lossless (with_finalizer k r target_namespace obj) gvk known named held,
        refl,
        made-IsOwned k r target_namespace lossless (with_finalizer k r target_namespace obj) gvk
            known,
      )
