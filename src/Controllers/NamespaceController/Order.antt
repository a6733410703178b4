-- ===== src/Controllers/NamespaceController/Order.antt =====
-- The namespace controller creates at most one target namespace, and keeps its finalizer for it.
use poollet.Base.{
  ℕ, true, false, not, ◌≡◌, refl, List, [], ◌∷◌, Option, none, some, Bool-cases, inl, inr, arith,
  if◌then◌else◌,
}
use poollet.Base.Dict.{insert}
use poollet.Base.Lists.{All}
use poollet.Errors.{Result, ok, err, is_not_found, Error, Result-cases}
use poollet.Api.Metadata.{Machinery, GroupVersionKind, namespace}
use poollet.Api.Objects.{Namespace, meta_object}
use poollet.Multicluster.Meta.{is_controlled_by}
use poollet.Multicluster.OwnerRefs.{set_controller_reference}
use poollet.Prog.{Prog, done, target, live}
use poollet.Prog.Trace.{Runs, Exchange, Accepts, Accepts-Runs, Safe, Safe-bind}
use poollet.Dependents.{Mixin, is_referenced}
use poollet.Dependents.References.{IsUnmoved, is_referenced-Unmoved}
use poollet.SingleClient.{
  broker_controlled_list_single, broker_controlled_list_single_and_delete, list_single,
  if_controlled,
}
use poollet.Controllers.Common.{Config, ReconcileResult, contains_finalizer}
use poollet.Controllers.NamespaceController.Protocol.{
  Seen, unseen, see, IsOurs, AllowedNamespace, IsDeleting,
}
use poollet.Controllers.NamespaceController.{
  delete as delete_namespace, finalizer, by_source_uid, create_target, reconcile_missing, reconcile,
  reconcile_exists, new_target,
}

module _ (k : Machinery) (r : Config) (ns : Namespace) {gvk : GroupVersionKind}
    (known : k.gvk_for_object namespace ≡ ok gvk) where
  -- A namespace that is found is the source's own; one that is not found is missing.
  abbrev Sought : Seen → Result Namespace → Type 0
  Sought s (ok n) = (s.found ≡ some n) × IsOurs k r ns n
  Sought s (err e) = is_not_found (some e) ≡ true → s.missing ≡ true

  abbrev Keeps : {A : Type 0} → Seen → Prog A → Type 0
  Keeps = Safe see (AllowedNamespace k r ns) (λ s a. Unit)

  controlled-Sought :
      (n : Namespace)
      → Safe see
          (AllowedNamespace k r ns)
          Sought
          (record unseen { found = some n })
          (if_controlled k namespace r.cluster_name (meta_object namespace ns) n)
  unfolding is_not_found
  controlled-Sought n =
      elim (Bool-cases (is_controlled_by k r.cluster_name ns.metadata n.metadata)) [
        | inl ours ↦ rw ours (refl, ours)
        | inr foreign ↦ rw foreign (λ h. absurd (ground arith))
      ]

  -- After the list call alone: the one namespace, or the answer that there is none.
  abbrev Listed : Seen → Result Namespace → Type 0
  Listed s (ok n) = s ≡ record unseen { found = some n }
  Listed s (err e) = is_not_found (some e) ≡ true → s.missing ≡ true

  known-Safe :
      (g : Result GroupVersionKind) (p : Prog (Result Namespace))
      → g ≡ ok gvk
      → Safe see (AllowedNamespace k r ns) Listed unseen p
      → Safe see
          (AllowedNamespace k r ns)
          Listed
          unseen
          (elim g [ err e ↦ done (err e) | ok gvk' ↦ p ])
  known-Safe (ok gvk') p h safe = safe
  known-Safe (err e) p h safe = absurd (ground arith)

  list_single-Listed :
      Safe see
        (AllowedNamespace k r ns)
        Listed
        unseen
        (list_single k namespace (live target) (by_source_uid k r ns))
  unfolding list_single is_not_found by_source_uid
  list_single-Listed = known-Safe (k.gvk_for_object namespace) _ known (
    refl,
    elim [
      | err e ↦ λ h. h
      | ok [] ↦ λ h. refl
      | ok (n ∷ []) ↦ refl
      | ok (n ∷ n' ∷ rest) ↦ λ h. absurd (ground arith)
    ],
  )

  list-Sought : Safe see (AllowedNamespace k r ns) Sought unseen (
      broker_controlled_list_single k namespace r.cluster_name
        (meta_object namespace ns)
        (live target)
        (by_source_uid k r ns))
  unfolding broker_controlled_list_single
  list-Sought =
      Safe-bind see (AllowedNamespace k r ns) Listed Sought unseen
        (list_single k namespace (live target) (by_source_uid k r ns)) _ list_single-Listed
        λ s. elim [ err e ↦ λ h. h | ok n ↦ λ h. rw h (controlled-Sought n) ]

  -- After the list and delete calls: an error that reads as not found means that nothing is there.
  abbrev Deleted : Seen → Result (Unit {0}) → Type 0
  Deleted s (ok _) = Unit
  Deleted s (err e) = is_not_found (some e) ≡ true → s.missing ≡ true

  list_and_delete-Deleted :
      IsDeleting k r ns
      → Safe see (AllowedNamespace k r ns) Deleted unseen (
          broker_controlled_list_single_and_delete k namespace r.cluster_name
            (meta_object namespace ns)
            (live target)
            target
            (by_source_uid k r ns))
  unfolding broker_controlled_list_single_and_delete
  list_and_delete-Deleted deleting =
      Safe-bind see (AllowedNamespace k r ns) Sought Deleted unseen
        (broker_controlled_list_single k namespace r.cluster_name (meta_object namespace ns)
          (live target) (by_source_uid k r ns))
        _ list-Sought
        λ s. elim [
          | err e ↦ λ h. h
          | ok n ↦ λ h. ((deleting, n, h.0, h.1, refl), elim [ ok _ ↦ tt | err e ↦ λ gone. gone ])
        ]

  removal-Keeps :
      (s : Seen) (e : Error) (other rest : Prog ReconcileResult)
      → (is_not_found (some e) ≡ true → s.missing ≡ true)
      → Keeps s other
      → (s.missing ≡ true → Keeps s rest)
      → Keeps s (if not (is_not_found (some e)) then other else rest)
  removal-Keeps s e other rest h hother hrest = elim (Bool-cases (is_not_found (some e))) [
    | inl gone ↦ rw gone (hrest (h gone))
    | inr there ↦ rw there hother
  ]

  delete-Keeps :
      (t : ℕ) → ns.metadata.deletion_timestamp ≡ some t → Keeps unseen (delete_namespace k r ns)
  unfolding delete_namespace
  delete-Keeps t deleted =
      elim (Bool-cases (contains_finalizer ns.metadata.finalizers (finalizer k r))) [
        | inr absent ↦ rw absent tt
        | inl present ↦ rw present (
            Safe-bind see (AllowedNamespace k r ns) Deleted (λ s a. Unit) unseen
              (broker_controlled_list_single_and_delete k namespace r.cluster_name
                (meta_object namespace ns) (live target) target (by_source_uid k r ns))
              _ (list_and_delete-Deleted ((t, deleted), present))
              λ s. elim [
                | ok _ ↦ λ h. tt
                | err e ↦ λ h. removal-Keeps s e _ _ h tt λ gone. (
                  ((refl, refl), ((t, deleted), present), gone),
                  elim [ err e' ↦ tt | ok _ ↦ tt ],
                )
              ])
      ]

  create_target-Keeps :
      (s : Seen) → s.missing ≡ true → s.finalized ≡ true → Keeps s (create_target k r ns)
  unfolding create_target new_target insert
  create_target-Keeps s gone finalized =
      elim (Result-cases (
        set_controller_reference k r.cluster_name (meta_object namespace ns) (new_target k r ns))) [
          | inl (metadata, e) ↦ rw e ((gone, finalized, e), elim [ err e' ↦ tt | ok _ ↦ tt ])
          | inr (e, failed) ↦ rw failed tt
        ]

  module _ (dependents : Mixin)
      (unmoved : All (IsUnmoved see (AllowedNamespace k r ns)) dependents) where
    reconcile_missing-Keeps :
        (s : Seen) → s.missing ≡ true → Keeps s (reconcile_missing k r dependents ns)
    unfolding reconcile_missing
    reconcile_missing-Keeps s gone =
        Safe-bind see (AllowedNamespace k r ns) (λ s' a. s' ≡ s) (λ s a. Unit) s
          (is_referenced dependents (meta_object namespace ns)) _
          (is_referenced-Unmoved see (AllowedNamespace k r ns) dependents (meta_object namespace ns)
            unmoved s)
          λ s'. elim [
            | err e ↦ λ h. tt
            | ok false ↦ λ h. rw h (((refl, refl), gone), elim [ err e ↦ tt | ok _ ↦ tt ])
            | ok true ↦ λ h. rw h (
              (refl, refl),
              elim [
                | err e ↦ tt
                | ok true ↦ tt
                | ok false ↦ create_target-Keeps (record s { finalized = true }) gone refl
              ],
            )
          ]

    reconcile-Keeps : Keeps unseen (reconcile k r dependents ns)
    unfolding reconcile
    reconcile-Keeps =
        Safe-bind see (AllowedNamespace k r ns) Sought (λ s a. Unit) unseen
          (broker_controlled_list_single k namespace r.cluster_name (meta_object namespace ns)
            (live target) (by_source_uid k r ns))
          _ list-Sought
          λ s. elim [
            | err e ↦ λ h. removal-Keeps s e _ _ h tt λ gone. reconcile_missing-Keeps s gone
            | ok n ↦ λ h. ((refl, refl), elim [ err e ↦ tt | ok _ ↦ tt ])
          ]

    exists-Keeps :
        (deletion_timestamp : Option ℕ)
        → ns.metadata.deletion_timestamp ≡ deletion_timestamp
        → Keeps unseen (elim deletion_timestamp [
          | some _ ↦ delete_namespace k r ns
          | none ↦ reconcile k r dependents ns
        ])
    exists-Keeps (some t) deleted = delete-Keeps t deleted
    exists-Keeps none kept = reconcile-Keeps

    reconcile_exists-Keeps : Keeps unseen (reconcile_exists k r dependents ns)
    unfolding reconcile_exists
    reconcile_exists-Keeps = exists-Keeps ns.metadata.deletion_timestamp refl

-- In every run of the namespace controller, if namespaces are a registered type, and looking for
-- references makes only the calls that are allowed here and none that changes what was found:
-- target namespaces are listed only on the server, by the label with the UID of the source; one is
-- created only after the target cluster has said that there is none, with the finalizer in place on
-- the source, with that label alone and with what setting the source as the controller makes of its
-- metadata; only the one namespace that the list has given, and that the source controls, is
-- deleted; the finalizer is put on no other object than the source, and removed from it only after
-- the target cluster has said that the target namespace is gone; the deletion and the removal
-- happen only if the source is being deleted and has the finalizer; and nothing else is written,
-- but that the finalizer is also taken off the source's name in the target cluster once no target
-- was found.
pub namespace_run-Accepts :
    (k : Machinery) (r : Config) (dependents : Mixin) (ns : Namespace) {gvk : GroupVersionKind}
    {trace : List Exchange} {result : ReconcileResult}
    → k.gvk_for_object namespace ≡ ok gvk
    → All (IsUnmoved see (AllowedNamespace k r ns)) dependents
    → Runs (reconcile_exists k r dependents ns) trace result
    → Accepts see (AllowedNamespace k r ns) unseen trace
namespace_run-Accepts k r dependents ns known unmoved run =
    (Accepts-Runs see (AllowedNamespace k r ns) (λ s a. Unit) run unseen
      (reconcile_exists-Keeps k r ns known dependents unmoved)).0
