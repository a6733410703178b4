-- ===== src/Handlers/BrokerOwner.antt =====
-- An object that a source controls leads back to that source, and nothing else is requested.
use poollet.Base.{
  String, true, false, ◌≡◌, refl, ◌∙◌, ap, none, some, [], ◌∷◌, arith, eq_refl, eq_iff, inl, inr,
}
use poollet.Errors.{ok, Result-cases}
use poollet.Api.Metadata.{Machinery, Metadata, Kind, GroupVersionKind}
use poollet.Multicluster.Meta.{get_owner_references, get_controller_of, first_controller}
use poollet.Multicluster.Meta.Annotation.{IsLossless}
use poollet.Multicluster.OwnerRefs.{
  set_controller_reference, ref_to, upsert_owner_ref, owned_by_another, reference_to,
}
use poollet.Multicluster.OwnerRefs.Controllers.{first_controller-put}
use poollet.Multicluster.OwnerRefs.Objects.{ParsesPrinted, refs-upsert}
use poollet.Api.Objects.{Namespace}
use poollet.Handlers.{
  filter_namespace, BrokerOwnerHandler, broker_owner_handler, enqueue, create, key_of_ref,
  get_owner_reconcile_request, get_broker_owner_references, add_requests,
}

module _ (k : Machinery) (lossless : IsLossless k) where
  -- After `SetControllerReference` has succeeded, the new reference is what `GetControllerOf` finds.
  pub controller_of-set_controller_reference :
      (cluster_name : String) (kind : Kind) (gvk : GroupVersionKind) (owner child child' : Metadata)
      → k.gvk_for_object kind ≡ ok gvk
      → set_controller_reference k cluster_name
          (record { kind = some kind; metadata = owner })
          child
        ≡ ok child'
      → get_controller_of k child' ≡ some (ref_to k cluster_name gvk owner (some true))
  unfolding set_controller_reference get_controller_of
  controller_of-set_controller_reference cluster_name kind gvk owner child child' known h =
      let ref = ref_to k cluster_name gvk owner (some true) in
      let free : owned_by_another k (get_controller_of k child) ref ≡ none =
        ground (arith, known) in
      let e : child' ≡ upsert_owner_ref k ref child = ground (arith, known) in
      ap (λ obj. first_controller (get_owner_references k obj)) e
      ∙ rw (refs-upsert k lossless ref child) (first_controller-put k ref _ refl free)

  -- A target is created with its source as controller. If printed group versions parse, the event of
  -- its creation requests the source, and only that, from a handler for controllers of the source's
  -- kind and cluster.
  pub enqueue-set_controller_reference :
      (printed : ParsesPrinted k) (cluster_name : String) (kind : Kind) (e : BrokerOwnerHandler)
      (owner child child' : Metadata)
      → broker_owner_handler k cluster_name true kind ≡ ok e
      → set_controller_reference k cluster_name
          (record { kind = some kind; metadata = owner })
          child
        ≡ ok child'
      → enqueue k e (create child') ≡ record { namespace = owner.namespace; name = owner.name } ∷ []
  unfolding broker_owner_handler enqueue get_owner_reconcile_request get_broker_owner_references
      add_requests reference_to
  enqueue-set_controller_reference printed cluster_name kind e owner child child' made h =
      elim (Result-cases (k.gvk_for_object kind)) [
        | inr (e', failed) ↦ absurd (ground arith)
        | inl (gvk, known) ↦
            let ref = ref_to k cluster_name gvk owner (some true) in
            let c : get_controller_of k child' ≡ some ref =
              controller_of-set_controller_reference cluster_name kind gvk owner child child' known
                h in
            let parsed : k.parse_group_version (k.print_group_version gvk.group_version)
                ≡ ok gvk.group_version =
              printed.parse-print kind known in
            let e' : BrokerOwnerHandler = record {
              cluster_name = cluster_name;
              is_controller = true;
              group = gvk.group_version.group;
              kind = gvk.kind;
            } in
            let same : e ≡ e' = ground (arith, known) in
            let refs : get_broker_owner_references k e' child' ≡ ref ∷ [] = ground (arith, c) in
            let added : add_requests k e' (ref ∷ []) [] ≡ key_of_ref k ref ∷ [] = ground (
              arith,
              parsed,
              eq_refl cluster_name,
              eq_refl gvk.kind,
              eq_refl gvk.group_version.group,
            ) in
            rw same (rw refs added)
      ]

  -- A namespace that was made the target of a namespace is passed over by the namespace filter of
  -- the same cluster's broker, so the objects in a target namespace are not synced once more.
  pub filter_namespace-set_controller_reference :
      (cluster_name : String) (kind : Kind) (gvk : GroupVersionKind) (owner : Metadata)
      (child : Metadata) (ns : Namespace)
      → k.gvk_for_object kind ≡ ok gvk
      → gvk.kind ≡ "Namespace"
      → set_controller_reference k cluster_name
          (record { kind = some kind; metadata = owner })
          child
        ≡ ok ns.metadata
      → filter_namespace k cluster_name ns ≡ false
  unfolding filter_namespace reference_to
  filter_namespace-set_controller_reference cluster_name kind gvk owner child ns known named h =
      let c =
        controller_of-set_controller_reference cluster_name kind gvk owner child ns.metadata known
          h in
      rw c (ground (arith, eq_refl cluster_name, (eq_iff gvk.kind "Namespace").1 named))
