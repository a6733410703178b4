-- ===== src/Multicluster/OwnerRefs/Objects.antt =====
-- The functions of multicluster/controllerutil/controllerutil.go on whole objects.
use poollet.Base.{
  String, true, false, ◌≡◌, refl, ◌∙◌, ap, none, some, arith, Option-cases, inl, inr, eq_iff,
}
use poollet.Errors.{ok, Result-cases}
use poollet.Api.Metadata.{Machinery, Metadata, MetaObject, Kind, GroupVersionKind}
use poollet.Multicluster.Reference.{OwnerReference}
use poollet.Multicluster.Meta.{
  get_owner_references, get_controller_of, first_controller, is_controlled_by,
}
use poollet.Multicluster.Meta.Annotation.{IsLossless, get-set_owner_references}
use poollet.Multicluster.OwnerRefs.{
  refer_same_object, owned_by_another, set_controller_reference, set_owner_reference,
  remove_owner_reference, has_owner_reference, upsert_owner_ref, remove_owner_ref, upserted, gvk_of,
  ref_to, reference_to,
}
use poollet.Multicluster.OwnerRefs.Upsert.{
  has, put, Distinct, upserted-eq-put, put-Distinct, has-put, index-eq-has,
}
use poollet.Multicluster.OwnerRefs.Controllers.{
  HasOneController, put-HasOneController, put-HasOneController_plain, first_controller-put,
}
use poollet.Multicluster.OwnerRefs.Removed.{refs-removed}

module _ (k : Machinery) where
  -- No owner is named twice, and at most one is the controller.
  pub record IsValid (obj : Metadata) : Type 0 where
    pub distinct : Distinct k (get_owner_references k obj)
    pub one_controller : HasOneController (get_owner_references k obj)

module _ (k : Machinery) (lossless : IsLossless k) where
  pub refs-upsert :
      (ref : OwnerReference) (obj : Metadata)
      → get_owner_references k (upsert_owner_ref k ref obj) ≡ put k ref (get_owner_references k obj)
  unfolding upsert_owner_ref
  refs-upsert ref obj =
      get-set_owner_references k lossless obj (upserted k (get_owner_references k obj) ref)
      ∙ upserted-eq-put k (get_owner_references k obj) ref

  -- What a successful `SetControllerReference` has done.
  set_controller_reference-ok :
      (cluster_name : String) (owner : MetaObject) (child child' : Metadata)
      → set_controller_reference k cluster_name owner child ≡ ok child'
      → (ref : OwnerReference) × (owned_by_another k (get_controller_of k child) ref ≡ none)
        × (child' ≡ upsert_owner_ref k ref child)
        × (ref.controller ≡ some true)
        × (ref.cluster_name ≡ cluster_name)
        × (ref.uid ≡ owner.metadata.uid)
  unfolding set_controller_reference
  set_controller_reference-ok cluster_name owner child child' h =
      elim (Result-cases (gvk_of k "cannot call SetControllerReference" owner.kind)) [
        | inr (e, failed) ↦ absurd (ground arith)
        | inl (gvk, found) ↦ (
          ref_to k cluster_name gvk owner.metadata (some true),
          ground arith,
          ground arith,
          refl,
          refl,
          refl,
        )
      ]

  -- An object whose owners are distinct with at most one controller keeps that when a controller
  -- reference is set.
  pub set_controller_reference-IsValid :
      (cluster_name : String) (owner : MetaObject) (child child' : Metadata)
      → IsValid k child
      → set_controller_reference k cluster_name owner child ≡ ok child'
      → IsValid k child'
  set_controller_reference-IsValid cluster_name owner child child' v h =
      let (ref, free, e, flagged, named, same_uid) =
        set_controller_reference-ok cluster_name owner child child' h in
      rw e (record {
        distinct = rw (refs-upsert ref child) (put-Distinct k ref _ v.distinct);
        one_controller = rw (refs-upsert ref child) (
            put-HasOneController k ref _ (unfold get_controller_of in free) v.distinct
              v.one_controller);
      })

  -- After `SetControllerReference` has succeeded, `IsControlledBy` confirms the owner.
  pub is_controlled_by-set_controller_reference :
      (cluster_name : String) (owner : MetaObject) (child child' : Metadata)
      → set_controller_reference k cluster_name owner child ≡ ok child'
      → is_controlled_by k cluster_name owner.metadata child' ≡ true
  unfolding is_controlled_by
  is_controlled_by-set_controller_reference cluster_name owner child child' h =
      let (ref, free, e, flagged, named, same_uid) =
        set_controller_reference-ok cluster_name owner child child' h in
      let first : first_controller (get_owner_references k child') ≡ some ref =
        ap (λ obj. first_controller (get_owner_references k obj)) e
        ∙ rw (refs-upsert ref child) (first_controller-put k ref _ (ground arith) free) in
      ground (arith, first, eq_iff ref.cluster_name cluster_name, eq_iff ref.uid owner.metadata.uid)

-- What the scheme and the parser of group versions promise together: the printed group version of
-- a registered type parses.
pub record ParsesPrinted (k : Machinery) : Type 0 where
  pub parse-print :
      (kind : Kind) {gvk : GroupVersionKind}
      → k.gvk_for_object kind ≡ ok gvk
      → k.parse_group_version (k.print_group_version gvk.group_version) ≡ ok gvk.group_version

module _ (k : Machinery) (lossless : IsLossless k) where
  -- Setting an owner reference, without the controller flag, keeps a valid object valid.
  pub set_owner_reference-IsValid :
      (cluster_name : String) (owner : MetaObject) (obj obj' : Metadata)
      → IsValid k obj
      → set_owner_reference k cluster_name owner obj ≡ ok obj'
      → IsValid k obj'
  unfolding set_owner_reference
  set_owner_reference-IsValid cluster_name owner obj obj' v h =
      elim (Result-cases (gvk_of k "cannot call SetOwnerReference" owner.kind)) [
        | inr (e, failed) ↦ absurd (ground arith)
        | inl (gvk, found) ↦
            let ref = ref_to k cluster_name gvk owner.metadata none in
            let written : obj' ≡ upsert_owner_ref k ref obj = ground arith in
            rw written (record {
              distinct = rw (refs-upsert k lossless ref obj) (put-Distinct k ref _ v.distinct);
              one_controller =
                  rw (refs-upsert k lossless ref obj)
                    (put-HasOneController_plain k ref _ refl v.one_controller);
            })
      ]

  -- The owner's type that a call found, if it has not failed.
  registered_type :
      (function : String) (owner : MetaObject) {gvk : GroupVersionKind}
      → gvk_of k function owner.kind ≡ ok gvk
      → (kind : Kind) × (owner.kind ≡ some kind) × (k.gvk_for_object kind ≡ ok gvk)
  registered_type function owner h = elim (Option-cases owner.kind) [
    | inl absent ↦ absurd (ground arith)
    | inr (kind, present) ↦ (kind, present, ground arith)
  ]

  module _ (cluster_name : String) (owner : MetaObject) (kind : Kind) (gvk : GroupVersionKind)
      (present : owner.kind ≡ some kind) (found : k.gvk_for_object kind ≡ ok gvk) where
    has_owner_reference-eq-has :
        (obj : Metadata)
        → has_owner_reference k cluster_name owner obj
          ≡ ok (has k (get_owner_references k obj) (ref_to k cluster_name gvk owner.metadata none))
    unfolding has_owner_reference
    has_owner_reference-eq-has obj = ground (
      arith,
      index-eq-has k (get_owner_references k obj) (ref_to k cluster_name gvk owner.metadata none),
    )

    refer_same_object_self :
        ParsesPrinted k
        → (let ref = ref_to k cluster_name gvk owner.metadata none in refer_same_object k ref ref)
          ≡ true
    unfolding refer_same_object reference_to
    refer_same_object_self parses =
        let group = gvk.group_version.group in
        ground (
          arith,
          parses.parse-print kind found,
          eq_iff cluster_name cluster_name,
          eq_iff group group,
          eq_iff gvk.kind gvk.kind,
          eq_iff owner.metadata.namespace owner.metadata.namespace,
          eq_iff owner.metadata.name owner.metadata.name,
        )

  -- If the encoder loses nothing and the printed group version of a registered type parses back,
  -- `HasOwnerReference` finds the owner after `SetOwnerReference` has succeeded.
  pub has-set_owner_reference :
      (parses : ParsesPrinted k) (cluster_name : String) (owner : MetaObject) (obj obj' : Metadata)
      → set_owner_reference k cluster_name owner obj ≡ ok obj'
      → has_owner_reference k cluster_name owner obj' ≡ ok true
  unfolding set_owner_reference
  has-set_owner_reference parses cluster_name owner obj obj' h =
      elim (Result-cases (gvk_of k "cannot call SetOwnerReference" owner.kind)) [
        | inr (e, failed) ↦ absurd (ground arith)
        | inl (gvk, resolved) ↦
            let (kind, present, found) = registered_type _ owner resolved in
            let ref = ref_to k cluster_name gvk owner.metadata none in
            let refs = get_owner_references k obj in
            let written : obj' ≡ upsert_owner_ref k ref obj = ground arith in
            ground (
              arith,
              has_owner_reference-eq-has cluster_name owner kind gvk present found obj',
              refs-upsert k lossless ref obj,
              has-put k ref ref refs,
              refer_same_object_self cluster_name owner kind gvk present found parses,
            )
      ]

  -- After `RemoveOwnerReference` from an object with distinct owners `HasOwnerReference` does not
  -- find the owner, and the owners are still distinct.
  pub has-remove_owner_reference :
      (cluster_name : String) (owner : MetaObject) (obj obj' : Metadata)
      → Distinct k (get_owner_references k obj)
      → remove_owner_reference k cluster_name owner obj ≡ ok obj'
      → (has_owner_reference k cluster_name owner obj' ≡ ok false)
        × Distinct k (get_owner_references k obj')
  unfolding remove_owner_reference
  has-remove_owner_reference cluster_name owner obj obj' d h =
      elim (Result-cases (gvk_of k "cannot call RemoveBrokerOwnerReference" owner.kind)) [
        | inr (e, failed) ↦ absurd (ground arith)
        | inl (gvk, resolved) ↦
            let (kind, present, found) = registered_type _ owner resolved in
            let ref = ref_to k cluster_name gvk owner.metadata none in
            let (gone, distinct) = refs-removed k lossless ref obj d in
            let written : obj' ≡ remove_owner_ref k ref obj = ground arith in
            (
              has_owner_reference-eq-has cluster_name owner kind gvk present found obj'
                  ∙ rw written (ap ok gone),
              rw written distinct,
            )
      ]
