-- ===== src/Multicluster/OwnerRefs/Removed.antt =====
-- The owners of an object from which a reference was removed.
use poollet.Base.{false, ◌≡◌, ◌∙◌, none, some, List, arith, Option-cases, inl, inr}
use poollet.Api.Metadata.{Machinery, Metadata}
use poollet.Multicluster.Reference.{OwnerReference}
use poollet.Multicluster.Meta.{get_owner_references}
use poollet.Multicluster.Meta.Annotation.{IsLossless, get-set_owner_references}
use poollet.Multicluster.OwnerRefs.{remove_owner_ref, removed}
use poollet.Multicluster.OwnerRefs.Upsert.{has, Distinct, has-reflexive}
use poollet.Multicluster.OwnerRefs.Removal.{has-removed, has-not_removed}

module _ (k : Machinery) (lossless : IsLossless k) where
  remove_owner_ref_absent :
      (ref : OwnerReference) (obj : Metadata)
      → removed k (get_owner_references k obj) ref ≡ none
      → get_owner_references k (remove_owner_ref k ref obj) ≡ get_owner_references k obj
  unfolding remove_owner_ref
  remove_owner_ref_absent ref obj h = ground arith

  remove_owner_ref_present :
      (ref : OwnerReference) (obj : Metadata) {owners : List OwnerReference}
      → removed k (get_owner_references k obj) ref ≡ some owners
      → get_owner_references k (remove_owner_ref k ref obj) ≡ owners
  unfolding remove_owner_ref
  remove_owner_ref_present ref obj {owners} h =
      ground (arith, get-set_owner_references k lossless obj owners)

  pub refs-removed :
      (ref : OwnerReference) (obj : Metadata)
      → Distinct k (get_owner_references k obj)
      → (has k (get_owner_references k (remove_owner_ref k ref obj)) ref ≡ false)
        × Distinct k (get_owner_references k (remove_owner_ref k ref obj))
  refs-removed ref obj d =
      let refs = get_owner_references k obj in
      elim (Option-cases (removed k refs ref)) [
        | inl absent ↦
            rw (remove_owner_ref_absent ref obj absent) (has-not_removed k refs ref absent, d)
        | inr (owners, rest) ↦
            let (left, distinct) = has-removed k refs owners ref ref d rest in
            rw (remove_owner_ref_present ref obj rest)
              (left ∙ ground (arith, has-reflexive k refs ref), distinct)
      ]
