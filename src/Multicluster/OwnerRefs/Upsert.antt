-- ===== src/Multicluster/OwnerRefs/Upsert.antt =====
-- The slice operations of multicluster/controllerutil/controllerutil.go as plain recursions, and
-- the invariant that no object is referred to twice.
use poollet.Base.{
  Bool, true, false, ◌≡◌, refl, sym, ◌∙◌, List, [], ◌∷◌, arith, ◌||◌, Bool-cases, inl, inr,
  if◌then◌else◌,
}
use poollet.Api.Metadata.{Machinery}
use poollet.Multicluster.Reference.{OwnerReference}
use poollet.Multicluster.OwnerRefs.{refer_same_object, index_owner_ref, upserted, is_found}
use poollet.Multicluster.OwnerRefs.Same.{same-left, same_comm}

module _ (k : Machinery) where
  -- Replace the first reference to the same object, or append.
  unfoldable pub put : OwnerReference → List OwnerReference → List OwnerReference
  put ref [] = ref ∷ []
  put ref (r ∷ refs) = if refer_same_object k r ref then ref ∷ refs else r ∷ put ref refs

  unfoldable pub has : List OwnerReference → OwnerReference → Bool
  has [] q = false
  has (r ∷ refs) q = refer_same_object k r q || has refs q

  pub index-eq-has :
      (refs : List OwnerReference) (q : OwnerReference)
      → is_found k (index_owner_ref k refs q) ≡ has refs q
  unfolding index_owner_ref has
  index-eq-has [] q = refl
  index-eq-has (r ∷ refs) q = ground (arith, index-eq-has refs q)

  pub upserted-eq-put :
      (refs : List OwnerReference) (ref : OwnerReference) → upserted k refs ref ≡ put ref refs
  unfolding upserted put
  upserted-eq-put [] ref = refl
  upserted-eq-put (r ∷ refs) ref = ground (arith, upserted-eq-put refs ref)

  -- After an upsert exactly the old objects and the new one are referred to.
  pub has-put :
      (ref q : OwnerReference) (refs : List OwnerReference)
      → has (put ref refs) q ≡ (refer_same_object k ref q || has refs q)
  unfolding put has
  has-put ref q [] = refl
  has-put ref q (r ∷ refs) = ground (arith, has-put ref q refs, same-left k r ref q)

  -- No two references of the list refer to the same object.
  abbrev pub Distinct : List OwnerReference → Type 0
  Distinct [] = Unit
  Distinct (r ∷ refs) = (has refs r ≡ false) × Distinct refs

  pub has-congr :
      (a b : OwnerReference) (refs : List OwnerReference)
      → refer_same_object k a b ≡ true
      → has refs a ≡ has refs b
  unfolding has
  has-congr a b [] h = refl
  has-congr a b (r ∷ refs) h =
      ground (arith, has-congr a b refs h, same-left k a b r h, same_comm k r a, same_comm k r b)

  -- Only a reference that parses is found, and such a one is the same as itself.
  pub has-reflexive :
      (refs : List OwnerReference) (q : OwnerReference)
      → has refs q ≡ true
      → refer_same_object k q q ≡ true
  unfolding has
  has-reflexive [] q h = cc
  has-reflexive (r ∷ refs) q h =
      ground (arith, has-reflexive refs q, same-left k r q q, same_comm k r q)

  pub put-Distinct :
      (ref : OwnerReference) (refs : List OwnerReference) → Distinct refs → Distinct (put ref refs)
  unfolding put
  put-Distinct ref [] h = (unfold has in refl, tt)
  put-Distinct ref (r ∷ refs) h = elim (Bool-cases (refer_same_object k r ref)) [
    | inl same ↦ rw same (sym (has-congr r ref refs same) ∙ h.0, h.1)
    | inr other ↦
        rw other
          (has-put ref r refs ∙ ground (arith, same_comm k r ref, h.0), put-Distinct ref refs h.1)
  ]
