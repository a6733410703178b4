-- ===== src/Multicluster/OwnerRefs/Controllers.antt =====
-- At most one reference is the controller, and `SetControllerReference` keeps it so.
use poollet.Base.{
  true, false, ◌≡◌, sym, ◌∙◌, none, some, List, [], ◌∷◌, arith, Bool-cases, Option-cases, inl, inr,
  true≢false,
}
use poollet.Base.Lists.{All}
use poollet.Api.Metadata.{Machinery}
use poollet.Multicluster.Reference.{OwnerReference}
use poollet.Multicluster.Meta.{first_controller, is_true}
use poollet.Multicluster.OwnerRefs.{refer_same_object, owned_by_another}
use poollet.Multicluster.OwnerRefs.Same.{same-left, same_comm}
use poollet.Multicluster.OwnerRefs.Upsert.{has, put, Distinct}

abbrev pub IsPlain : OwnerReference → Type 0
IsPlain r = is_true r.controller ≡ false

-- At most one reference of the list is flagged as the controller.
abbrev pub HasOneController : List OwnerReference → Type 0
HasOneController [] = Unit
HasOneController (r ∷ refs) =
    (is_true r.controller ≡ true → All IsPlain refs) × HasOneController refs

first_controller-none :
    (refs : List OwnerReference) → first_controller refs ≡ none → All IsPlain refs
first_controller-none [] h = tt
first_controller-none (r ∷ refs) h = ground (arith, first_controller-none refs)

All-IsPlain-HasOneController :
    (refs : List OwnerReference) → All IsPlain refs → HasOneController refs
All-IsPlain-HasOneController [] h = tt
All-IsPlain-HasOneController (r ∷ refs) h =
    (λ c. absurd (true≢false (sym c ∙ h.0)), All-IsPlain-HasOneController refs h.1)

module _ (k : Machinery) where
  -- The reference with the flag becomes the controller, unless another object is.
  pub first_controller-put :
      (ref : OwnerReference) (refs : List OwnerReference)
      → is_true ref.controller ≡ true
      → owned_by_another k (first_controller refs) ref ≡ none
      → first_controller (put k ref refs) ≡ some ref
  unfolding put
  first_controller-put ref [] c h = ground arith
  first_controller-put ref (r ∷ refs) c h = ground (arith, first_controller-put ref refs c)

  put-IsPlain :
      (ref : OwnerReference) (refs : List OwnerReference)
      → IsPlain ref
      → All IsPlain refs
      → All IsPlain (put k ref refs)
  unfolding put
  put-IsPlain ref [] p h = (p, tt)
  put-IsPlain ref (r ∷ refs) p h = ground (arith, put-IsPlain ref refs p h.1)

  -- A reference without the flag can only take the flag away.
  pub put-HasOneController_plain :
      (ref : OwnerReference) (refs : List OwnerReference)
      → IsPlain ref
      → HasOneController refs
      → HasOneController (put k ref refs)
  unfolding put
  put-HasOneController_plain ref [] p h = (λ c. tt, tt)
  put-HasOneController_plain ref (r ∷ refs) p h = elim (Bool-cases (refer_same_object k r ref)) [
    | inl same ↦ rw same (λ c. absurd (true≢false (sym c ∙ p)), h.1)
    | inr other ↦
        rw other (λ c. put-IsPlain ref refs p (h.0 c), put-HasOneController_plain ref refs p h.1)
  ]

  has-first_controller :
      (refs : List OwnerReference) (e q : OwnerReference)
      → first_controller refs ≡ some e
      → refer_same_object k e q ≡ true
      → has k refs q ≡ true
  unfolding has
  has-first_controller [] e q h s = cc
  has-first_controller (r ∷ refs) e q h s = ground (arith, has-first_controller refs e q)

  -- If the controller, if any, is `ref`'s object, but no reference after `r ∼ ref` is to that
  -- object, then those references are plain.
  rest-IsPlain :
      (r ref : OwnerReference) (refs : List OwnerReference)
      → refer_same_object k r ref ≡ true
      → has k refs r ≡ false
      → owned_by_another k (first_controller refs) ref ≡ none
      → All IsPlain refs
  rest-IsPlain r ref refs same apart free = elim (Option-cases (first_controller refs)) [
    | inl free_of ↦ first_controller-none refs free_of
    | inr (e, found) ↦ absurd (
        true≢false (
          sym (
            has-first_controller refs e r found
              (ground (arith, same-left k r ref e, same_comm k e r, same_comm k e ref)))
          ∙ apart))
  ]

  -- With the flag, the reference is the only controller, if no other object was.
  pub put-HasOneController :
      (ref : OwnerReference) (refs : List OwnerReference)
      → owned_by_another k (first_controller refs) ref ≡ none
      → Distinct k refs
      → HasOneController refs
      → HasOneController (put k ref refs)
  unfolding put
  put-HasOneController ref [] free d h = (λ c. tt, tt)
  put-HasOneController ref (r ∷ refs) free d h = elim (Bool-cases (refer_same_object k r ref)) [
    | inl same ↦ rw same (
      λ c. elim (Bool-cases (is_true r.controller)) [
        | inl flagged ↦ h.0 flagged
        | inr plain ↦ rest-IsPlain r ref refs same d.0 (ground arith)
      ],
      h.1,
    )
    | inr other ↦
        rw other
          (λ flagged. absurd (ground arith), put-HasOneController ref refs (ground arith) d.1 h.1)
  ]
