-- ===== src/Multicluster/OwnerRefs/Removal.antt =====
-- `removeOwnerRef` fills the gap with the last reference, so it changes the order; of a list
-- without duplicates it removes exactly the references to the given object.
use poollet.Base.{
  false, not, ◌≡◌, refl, ◌∙◌, none, some, List, [], ◌∷◌, arith, ◌&&◌, ◌||◌, Bool-cases, inl, inr,
  if◌then◌else◌,
}
use poollet.Api.Metadata.{Machinery}
use poollet.Multicluster.Reference.{OwnerReference}
use poollet.Multicluster.OwnerRefs.{refer_same_object, removed, last_from, drop_last}
use poollet.Multicluster.OwnerRefs.Same.{same-left, same_comm}
use poollet.Multicluster.OwnerRefs.Upsert.{has, has-congr, Distinct}

-- dropping the last reference and putting it before the rest keeps what the list refers to
module _ (k : Machinery) where
  has-last :
      (x : OwnerReference) (xs : List OwnerReference) (q : OwnerReference)
      → (has k (drop_last (x ∷ xs)) q || refer_same_object k (last_from x xs) q) ≡ has k (x ∷ xs) q
  unfolding has drop_last last_from
  has-last x [] q = ground arith
  has-last x (y ∷ ys) q = ground (arith, has-last y ys q)

  has-last_false :
      (x : OwnerReference) (xs : List OwnerReference) (q : OwnerReference)
      → has k (x ∷ xs) q ≡ false
      → (has k (drop_last (x ∷ xs)) q ≡ false) × (refer_same_object k (last_from x xs) q ≡ false)
  has-last_false x xs q h = ground (arith, has-last x xs q)

  drop_last-Distinct :
      (x : OwnerReference) (xs : List OwnerReference)
      → Distinct k (x ∷ xs)
      → (has k (drop_last (x ∷ xs)) (last_from x xs) ≡ false) × Distinct k (drop_last (x ∷ xs))
  unfolding has drop_last last_from
  drop_last-Distinct x [] h = (refl, tt)
  drop_last-Distinct x (y ∷ ys) h =
      let apart = has-last_false y ys x h.0 in
      let rest = drop_last-Distinct y ys h.1 in
      (ground (arith, same_comm k x (last_from y ys), apart, rest.0), (apart.0, rest.1))

  -- The list with its last reference moved to the front.
  last_first : List OwnerReference → List OwnerReference
  last_first [] = []
  last_first (x ∷ xs) = last_from x xs ∷ drop_last (x ∷ xs)

  -- `removed` as a plain recursion, for a list that holds the reference.
  take_out : OwnerReference → List OwnerReference → List OwnerReference
  take_out ref [] = []
  take_out ref (r ∷ refs) =
      if refer_same_object k r ref then last_first refs else r ∷ take_out ref refs

  removed-eq-take_out :
      (refs : List OwnerReference) (ref : OwnerReference)
      → removed k refs ref ≡ (if has k refs ref then some (take_out ref refs) else none)
  unfolding removed take_out last_first has
  removed-eq-take_out [] ref = refl
  removed-eq-take_out (r ∷ []) ref = ground arith
  removed-eq-take_out (r ∷ s ∷ refs) ref = ground (arith, removed-eq-take_out (s ∷ refs) ref)

  has-last_first :
      (refs : List OwnerReference) (q : OwnerReference) → has k (last_first refs) q ≡ has k refs q
  unfolding last_first has
  has-last_first [] q = refl
  has-last_first (x ∷ xs) q = ground (arith, has-last x xs q)

  has-take_out :
      (ref q : OwnerReference) (refs : List OwnerReference)
      → Distinct k refs
      → has k (take_out ref refs) q ≡ (has k refs q && not (refer_same_object k ref q))
  unfolding take_out has
  has-take_out ref q [] h = refl
  has-take_out ref q (r ∷ refs) h = ground (
    arith,
    h.0,
    has-take_out ref q refs h.1,
    has-last_first refs q,
    same-left k r ref q,
    same-left k r q ref,
    same_comm k q ref,
    has-congr k r q refs,
  )

  take_out-Distinct :
      (ref : OwnerReference) (refs : List OwnerReference)
      → Distinct k refs
      → Distinct k (take_out ref refs)
  unfolding take_out last_first
  take_out-Distinct ref [] h = tt
  take_out-Distinct ref (r ∷ []) h = ground arith
  take_out-Distinct ref (r ∷ s ∷ refs) h = elim (Bool-cases (refer_same_object k r ref)) [
    | inl same ↦ rw same (drop_last-Distinct s refs h.1)
    | inr other ↦ rw other (
      has-take_out ref r (s ∷ refs) h.1 ∙ ground (arith, h.0),
      take_out-Distinct ref (s ∷ refs) h.1,
    )
  ]

  -- What is left after a removal: the other objects, each still once.
  pub has-removed :
      (refs owners : List OwnerReference) (ref q : OwnerReference)
      → Distinct k refs
      → removed k refs ref ≡ some owners
      → (has k owners q ≡ (has k refs q && not (refer_same_object k ref q))) × Distinct k owners
  has-removed refs owners ref q h e =
      ground (
        arith,
        removed-eq-take_out refs ref,
        has-take_out ref q refs h,
        take_out-Distinct ref refs h,
      )

  -- Nothing is removed only where nothing is found.
  pub has-not_removed :
      (refs : List OwnerReference) (ref : OwnerReference)
      → removed k refs ref ≡ none
      → has k refs ref ≡ false
  has-not_removed refs ref e = ground (arith, removed-eq-take_out refs ref)
