-- ===== src/Multicluster/OwnerRefs/Same.antt =====
-- `referSameObject` compares identities, so it is symmetric and transitive. It is not reflexive: a
-- reference whose API version does not parse is not even the same as itself.
use poollet.Base.{
  String, true, ◌≡◌, ◌≢◌, Option, none, some, eq_iff, arith, Bool-cases, true≢false, sym, ◌∙◌, inl,
  inr,
}
use poollet.Errors.{Result, ok, err}
use poollet.Api.Metadata.{Machinery, GroupVersion}
use poollet.Multicluster.Reference.{OwnerReference}
use poollet.Multicluster.OwnerRefs.{refer_same_object}

pub record Identity : Type 0 where
  pub cluster_name : String
  pub group : String
  pub kind : String
  pub namespace : String
  pub name : String

module _ (k : Machinery) where
  identity_at : Result GroupVersion → OwnerReference → Option Identity
  identity_at (err e) r = none
  identity_at (ok gv) r = some (record {
    cluster_name = r.cluster_name;
    group = gv.group;
    kind = r.kind;
    namespace = r.namespace;
    name = r.name;
  })

  pub identity : OwnerReference → Option Identity
  unfolding identity_at
  identity r = identity_at (k.parse_group_version r.api_version) r

  abbrev parsed_group : Result GroupVersion → String
  parsed_group (ok gv) = gv.group
  parsed_group (err e) = ""

  abbrev group_of : OwnerReference → String
  group_of r = parsed_group (k.parse_group_version r.api_version)

  -- Two references refer to the same object exactly when they have one identity.
  identity-of_same :
      (a b : OwnerReference)
      → refer_same_object k a b ≡ true
      → (identity a ≡ identity b) × (identity b ≢ none)
  unfolding refer_same_object identity
  identity-of_same a b h = ground (
    arith,
    eq_iff a.cluster_name b.cluster_name,
    eq_iff a.kind b.kind,
    eq_iff a.namespace b.namespace,
    eq_iff a.name b.name,
    eq_iff (group_of a) (group_of b),
  )

  same-of_identity :
      (a b : OwnerReference)
      → identity a ≡ identity b
      → identity b ≢ none
      → refer_same_object k a b ≡ true
  unfolding refer_same_object identity
  same-of_identity a b h g = ground (
    arith,
    eq_iff a.cluster_name b.cluster_name,
    eq_iff a.kind b.kind,
    eq_iff a.namespace b.namespace,
    eq_iff a.name b.name,
    eq_iff (group_of a) (group_of b),
  )

  pub same-sym :
      (a b : OwnerReference) → refer_same_object k a b ≡ true → refer_same_object k b a ≡ true
  same-sym a b h = let (e, n) = identity-of_same a b h in same-of_identity b a (sym e) (rw e n)

  pub same_trans :
      (a b c : OwnerReference)
      → refer_same_object k a b ≡ true
      → refer_same_object k b c ≡ true
      → refer_same_object k a c ≡ true
  same_trans a b c h g =
      let (e, n) = identity-of_same a b h in
      let (f, m) = identity-of_same b c g in same-of_identity a c (e ∙ f) m

  -- In any comparison a reference can stand for one that refers to the same object.
  pub same-left :
      (a b c : OwnerReference)
      → refer_same_object k a b ≡ true
      → refer_same_object k a c ≡ refer_same_object k b c
  same-left a b c h = elim (Bool-cases (refer_same_object k b c)) [
    | inl bc ↦ rw bc (same_trans a b c h bc)
    | inr bc ↦ elim (Bool-cases (refer_same_object k a c)) [
      | inl ac ↦ absurd (true≢false (sym (same_trans b a c (same-sym a b h) ac) ∙ bc))
      | inr ac ↦ ac ∙ sym bc
    ]
  ]

  pub same_comm : (a b : OwnerReference) → refer_same_object k a b ≡ refer_same_object k b a
  same_comm a b = elim (Bool-cases (refer_same_object k a b)) [
    | inl ab ↦ ab ∙ sym (same-sym a b ab)
    | inr ab ↦ elim (Bool-cases (refer_same_object k b a)) [
      | inl ba ↦ absurd (true≢false (sym (same-sym b a ba) ∙ ab))
      | inr ba ↦ ab ∙ sym ba
    ]
  ]
