-- ===== src/Multicluster/OwnerRefs.antt =====
-- multicluster/controllerutil/controllerutil.go: setting, removing and finding owner references.
-- A setter changes the object in place, so it returns the new metadata, or the error.
pub mod Same
pub mod Upsert
pub mod Removal
pub mod Controllers
pub mod Removed
pub mod Objects
use poollet.Base.{
  ℕ, zero, suc, String, Bool, true, false, ◌&&◌, not, Option, none, some, List, [], ◌∷◌, ◌++◌, ◌==◌,
  if◌then◌else◌,
}
use poollet.Base.Lists.{set}
use poollet.Errors.{Result, ok, err, Error, already_owned, message, wrap, ◌>>=◌}
use poollet.Api.Metadata.{Metadata, MetaObject, Machinery, Kind, GroupVersion, GroupVersionKind}
use poollet.Multicluster.Reference.{OwnerReference}
use poollet.Multicluster.Meta.{get_owner_references, set_owner_references, get_controller_of}

unfoldable pub new_already_owned_error : OwnerReference → Error
new_already_owned_error owner = already_owned owner

-- `xs[i] = xs[len(xs)-1]; xs = xs[:len(xs)-1]`, where `i` is in bounds.
last_from {ℓ} : {A : Type ℓ} → A → List A → A
last_from x [] = x
last_from x (y ∷ ys) = last_from y ys

drop_last {ℓ} : {A : Type ℓ} → List A → List A
drop_last [] = []
drop_last (x ∷ []) = []
drop_last (x ∷ y ∷ ys) = x ∷ drop_last (y ∷ ys)

swap_remove {ℓ} : {A : Type ℓ} → List A → ℕ → List A
unfolding set last_from drop_last
swap_remove [] i = []
swap_remove (x ∷ xs) i = drop_last (set (x ∷ xs) i (last_from x xs))

-- The owner reference that the functions below build, with or without the controller flag.
unfoldable pub reference_to :
    String → GroupVersionKind → String → Metadata → Option Bool → OwnerReference
reference_to cluster_name gvk api_version owner controller = record {
  cluster_name = cluster_name;
  api_version = api_version;
  kind = gvk.kind;
  namespace = owner.namespace;
  name = owner.name;
  uid = owner.uid;
  controller = controller;
}

module _ (k : Machinery) where
  unfoldable pub refer_same_object : OwnerReference → OwnerReference → Bool
  refer_same_object a b = elim (k.parse_group_version a.api_version) [
    | err e ↦ false
    | ok a_gv ↦ elim (k.parse_group_version b.api_version) [
      | err e ↦ false
      | ok b_gv ↦
          a.cluster_name == b.cluster_name
          && (a_gv.group == b_gv.group
              && (a.kind == b.kind && (a.namespace == b.namespace && a.name == b.name)))
    ]
  ]

  -- `none` is the index -1.
  unfoldable pub index_owner_ref : List OwnerReference → OwnerReference → Option ℕ
  index_owner_ref [] ref = none
  index_owner_ref (r ∷ refs) ref = elim (refer_same_object r ref) [
    | true ↦ some 0
    | false ↦ elim (index_owner_ref refs ref) [ none ↦ none | some i ↦ some (suc i) ]
  ]

  -- The slice that `upsertOwnerRef` stores.
  unfoldable pub upserted : List OwnerReference → OwnerReference → List OwnerReference
  unfolding set index_owner_ref
  upserted owners ref = elim (index_owner_ref owners ref) [
    | none ↦ owners ++ ref ∷ []
    | some i ↦ set owners i ref
  ]

  -- The slice that `removeOwnerRef` stores, if it finds the reference.
  unfoldable pub removed : List OwnerReference → OwnerReference → Option (List OwnerReference)
  unfolding swap_remove index_owner_ref
  removed owners ref = elim (index_owner_ref owners ref) [
    | none ↦ none
    | some i ↦ some (swap_remove owners i)
  ]

  unfoldable pub upsert_owner_ref : OwnerReference → Metadata → Metadata
  unfolding upserted
  upsert_owner_ref ref obj = set_owner_references k obj (upserted (get_owner_references k obj) ref)

  unfoldable pub remove_owner_ref : OwnerReference → Metadata → Metadata
  unfolding removed
  remove_owner_ref ref obj = elim (removed (get_owner_references k obj) ref) [
    | none ↦ obj
    | some owners ↦ set_owner_references k obj owners
  ]

  abbrev pub gvk_of : String → Option Kind → Result GroupVersionKind
  gvk_of function none = err (message function)
  gvk_of function (some kind) = k.gvk_for_object kind

  abbrev pub ref_to : String → GroupVersionKind → Metadata → Option Bool → OwnerReference
  ref_to cluster_name gvk owner controller =
      reference_to cluster_name gvk (k.print_group_version gvk.group_version) owner controller

  -- The check of `SetControllerReference` on the controller that the child already has.
  abbrev pub owned_by_another : Option OwnerReference → OwnerReference → Option OwnerReference
  owned_by_another none ref = none
  owned_by_another (some existing) ref =
      if not (refer_same_object existing ref) then some existing else none

  unfoldable pub set_controller_reference : String → MetaObject → Metadata → Result Metadata
  unfolding reference_to new_already_owned_error
  set_controller_reference cluster_name broker_owner child =
      gvk_of "cannot call SetControllerReference" broker_owner.kind >>= λ gvk.
      let ref = ref_to cluster_name gvk broker_owner.metadata (some true) in
      elim (owned_by_another (get_controller_of k child) ref) [
        | some existing ↦ err (new_already_owned_error existing)
        | none ↦ ok (upsert_owner_ref ref child)
      ]

  unfoldable pub remove_owner_reference : String → MetaObject → Metadata → Result Metadata
  unfolding reference_to
  remove_owner_reference cluster_name broker_owner obj =
      gvk_of "cannot call RemoveBrokerOwnerReference" broker_owner.kind >>= λ gvk.
      ok (remove_owner_ref (ref_to cluster_name gvk broker_owner.metadata none) obj)

  unfoldable pub set_owner_reference : String → MetaObject → Metadata → Result Metadata
  unfolding reference_to
  set_owner_reference cluster_name broker_owner obj =
      gvk_of "cannot call SetOwnerReference" broker_owner.kind >>= λ gvk.
      ok (upsert_owner_ref (ref_to cluster_name gvk broker_owner.metadata none) obj)

  abbrev pub is_found : Option ℕ → Bool
  is_found none = false
  is_found (some i) = true

  unfoldable pub has_owner_reference : String → MetaObject → Metadata → Result Bool
  unfolding reference_to index_owner_ref
  has_owner_reference cluster_name broker_owner obj =
      gvk_of "cannot call HasOwnerReference" broker_owner.kind >>= λ gvk.
      let ref = ref_to cluster_name gvk broker_owner.metadata none in
      ok (is_found (index_owner_ref (get_owner_references k obj) ref))

  unfoldable pub refers_to_cluster_and_type : String → Kind → OwnerReference → Result Bool
  refers_to_cluster_and_type cluster_name owner_type ref =
      if not (ref.cluster_name == cluster_name)
      then ok false
      else k.gvk_for_object owner_type >>= λ expected.
          k.parse_group_version ref.api_version >>= λ actual.
          ok (expected.group_version.group == actual.group && expected.kind == ref.kind)

  -- The loop of `GetClusterTypeOwnerReferences`.
  filter_refs : String → Kind → List OwnerReference → Result (List OwnerReference)
  unfolding refers_to_cluster_and_type
  filter_refs cluster_name owner_type [] = ok []
  filter_refs cluster_name owner_type (ref ∷ refs) =
      let rest = filter_refs cluster_name owner_type refs in
      elim (refers_to_cluster_and_type cluster_name owner_type ref) [
        | err e ↦ err (wrap "reference" e)
        | ok matches ↦ rest >>= λ filtered. ok (if matches then ref ∷ filtered else filtered)
      ]

  unfoldable pub get_cluster_type_owner_references :
      String → Kind → Metadata → Bool → Result (List OwnerReference)
  unfolding filter_refs
  get_cluster_type_owner_references cluster_name owner_type obj controller =
      filter_refs cluster_name owner_type (
        if controller
        then elim (get_controller_of k obj) [ none ↦ [] | some ref ↦ ref ∷ [] ]
        else get_owner_references k obj)
