-- ===== src/Controllers/Secret/Clusters/Made.antt =====
-- The target that the secret controller makes where there is none, and that it leaves as it is.
use poollet.Base.{
  String, true, ◌≡◌, refl, List, [], ◌∷◌, ◌++◌, some, arith, eq_refl, ◌∙◌, ap, if◌then◌else◌,
}
use poollet.Errors.{Result, ok, err, not_found}
use poollet.Api.Metadata.{Machinery, Metadata, GroupVersionKind, secret}
use poollet.Api.Objects.{Secret, Namespace, meta_object}
use poollet.Handlers.{key_eq}
use poollet.Multicluster.Reference.{OwnerReference}
use poollet.Multicluster.Meta.Annotation.{IsLossless}
use poollet.Multicluster.OwnerRefs.Objects.{is_controlled_by-set_controller_reference}
use poollet.Multicluster.Meta.{
  deprecated_broker_annotation, object_meta_annotation, is_controlled_by, set_owner_references,
  set_object_meta, get_controller_of, get_owner_references, get_object_meta,
}
use poollet.Multicluster.OwnerRefs.{set_controller_reference, upsert_owner_ref, ref_to, upserted}
use poollet.BrokerClient.{broker_controlled_mutate}
use poollet.Base.Dict.{lookup, insert, remove}
use poollet.Controllers.Common.{Config, contains_finalizer, target_object}
use poollet.Controllers.Apply.{key_of}
use poollet.Controllers.Secret.{finalizer, copy_data}
use poollet.Controllers.Secret.Clusters.{Clusters, applied, stored, found_or, with_finalizers}

pub contains_finalizer-append :
    (finalizers : List String) (f : String) → contains_finalizer (finalizers ++ f ∷ []) f ≡ true
contains_finalizer-append [] f = ground (arith, eq_refl f)
contains_finalizer-append (g ∷ gs) f = ground (arith, contains_finalizer-append gs f)

-- An object without annotations can be claimed.
pub claimed-fresh :
    (k : Machinery) (cluster_name : String) (owner : Secret) (gvk : GroupVersionKind)
    (ns name : String)
    → k.gvk_for_object secret ≡ ok gvk
    → set_controller_reference k cluster_name (meta_object secret owner) (target_object ns name)
      ≡ ok (
          upsert_owner_ref k
            (ref_to k cluster_name gvk owner.metadata (some true))
            (target_object ns name))
unfolding set_controller_reference get_controller_of get_owner_references get_object_meta lookup
claimed-fresh k cluster_name owner gvk ns name known = rw known refl

-- An object in which the text of the annotation is stored, if there is one, keeps its key.
abbrev with_text : Metadata → Result String → Metadata
with_text m (err e) = m
with_text m (ok text) = record m {
  annotations =
      remove deprecated_broker_annotation (insert object_meta_annotation text m.annotations);
}

stored-name :
    (m : Metadata) (text : Result String)
    → ((with_text m text).name ≡ m.name) × ((with_text m text).namespace ≡ m.namespace)
stored-name m (err e) = (refl, refl)
stored-name m (ok text) = (refl, refl)

module _ (k : Machinery) (r : Config) (target_namespace : Namespace) where
  -- What the target cluster has afterwards.
  abbrev pub made : GroupVersionKind → Secret → Secret
  made gvk obj = record {
    metadata =
        record (upsert_owner_ref k (ref_to k r.cluster_name gvk obj.metadata (some true))
          (target_object target_namespace.metadata.name obj.metadata.name)) {
            resource_version = "1";
          };
    contents = obj.contents;
  }

  abbrev pub with_finalizer : Secret → Secret
  with_finalizer obj = with_finalizers (obj.metadata.finalizers ++ finalizer k r ∷ []) obj

  abbrev pub synced : GroupVersionKind → Secret → Clusters
  synced gvk obj = record { source_secret = some obj; target_secret = some (made gvk obj) }

  module _ (lossless : IsLossless k) (obj : Secret) (gvk : GroupVersionKind)
      (known : k.gvk_for_object secret ≡ ok gvk) where
    pub made-IsOwned : is_controlled_by k r.cluster_name obj.metadata (made gvk obj).metadata ≡ true
    unfolding is_controlled_by get_controller_of get_owner_references get_object_meta
    made-IsOwned =
        is_controlled_by-set_controller_reference k lossless r.cluster_name (meta_object secret obj)
          (target_object target_namespace.metadata.name obj.metadata.name) _
          (claimed-fresh k r.cluster_name obj gvk target_namespace.metadata.name obj.metadata.name
            known)

    set_owner_references-name :
        (m : Metadata) (refs : List OwnerReference)
        → ((set_owner_references k m refs).name ≡ m.name)
          × ((set_owner_references k m refs).namespace ≡ m.namespace)
    unfolding set_owner_references set_object_meta
    set_owner_references-name m refs =
        stored-name m (k.marshal (record { owner_references = refs }))

    made-at :
        key_eq
          (record { namespace = target_namespace.metadata.name; name = obj.metadata.name })
          (key_of (made gvk obj).metadata)
        ≡ true
    unfolding upsert_owner_ref
    made-at =
        let fresh = target_object target_namespace.metadata.name obj.metadata.name in
        let same = set_owner_references-name fresh (
          upserted k (get_owner_references k fresh)
            (ref_to k r.cluster_name gvk obj.metadata (some true))) in
        rw (same.0, same.1)
          (ground (arith, eq_refl target_namespace.metadata.name, eq_refl obj.metadata.name))

    pub again :
        applied
          (some (made gvk obj))
          (record {
            metadata = target_object target_namespace.metadata.name obj.metadata.name;
            contents = [];
          })
          (broker_controlled_mutate k r.cluster_name
            (meta_object secret obj)
            secret
            (copy_data k r obj))
        ≡ ok (made gvk obj)
    unfolding broker_controlled_mutate copy_data
    again =
        ap
          (λ b. stored (
            broker_controlled_mutate k r.cluster_name (meta_object secret obj) secret
              (copy_data k r obj)
              (found_or
                (record {
                  metadata = target_object target_namespace.metadata.name obj.metadata.name;
                  contents = [];
                })
                (if b then ok (made gvk obj) else err not_found))))
          made-at
        ∙ rw made-IsOwned refl
