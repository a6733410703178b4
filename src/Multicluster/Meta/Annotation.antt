-- ===== src/Multicluster/Meta/Annotation.antt =====
-- Reading the owner references back from the annotation that they were written to.
use poollet.Base.{String, ◌≡◌, refl, none, List, arith}
use poollet.Base.Dict.{lookup, insert, lookup-insert_self, lookup-remove_self, lookup-remove_ne}
use poollet.Errors.{ok}
use poollet.Api.Metadata.{Metadata, Machinery}
use poollet.Multicluster.Reference.{OwnerReference, ObjectMeta}
use poollet.Multicluster.Meta.{
  object_meta_annotation, deprecated_broker_annotation, get_owner_references, set_owner_references,
  get_object_meta, set_object_meta,
}

-- What `encoding/json` documents of the two types that are stored: encoding does not fail, and
-- decoding gives back what was encoded.
pub record IsLossless (k : Machinery) : Type 0 where
  pub encoded : ObjectMeta → String
  pub marshal-ok : (meta : ObjectMeta) → k.marshal meta ≡ ok (encoded meta)
  pub unmarshal-encoded : (meta : ObjectMeta) → k.unmarshal_meta (encoded meta) ≡ ok meta

module _ (k : Machinery) (lossless : IsLossless k) where
  -- The references that were set are the ones that are read.
  pub get-set_owner_references :
      (obj : Metadata) (refs : List OwnerReference)
      → get_owner_references k (set_owner_references k obj refs) ≡ refs
  unfolding get_owner_references set_owner_references get_object_meta set_object_meta
  get-set_owner_references obj refs =
      let meta : ObjectMeta = record { owner_references = refs } in
      let text = lossless.encoded meta in
      let written = insert object_meta_annotation text obj.annotations in
      ground (
        arith,
        lossless.marshal-ok meta,
        lookup-remove_ne deprecated_broker_annotation object_meta_annotation written refl,
        lookup-insert_self object_meta_annotation text obj.annotations,
        lossless.unmarshal-encoded meta,
      )

  -- Setting the references moves an object off the deprecated annotation.
  pub set_owner_references-migrates :
      (obj : Metadata) (refs : List OwnerReference)
      → lookup deprecated_broker_annotation (set_owner_references k obj refs).annotations ≡ none
  unfolding set_owner_references set_object_meta
  set_owner_references-migrates obj refs =
      let meta : ObjectMeta = record { owner_references = refs } in
      let written = insert object_meta_annotation (lossless.encoded meta) obj.annotations in
      ground
        (arith, lossless.marshal-ok meta, lookup-remove_self deprecated_broker_annotation written)
