-- ===== src/Multicluster/Meta.antt =====
-- multicluster/meta/meta.go: the owner references that an object carries in an annotation. The
-- setters change the object in place, so they return its new metadata.
pub mod Annotation
use poollet.Base.{String, Bool, true, false, ◌&&◌, Option, none, some, List, [], ◌∷◌, ◌==◌}
use poollet.Base.Dict.{lookup, insert, remove}
use poollet.Errors.{Result, ok, err}
use poollet.Api.Metadata.{Metadata, Machinery}
use poollet.Multicluster.Reference.{OwnerReference, ObjectMeta}

abbrev pub object_meta_annotation : String
object_meta_annotation = "multicluster.api.onmetal.de/object-meta"

abbrev pub deprecated_broker_annotation : String
deprecated_broker_annotation = "broker.onmetal.de/owner"

abbrev pub empty_object_meta : ObjectMeta
empty_object_meta = record { owner_references = [] }

-- What a decoding that failed is logged and replaced by.
abbrev decoded : Result ObjectMeta → ObjectMeta
decoded (ok meta) = meta
decoded (err e) = empty_object_meta

abbrev decoded_owners : Result (List OwnerReference) → ObjectMeta
decoded_owners (ok owners) = record { owner_references = owners }
decoded_owners (err e) = empty_object_meta

abbrev pub is_true : Option Bool → Bool
is_true (some true) = true
is_true _ = false

module _ (k : Machinery) where
  unfoldable pub get_object_meta : Metadata → ObjectMeta
  get_object_meta obj = elim (lookup object_meta_annotation obj.annotations) [
    | some text ↦ decoded (k.unmarshal_meta text)
    | none ↦ elim (lookup deprecated_broker_annotation obj.annotations) [
      | some text ↦ decoded_owners (k.unmarshal_owners text)
      | none ↦ empty_object_meta
    ]
  ]

  unfoldable pub set_object_meta : Metadata → ObjectMeta → Metadata
  set_object_meta obj meta = elim (k.marshal meta) [
    | err e ↦ obj
    | ok text ↦ record obj {
      annotations =
          remove deprecated_broker_annotation (insert object_meta_annotation text obj.annotations);
    }
  ]

  unfoldable pub get_owner_references : Metadata → List OwnerReference
  get_owner_references obj = (get_object_meta obj).owner_references

  unfoldable pub set_owner_references : Metadata → List OwnerReference → Metadata
  set_owner_references obj refs =
      set_object_meta obj (record (get_object_meta obj) { owner_references = refs })

-- The loop of `GetControllerOf`.
abbrev pub first_controller : List OwnerReference → Option OwnerReference
first_controller [] = none
first_controller (ref ∷ refs) = elim (is_true ref.controller) [
  | true ↦ some ref
  | false ↦ first_controller refs
]

module _ (k : Machinery) where
  unfoldable pub get_controller_of : Metadata → Option OwnerReference
  get_controller_of child = first_controller (get_owner_references k child)

  unfoldable pub is_controlled_by : String → Metadata → Metadata → Bool
  unfolding get_controller_of
  is_controlled_by cluster_name broker_owner child = elim (get_controller_of child) [
    | none ↦ false
    | some existing ↦ existing.cluster_name == cluster_name && existing.uid == broker_owner.uid
  ]
