-- ===== src/BrokerClient/Mutate.antt =====
-- What a successful mutation of a target object leaves: an object that its source controls.
use poollet.Base.{String, true, ◌≡◌, refl, sym, Bool-cases, inl, inr, ◌==◌, arith}
use poollet.Errors.{Result, ok, Result-cases}
use poollet.Api.Metadata.{
  Kind, Metadata, MetaObject, Machinery, namespace, secret, config_map, machine, machine_pool,
  volume, volume_pool, network_interface, network, virtual_ip, alias_prefix, alias_prefix_routing,
}
use poollet.Api.Objects.{Obj, metadata_of, with_metadata}
use poollet.Multicluster.Meta.{is_controlled_by}
use poollet.Multicluster.Meta.Annotation.{IsLossless}
use poollet.Multicluster.OwnerRefs.{set_controller_reference}
use poollet.Multicluster.OwnerRefs.Objects.{is_controlled_by-set_controller_reference}
use poollet.BrokerClient.{broker_controlled_mutate, set_controller}

metadata_of-with_metadata :
    (kind : Kind) (obj : Obj kind) (m : Metadata) → metadata_of kind (with_metadata kind obj m) ≡ m
metadata_of-with_metadata namespace obj m = refl
metadata_of-with_metadata secret obj m = refl
metadata_of-with_metadata config_map obj m = refl
metadata_of-with_metadata machine obj m = refl
metadata_of-with_metadata machine_pool obj m = refl
metadata_of-with_metadata volume obj m = refl
metadata_of-with_metadata volume_pool obj m = refl
metadata_of-with_metadata network_interface obj m = refl
metadata_of-with_metadata network obj m = refl
metadata_of-with_metadata virtual_ip obj m = refl
metadata_of-with_metadata alias_prefix obj m = refl
metadata_of-with_metadata alias_prefix_routing obj m = refl

module _ (k : Machinery) (lossless : IsLossless k) (cluster_name : String) (owner : MetaObject)
    (kind : Kind) where
  -- The object is controlled by the owner in the owner's cluster.
  abbrev pub IsOwned : Obj kind → Type 0
  IsOwned obj = is_controlled_by k cluster_name owner.metadata (metadata_of kind obj) ≡ true

  set_controller-IsOwned :
      (obj obj' : Obj kind) → set_controller k cluster_name owner kind obj ≡ ok obj' → IsOwned obj'
  set_controller-IsOwned obj obj' h =
      elim (Result-cases (set_controller_reference k cluster_name owner (metadata_of kind obj))) [
        | inl (m, e) ↦
            let same : with_metadata kind obj m ≡ obj' = ground arith in
            rw (sym same) (
              rw (metadata_of-with_metadata kind obj m) (
                is_controlled_by-set_controller_reference k lossless cluster_name owner
                  (metadata_of kind obj) m e))
        | inr (e, failed) ↦ absurd (ground arith)
      ]

  -- Objects that are mutated, with the mutation `f` of the caller, which leaves the metadata alone:
  -- after a success the object is controlled by the owner, whether it is new or had to be before.
  pub broker_controlled_mutate-IsOwned :
      (f : Obj kind → Result (Obj kind)) (obj obj' : Obj kind)
      → ((o o' : Obj kind) → f o ≡ ok o' → metadata_of kind o' ≡ metadata_of kind o)
      → broker_controlled_mutate k cluster_name owner kind f obj ≡ ok obj'
      → IsOwned obj'
  unfolding broker_controlled_mutate
  broker_controlled_mutate-IsOwned f obj obj' keeps h =
      elim (Bool-cases ((metadata_of kind obj).resource_version == "")) [
        | inl fresh ↦ elim (Result-cases (f obj)) [
          | inl (o, e) ↦ set_controller-IsOwned o obj' (ground arith)
          | inr (e, failed) ↦ absurd (ground arith)
        ]
        | inr old ↦
            elim (Bool-cases
              (is_controlled_by k cluster_name owner.metadata (metadata_of kind obj))) [
                | inl owned ↦ rw (keeps obj obj' (ground arith)) owned
                | inr foreign ↦ absurd (ground arith)
              ]
      ]
