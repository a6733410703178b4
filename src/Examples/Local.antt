-- ===== src/Examples/Local.antt =====
-- Controllers in one cluster, and volumes, for the examples of the volume controllers.
use poollet.Base.{
  String, Bool, true, false, ◌&&◌, ◌||◌, ◌==◌, ◌≡◌, List, [], ◌∷◌, some, arith, eq_refl,
}
use poollet.Errors.{Result, ok, err, message}
use poollet.Api.Metadata.{Metadata, MetaObject, LocalOwnerReference}
use poollet.Api.Objects.{Volume, VolumeAccess, Secret}
use poollet.SingleClient.Generate.{LocalControllers}
use poollet.Controllers.Volumes.Protocol.Copies.{MakesOwned}
use poollet.Controllers.Common.{target_object}
use poollet.Examples.Objects.{source_volume, source_metadata}

abbrev controls : List LocalOwnerReference → String → Bool
controls [] uid = false
controls (ref ∷ refs) uid = ref.controller && ref.uid == uid || controls refs uid

abbrev claim : List LocalOwnerReference → MetaObject → Metadata → Result Metadata
claim [] owner m =
    ok (record m { owner_references = record { uid = owner.metadata.uid; controller = true } ∷ [] })
claim (ref ∷ refs) owner m = err (message "already owned by another controller")

-- An object that has an owner is not claimed.
abbrev pub local : LocalControllers
local = record {
  is_controlled_by = λ m owner. controls m.owner_references owner.uid;
  set_controller_reference = λ owner m. claim m.owner_references owner m;
}

claim-controls :
    (refs : List LocalOwnerReference) (owner : MetaObject) (m m' : Metadata)
    → claim refs owner m ≡ ok m'
    → controls m'.owner_references owner.metadata.uid ≡ true
claim-controls [] owner m m' h = ground (arith, eq_refl owner.metadata.uid)
claim-controls (ref ∷ refs) owner m m' h = absurd (ground arith)

pub local-MakesOwned : MakesOwned local
local-MakesOwned owner m m' h = claim-controls m.owner_references owner m m' h

-- A volume of the pool, and its target with an access secret.
abbrev pub pool_volume : Volume
pool_volume = record source_volume {
  metadata = source_metadata "disk" ("pool.broker.poollet.onmetal.de/volume" ∷ []);
  volume_pool_ref = some "pool";
}

abbrev pub access : VolumeAccess
access = record {
  secret_ref = some "disk-access";
  driver = "ceph";
  volume_attributes = ("image", "a") ∷ [];
}

abbrev pub accessible : Volume
accessible = record source_volume {
  metadata = target_object "default-x7k2p" "disk";
  state = "Available";
  access = some access;
}

abbrev pub target_secret : Secret
target_secret = record {
  metadata = target_object "default-x7k2p" "disk-access";
  contents = ("key", "k") ∷ [];
}
