-- ===== src/Multicluster/Reference.antt =====
-- The data of multicluster/meta/meta.go.
use poollet.Base.{String, Bool, Option, List}

-- `Controller` is a `*bool`, so it is absent, false or true.
pub record OwnerReference : Type 0 where
  pub cluster_name : String
  pub api_version : String
  pub kind : String
  pub namespace : String
  pub name : String
  pub uid : String
  pub controller : Option Bool

pub record ObjectMeta : Type 0 where
  pub owner_references : List OwnerReference
