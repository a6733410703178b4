-- ===== src/Api/Metadata.antt =====
-- The metadata of an API object, and the API machinery that the code calls: the scheme, the parser
-- of group versions and the JSON encoder. The machinery is a parameter of what uses it.
use poollet.Base.{String, ℕ, Bool, Option, List}
use poollet.Base.Dict.{Dict}
use poollet.Errors.{Result}
use poollet.Multicluster.Reference.{ObjectMeta, OwnerReference}

-- The Go types of the objects.
pub data Kind : Type 0 where
  namespace secret config_map machine machine_pool volume volume_pool : Kind
  network_interface network virtual_ip alias_prefix alias_prefix_routing : Kind

-- A Kubernetes owner reference, which holds inside one cluster.
pub record LocalOwnerReference : Type 0 where
  pub uid : String
  pub controller : Bool

pub record Metadata : Type 0 where
  pub name : String
  pub namespace : String
  pub generate_name : String
  pub uid : String
  pub resource_version : String
  pub deletion_timestamp : Option ℕ
  pub finalizers : List String
  pub labels : Dict String
  pub annotations : Dict String
  pub owner_references : List LocalOwnerReference

-- A `metav1.Object`; `kind` is absent where it is no `runtime.Object`.
pub record MetaObject : Type 0 where
  pub kind : Option Kind
  pub metadata : Metadata

pub record GroupVersion : Type 0 where
  pub group : String
  pub version : String

pub record GroupVersionKind : Type 0 where
  pub group_version : GroupVersion
  pub kind : String

-- `schema.ParseGroupVersion`, `GroupVersion.String`, `apiutil.GVKForObject` with the scheme, and
-- `json.Marshal` and `json.Unmarshal` at the two types that the code stores.
pub record Machinery : Type 0 where
  pub parse_group_version : String → Result GroupVersion
  pub print_group_version : GroupVersion → String
  pub gvk_for_object : Kind → Result GroupVersionKind
  pub marshal : ObjectMeta → Result String
  pub unmarshal_meta : String → Result ObjectMeta
  pub unmarshal_owners : String → Result (List OwnerReference)
