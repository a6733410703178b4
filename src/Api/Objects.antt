-- ===== src/Api/Objects.antt =====
-- The API objects, with the fields of their spec and status that the code reads or writes. A
-- reference by name alone (`LocalObjectReference`) is that name; a value that is only copied
-- (an image, resources, EFI variables) is a text. The quantities of a resource list are numbers.
use poollet.Base.{String, ℕ, Bool, Option, List}
use poollet.Base.Dict.{Dict}
use poollet.Api.Metadata.{
  Metadata, MetaObject, Kind, namespace, secret, config_map, machine, machine_pool, volume,
  volume_pool, network_interface, network, virtual_ip, alias_prefix, alias_prefix_routing,
}
use poollet.Base.{some}

pub record LocalUidReference : Type 0 where
  pub name : String
  pub uid : String

pub record SecretKeySelector : Type 0 where
  pub name : String
  pub key : String

pub record Namespace : Type 0 where
  pub metadata : Metadata

pub record Secret : Type 0 where
  pub metadata : Metadata
  pub contents : Dict String

pub record ConfigMap : Type 0 where
  pub metadata : Metadata
  pub contents : Dict String

-- The source of a machine's volume; at most one is meant to be set.
pub record MachineVolumeSource : Type 0 where
  pub empty_disk : Option String
  pub volume_ref : Option String
  pub ephemeral : Option String

pub record MachineVolume : Type 0 where
  pub name : String
  pub device : String
  pub volume_source : MachineVolumeSource

pub record MachineNicSource : Type 0 where
  pub network_interface_ref : Option String
  pub ephemeral : Option String

pub record MachineNic : Type 0 where
  pub name : String
  pub nic_source : MachineNicSource

-- The phase of a machine's volume or network interface; `unbound` is any phase but `Bound`.
pub data Phase : Type 0 where
  bound unbound : Phase

pub record AttachmentStatus : Type 0 where
  pub name : String
  pub phase : Phase

pub record Machine : Type 0 where
  pub metadata : Metadata
  pub machine_class_ref : String
  pub machine_pool_selector : Dict String
  pub machine_pool_ref : Option String
  pub image : String
  pub image_pull_secret_ref : Option String
  pub ignition_ref : Option SecretKeySelector
  pub efi_vars : List String
  pub volumes : List MachineVolume
  pub network_interfaces : List MachineNic
  pub state : String
  pub volume_statuses : List AttachmentStatus
  pub network_interface_statuses : List AttachmentStatus

pub record MachinePool : Type 0 where
  pub metadata : Metadata
  pub provider_id : String
  pub state : String
  pub available_machine_classes : List String

pub record VolumeAccess : Type 0 where
  pub secret_ref : Option String
  pub driver : String
  pub volume_attributes : Dict String

pub record Volume : Type 0 where
  pub metadata : Metadata
  pub volume_class_ref : String
  pub volume_pool_selector : Dict String
  pub volume_pool_ref : Option String
  pub claim_ref : Option LocalUidReference
  pub unclaimable : Bool
  pub resources : String
  pub image : String
  pub image_pull_secret_ref : Option String
  pub state : String
  pub last_state_transition_time : Option ℕ
  pub access : Option VolumeAccess

pub record VolumePool : Type 0 where
  pub metadata : Metadata
  pub provider_id : String
  pub state : String
  pub available_volume_classes : List String
  pub available : Dict ℕ
  pub used : Dict ℕ

-- An IP with what its method `Family` answers.
pub record Ip : Type 0 where
  pub address : String
  pub family : String

pub record VirtualIpSource : Type 0 where
  pub virtual_ip_ref : Option String
  pub ephemeral : Option String

pub record NetworkInterface : Type 0 where
  pub metadata : Metadata
  pub network_ref : String
  pub machine_ref : Option LocalUidReference
  pub virtual_ip : Option VirtualIpSource
  pub ip_families : List String
  pub ips : List Ip
  pub status_ips : List Ip

pub record Network : Type 0 where
  pub metadata : Metadata

pub record VirtualIp : Type 0 where
  pub metadata : Metadata
  pub ip_type : String
  pub ip_family : String
  pub target_ref : Option LocalUidReference

pub record AliasPrefix : Type 0 where
  pub metadata : Metadata
  pub network_ref : String
  pub prefix_value : Option String
  pub network_interface_selector : Option (Dict String)
  pub status_prefix : Option String

pub record AliasPrefixRouting : Type 0 where
  pub metadata : Metadata
  pub destinations : List LocalUidReference

abbrev pub Obj : Kind → Type 0
Obj namespace = Namespace
Obj secret = Secret
Obj config_map = ConfigMap
Obj machine = Machine
Obj machine_pool = MachinePool
Obj volume = Volume
Obj volume_pool = VolumePool
Obj network_interface = NetworkInterface
Obj network = Network
Obj virtual_ip = VirtualIp
Obj alias_prefix = AliasPrefix
Obj alias_prefix_routing = AliasPrefixRouting

abbrev pub metadata_of : (kind : Kind) → Obj kind → Metadata
metadata_of namespace o = o.metadata
metadata_of secret o = o.metadata
metadata_of config_map o = o.metadata
metadata_of machine o = o.metadata
metadata_of machine_pool o = o.metadata
metadata_of volume o = o.metadata
metadata_of volume_pool o = o.metadata
metadata_of network_interface o = o.metadata
metadata_of network o = o.metadata
metadata_of virtual_ip o = o.metadata
metadata_of alias_prefix o = o.metadata
metadata_of alias_prefix_routing o = o.metadata

abbrev pub with_metadata : (kind : Kind) → Obj kind → Metadata → Obj kind
with_metadata namespace o m = record o { metadata = m }
with_metadata secret o m = record o { metadata = m }
with_metadata config_map o m = record o { metadata = m }
with_metadata machine o m = record o { metadata = m }
with_metadata machine_pool o m = record o { metadata = m }
with_metadata volume o m = record o { metadata = m }
with_metadata volume_pool o m = record o { metadata = m }
with_metadata network_interface o m = record o { metadata = m }
with_metadata network o m = record o { metadata = m }
with_metadata virtual_ip o m = record o { metadata = m }
with_metadata alias_prefix o m = record o { metadata = m }
with_metadata alias_prefix_routing o m = record o { metadata = m }

abbrev pub meta_object : (kind : Kind) → Obj kind → MetaObject
meta_object kind o = record { kind = some kind; metadata = metadata_of kind o }
