-- ===== src/Examples/Objects.antt =====
-- Objects of the source and of the target cluster for the examples.
use poollet.Base.{true, String, Bool, false, List, [], ◌∷◌, Option, none, some}
use poollet.Api.Metadata.{Metadata, MetaObject, machine}
use poollet.Api.Objects.{
  Namespace, Secret, ConfigMap, Machine, MachineVolume, MachineNic, Network, NetworkInterface,
  VirtualIp, AliasPrefix, AliasPrefixRouting, bound, unbound, Volume,
}
use poollet.Multicluster.Reference.{OwnerReference}
use poollet.Multicluster.Meta.{object_meta_annotation}
use poollet.Errors.{ok}
use poollet.Prog.{done, perform, get, cached, live, source, ◌>>=◌}
use poollet.Dependents.{Mixin}
use poollet.Helpers.{Shared}
use poollet.Controllers.Common.{Config, target_object}
use poollet.Examples.Codec.{encode}

abbrev pub config : Config
config = record {
  cluster_name = "main";
  pool_name = "pool";
  base_domain = "broker.poollet.onmetal.de";
  target_pool_name = "target-pool";
  target_pool_labels = ("zone", "a") ∷ [];
}

abbrev pub shared : Shared
shared = record {
  machine_spec_volume_names = λ m. "disk" ∷ [];
  machine_spec_network_interface_names = λ m. "eth" ∷ [];
  machine_ephemeral_volume_name = λ m v. m;
  machine_ephemeral_network_interface_name = λ m n. m;
}

-- An object of the source cluster, with its finalizers.
abbrev pub source_metadata : String → List String → Metadata
source_metadata name finalizers = record (target_object "default" name) {
  uid = "1234";
  resource_version = "7";
  finalizers = finalizers;
}

abbrev pub target_namespace : Namespace
target_namespace = record { metadata = target_object "" "default-x7k2p" }

abbrev pub source_secret : Secret
source_secret = record {
  metadata = source_metadata "s" ("pool.broker.poollet.onmetal.de/secret" ∷ []);
  contents = ("password", "hunter2") ∷ [];
}

abbrev pub source_config_map : ConfigMap
source_config_map = record {
  metadata = source_metadata "c" ("pool.broker.poollet.onmetal.de/configmap" ∷ []);
  contents = ("k", "v") ∷ [];
}

abbrev pub root_volume : MachineVolume
root_volume = record {
  name = "root";
  device = "vda";
  volume_source = record { empty_disk = none; volume_ref = some "disk"; ephemeral = none };
}

abbrev pub first_nic : MachineNic
first_nic = record {
  name = "nic";
  nic_source = record { network_interface_ref = some "eth"; ephemeral = none };
}

abbrev pub source_machine : Machine
source_machine = record {
  metadata = source_metadata "m" ("pool.broker.poollet.onmetal.de/machine" ∷ []);
  machine_class_ref = "small";
  machine_pool_selector = [];
  machine_pool_ref = some "pool";
  image = "linux";
  image_pull_secret_ref = none;
  ignition_ref = some (record { name = "ignition"; key = "data" });
  efi_vars = [];
  volumes = root_volume ∷ [];
  network_interfaces = first_nic ∷ [];
  state = "";
  volume_statuses = record { name = "root"; phase = bound } ∷ [];
  network_interface_statuses = record { name = "nic"; phase = unbound } ∷ [];
}

abbrev pub source_volume : Volume
source_volume = record {
  metadata = source_metadata "disk" [];
  volume_class_ref = "fast";
  volume_pool_selector = [];
  volume_pool_ref = none;
  claim_ref = none;
  unclaimable = false;
  resources = "";
  image = "";
  image_pull_secret_ref = none;
  state = "";
  last_state_transition_time = none;
  access = none;
}

abbrev pub source_nic : NetworkInterface
source_nic = record {
  metadata = source_metadata "eth" ("pool.broker.poollet.onmetal.de/networkinterface" ∷ []);
  network_ref = "net";
  machine_ref = some (record { name = "m"; uid = "1234" });
  virtual_ip = none;
  ip_families = [];
  ips = [];
  status_ips = [];
}

abbrev pub source_network : Network
source_network = record {
  metadata = source_metadata "net" ("pool.broker.poollet.onmetal.de/network" ∷ []);
}

abbrev pub source_virtual_ip : VirtualIp
source_virtual_ip = record {
  metadata = source_metadata "vip" [];
  ip_type = "Public";
  ip_family = "IPv4";
  target_ref = some (record { name = "eth"; uid = "1234" });
}

abbrev pub source_alias_prefix : AliasPrefix
source_alias_prefix = record {
  metadata = source_metadata "prefix" [];
  network_ref = "net";
  prefix_value = none;
  network_interface_selector = none;
  status_prefix = some "10.0.0.0/24";
}

abbrev pub routing : AliasPrefixRouting
routing = record {
  metadata = source_metadata "prefix" [];
  destinations = record { name = "eth"; uid = "1234" } ∷ [];
}

-- An owner, an object without owners, and that object with the owner as its controller or as a
-- plain owner.
abbrev pub owner : MetaObject
owner = record { kind = some machine; metadata = source_machine.metadata }

abbrev pub reference : Option Bool → OwnerReference
reference controller = record {
  cluster_name = "main";
  api_version = "compute.api.onmetal.de/v1alpha1";
  kind = "Machine";
  namespace = "default";
  name = "m";
  uid = "1234";
  controller = controller;
}

abbrev pub fresh : Metadata
fresh = target_object "default-x7k2p" "m"

abbrev pub owned_by : Option Bool → Metadata
owned_by controller = record fresh {
  annotations = (object_meta_annotation, encode (reference controller ∷ [])) ∷ [];
}

-- One dependent, which looks into the cache and then asks the server.
abbrev pub one_dependent : Mixin
one_dependent =
    record {
      cached_referencer = λ referenced.
          perform (get (cached source) machine (record { namespace = "default"; name = "m" }))
          >>= λ r. done (ok false);
      live_referencer = λ referenced.
          perform (get (live source) machine (record { namespace = "default"; name = "m" }))
          >>= λ r. done (ok true);
    }
    ∷ []

abbrev pub source_namespace : Namespace
source_namespace = record {
  metadata = record (target_object "" "default") { uid = "99"; resource_version = "3" };
}
