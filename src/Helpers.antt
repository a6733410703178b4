-- ===== src/Helpers.antt =====
-- api/compute/helper, api/storage/helper and api/networking/helper, and what they call of the
-- onmetal API's own helpers, which is a parameter.
pub mod Names
use poollet.Base.{
  String, Bool, true, false, ◌==◌, ◌||◌, List, [], ◌∷◌, ◌++◌, Option, none, some, if◌then◌else◌,
  map,
}
use poollet.Api.Objects.{
  Machine, Volume, NetworkInterface, AliasPrefixRouting, SecretKeySelector, VolumeAccess,
  VirtualIpSource, LocalUidReference,
}

-- `sets.String` as a list of its members, and `Has`.
abbrev pub has_name : List String → String → Bool
has_name [] name = false
has_name (n ∷ names) name = n == name || has_name names name

-- `sets.String.Insert`
abbrev pub insert_name : String → List String → List String
insert_name name names = if has_name names name then names else name ∷ names

-- github.com/onmetal/onmetal-api/controllers/shared
pub record Shared : Type 0 where
  pub machine_spec_volume_names : Machine → List String
  pub machine_spec_network_interface_names : Machine → List String
  pub machine_ephemeral_volume_name : String → String → String
  pub machine_ephemeral_network_interface_name : String → String → String

abbrev pub refers_to : Option String → String → Bool
refers_to none name = false
refers_to (some n) name = n == name

unfoldable pub machine_runs_in_machine_pool : Machine → String → Bool
machine_runs_in_machine_pool machine pool_name = refers_to machine.machine_pool_ref pool_name

abbrev pub MachinePredicate : Type 0
MachinePredicate = Machine → Bool

unfoldable pub and_machine_predicate : List MachinePredicate → MachinePredicate
and_machine_predicate [] machine = true
and_machine_predicate (predicate ∷ predicates) machine =
    if predicate machine then and_machine_predicate predicates machine else false

abbrev pub insert_if_some : Option String → List String → List String
insert_if_some none names = names
insert_if_some (some name) names = insert_name name names

abbrev pub selected : Option SecretKeySelector → Option String
selected none = none
selected (some s) = some s.name

unfoldable pub machine_spec_secret_names : Machine → List String
machine_spec_secret_names machine =
    insert_if_some (selected machine.ignition_ref) (insert_if_some machine.image_pull_secret_ref [])

unfoldable pub machine_spec_config_map_names : Machine → List String
machine_spec_config_map_names machine = []

unfoldable pub volume_runs_in_volume_pool : Volume → String → Bool
volume_runs_in_volume_pool volume pool_name = refers_to volume.volume_pool_ref pool_name

unfoldable pub filter_volumes_running_in_volume_pool : List Volume → String → List Volume
unfolding volume_runs_in_volume_pool
filter_volumes_running_in_volume_pool [] pool_name = []
filter_volumes_running_in_volume_pool (volume ∷ volumes) pool_name =
    let rest = filter_volumes_running_in_volume_pool volumes pool_name in
    if volume_runs_in_volume_pool volume pool_name then volume ∷ rest else rest

abbrev access_secret : Option VolumeAccess → Option String
access_secret none = none
access_secret (some access) = access.secret_ref

unfoldable pub volume_references_access_secret_name : Volume → String → Bool
volume_references_access_secret_name volume secret_name =
    refers_to (access_secret volume.access) secret_name

unfoldable pub filter_volumes_referencing_secret_access_name : List Volume → String → List Volume
unfolding volume_references_access_secret_name
filter_volumes_referencing_secret_access_name [] secret_name = []
filter_volumes_referencing_secret_access_name (volume ∷ volumes) secret_name =
    let rest = filter_volumes_referencing_secret_access_name volumes secret_name in
    if volume_references_access_secret_name volume secret_name then volume ∷ rest else rest

abbrev to_list : Option String → List String
to_list none = []
to_list (some name) = name ∷ []

unfoldable pub volume_spec_secret_names : Volume → List String
volume_spec_secret_names volume = to_list volume.image_pull_secret_ref

unfoldable pub volume_status_secret_names : Volume → List String
volume_status_secret_names volume = to_list (access_secret volume.access)

unfoldable pub network_interface_references_network_name : NetworkInterface → String → Bool
network_interface_references_network_name nic network_name = nic.network_ref == network_name

abbrev virtual_ip_name : String → Option VirtualIpSource → String
virtual_ip_name nic_name none = ""
virtual_ip_name nic_name (some source) = elim source.virtual_ip_ref [
  | some name ↦ name
  | none ↦ elim source.ephemeral [ some _ ↦ nic_name | none ↦ "" ]
]

unfoldable pub network_interface_virtual_ip_name : NetworkInterface → String
network_interface_virtual_ip_name nic = virtual_ip_name nic.metadata.name nic.virtual_ip

unfoldable pub alias_prefix_routing_network_interface_names : AliasPrefixRouting → List String
alias_prefix_routing_network_interface_names routing =
    map (λ (d : LocalUidReference). d.name) routing.destinations
