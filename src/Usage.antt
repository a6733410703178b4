-- ===== src/Usage.antt =====
-- api/networking/controller/controller.go and api/storage/controller/controller.go: whether an
-- object is used by a machine of a machine pool, by the cache and, if that says no, by the server.
pub mod Reading
pub mod Answer
use poollet.Base.{
  String, Bool, true, false, not, ◌&&◌, ◌==◌, List, [], ◌∷◌, Option, none, some, if◌then◌else◌, map,
}
use poollet.Errors.{Result, ok, err, Error, wrap, ignore_not_found, is_not_found}
use poollet.Api.Metadata.{
  Kind, Metadata, machine, network_interface, network, alias_prefix_routing, virtual_ip,
}
use poollet.Api.Objects.{
  Machine, Volume, NetworkInterface, Network, AliasPrefix, AliasPrefixRouting, VirtualIp,
  LocalUidReference,
}
use poollet.Prog.{
  Prog, done, perform, ◌>>=◌, ◌>>?◌, ObjectKey, ListOptions, Reader, cached, live, source, get,
  list,
}
use poollet.Dependents.{or_else}
use poollet.Helpers.{
  Shared, has_name, machine_runs_in_machine_pool, network_interface_references_network_name,
}

-- `return false, err` where `err` may be nil
abbrev pub false_or : Option Error → Result Bool
false_or none = ok false
false_or (some e) = err e

abbrev pub key_of : Metadata → ObjectKey
key_of obj = record { namespace = obj.namespace; name = obj.name }

abbrev pub key_beside : Metadata → String → ObjectKey
key_beside obj name = record { namespace = obj.namespace; name = name }

-- The field index of network interfaces by the name of their network.
abbrev pub network_ref_name_field : String
network_ref_name_field = ".spec.networkRef.name"

module _ (sh : Shared) (pool_name : String) where
  -- Whether the machine that claims an object by `ref` runs in the pool and lists the object.
  abbrev pub claims : List String → LocalUidReference → String → Machine → Bool
  claims names ref name m =
      machine_runs_in_machine_pool m pool_name && (ref.uid == m.metadata.uid && has_name names name)

  abbrev nic_used_by : Reader → NetworkInterface → Prog (Result Bool)
  nic_used_by reader nic = elim nic.machine_ref [
    | none ↦ done (ok false)
    | some ref ↦ perform (get reader machine (key_beside nic.metadata ref.name)) >>= elim [
      | err e ↦ done (false_or (ignore_not_found (some e)))
      | ok m ↦
          done (ok (claims (sh.machine_spec_network_interface_names m) ref nic.metadata.name m))
    ]
  ]

  unfoldable pub is_network_interface_used_cached : NetworkInterface → Prog (Result Bool)
  is_network_interface_used_cached = nic_used_by (cached source)

  unfoldable pub is_network_interface_used_live : NetworkInterface → Prog (Result Bool)
  is_network_interface_used_live = nic_used_by (live source)

  unfoldable pub is_network_interface_used_cached_or_live : NetworkInterface → Prog (Result Bool)
  is_network_interface_used_cached_or_live nic =
      is_network_interface_used_cached nic
      >>= or_else (is_network_interface_used_live nic >>= or_else (done (ok false)))

  -- The loop over the destinations of a routing.
  unfoldable pub any_destination_used :
      (NetworkInterface → Prog (Result Bool))
      → Reader
      → Metadata
      → List LocalUidReference
      → Prog (Result Bool)
  any_destination_used used reader alias_prefix [] = done (ok false)
  any_destination_used used reader alias_prefix (d ∷ destinations) =
      let rest = any_destination_used used reader alias_prefix destinations in
      perform (get reader network_interface (key_beside alias_prefix d.name)) >>= elim [
        | err e ↦
            if not (is_not_found (some e))
            then done (err (wrap "error getting network interface" e))
            else rest
        | ok nic ↦ used nic >>= or_else rest
      ]

  abbrev alias_prefix_used_by :
      (NetworkInterface → Prog (Result Bool)) → Reader → AliasPrefix → Prog (Result Bool)
  alias_prefix_used_by used reader alias_prefix =
      perform (get reader alias_prefix_routing (key_of alias_prefix.metadata)) >>= elim [
        | err e ↦ done (false_or (ignore_not_found (some e)))
        | ok routing ↦ any_destination_used used reader alias_prefix.metadata routing.destinations
      ]

  unfoldable pub is_alias_prefix_used_cached : AliasPrefix → Prog (Result Bool)
  unfolding any_destination_used
  is_alias_prefix_used_cached =
      alias_prefix_used_by is_network_interface_used_cached (cached source)

  unfoldable pub is_alias_prefix_used_live : AliasPrefix → Prog (Result Bool)
  unfolding any_destination_used
  is_alias_prefix_used_live = alias_prefix_used_by is_network_interface_used_live (live source)

  unfoldable pub is_alias_prefix_used_cached_or_live : AliasPrefix → Prog (Result Bool)
  is_alias_prefix_used_cached_or_live alias_prefix =
      is_alias_prefix_used_cached alias_prefix
      >>= or_else (is_alias_prefix_used_live alias_prefix >>= or_else (done (ok false)))

  -- The loop over the interfaces that the cache has indexed by the network.
  unfoldable pub any_nic_used :
      (NetworkInterface → Prog (Result Bool)) → List NetworkInterface → Prog (Result Bool)
  any_nic_used used [] = done (ok false)
  any_nic_used used (nic ∷ nics) = used nic >>= or_else (any_nic_used used nics)

  -- The loop over all interfaces of the namespace, which passes over those of other networks.
  unfoldable pub any_nic_of_network_used :
      (NetworkInterface → Prog (Result Bool)) → String → List NetworkInterface → Prog (Result Bool)
  unfolding network_interface_references_network_name
  any_nic_of_network_used used network_name [] = done (ok false)
  any_nic_of_network_used used network_name (nic ∷ nics) =
      let rest = any_nic_of_network_used used network_name nics in
      if not (network_interface_references_network_name nic network_name)
      then rest
      else used nic >>= or_else rest

  -- networkingindexclient.ListNetworkInterfacesReferencingNetworkKey
  unfoldable pub list_network_interfaces_referencing_network_key :
      ObjectKey → Prog (Result (List NetworkInterface))
  list_network_interfaces_referencing_network_key network_key =
      perform (
        list (cached source) network_interface (record {
          namespace = some network_key.namespace;
          fields = (network_ref_name_field, network_key.name) ∷ [];
          labels = [];
        }))
      >>= elim [
        | err e ↦ done (err (wrap "error listing network interfaces" e))
        | ok nics ↦ done (ok nics)
      ]

  unfoldable pub is_network_used_cached : Network → Prog (Result Bool)
  unfolding any_nic_used list_network_interfaces_referencing_network_key
  is_network_used_cached obj =
      list_network_interfaces_referencing_network_key (key_of obj.metadata) >>? λ nics.
      any_nic_used is_network_interface_used_cached nics

  unfoldable pub is_network_used_live : Network → Prog (Result Bool)
  unfolding any_nic_of_network_used
  is_network_used_live obj =
      perform (
        list (live source) network_interface
          (record { namespace = some obj.metadata.namespace; fields = []; labels = [] }))
      >>? λ nics. any_nic_of_network_used is_network_interface_used_live obj.metadata.name nics

  unfoldable pub is_network_used_cached_or_live : Network → Prog (Result Bool)
  is_network_used_cached_or_live obj =
      is_network_used_cached obj
      >>= or_else (is_network_used_live obj >>= or_else (done (ok false)))

  abbrev virtual_ip_used_by :
      (NetworkInterface → Prog (Result Bool)) → Reader → VirtualIp → Prog (Result Bool)
  virtual_ip_used_by used reader obj = elim obj.target_ref [
    | none ↦ done (ok false)
    | some ref ↦
        perform (get reader network_interface (key_beside obj.metadata ref.name))
        >>= elim [ err e ↦ done (false_or (ignore_not_found (some e))) | ok nic ↦ used nic ]
  ]

  unfoldable pub is_virtual_ip_used_cached : VirtualIp → Prog (Result Bool)
  is_virtual_ip_used_cached = virtual_ip_used_by is_network_interface_used_cached (cached source)

  unfoldable pub is_virtual_ip_used_live : VirtualIp → Prog (Result Bool)
  is_virtual_ip_used_live = virtual_ip_used_by is_network_interface_used_live (live source)

  unfoldable pub is_virtual_ip_used_cached_or_live : VirtualIp → Prog (Result Bool)
  is_virtual_ip_used_cached_or_live obj =
      is_virtual_ip_used_cached obj
      >>= or_else (is_virtual_ip_used_live obj >>= or_else (done (ok false)))

  abbrev volume_used_by : Reader → Volume → Prog (Result Bool)
  volume_used_by reader volume = elim volume.claim_ref [
    | none ↦ done (ok false)
    | some ref ↦ perform (get reader machine (key_beside volume.metadata ref.name)) >>= elim [
      | err e ↦ done (false_or (ignore_not_found (some e)))
      | ok m ↦ done (ok (claims (sh.machine_spec_volume_names m) ref volume.metadata.name m))
    ]
  ]

  unfoldable pub is_volume_used_by_machine_in_machine_pool_live : Volume → Prog (Result Bool)
  is_volume_used_by_machine_in_machine_pool_live = volume_used_by (live source)

  unfoldable pub is_volume_used_by_machine_in_machine_pool_cached : Volume → Prog (Result Bool)
  is_volume_used_by_machine_in_machine_pool_cached = volume_used_by (cached source)

  unfoldable pub is_volume_used_cached_or_live : Volume → Prog (Result Bool)
  is_volume_used_cached_or_live volume =
      is_volume_used_by_machine_in_machine_pool_cached volume
      >>= or_else
          (is_volume_used_by_machine_in_machine_pool_live volume >>= or_else (done (ok false)))

-- The keys of the reconcile requests for the volumes of a machine.
unfoldable pub volume_reconcile_requests_from_machine : Shared → Machine → List ObjectKey
volume_reconcile_requests_from_machine sh m =
    map (key_beside m.metadata) (sh.machine_spec_volume_names m)
