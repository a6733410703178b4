-- ===== src/Controllers/AliasPrefixRouting.antt =====
-- broker/controllers/networking/aliasprefix_controller.go: the routing of an alias prefix.
pub mod Destination
use poollet.Base.{
  String, Bool, true, false, not, ◌||◌, ◌==◌, List, [], ◌∷◌, Option, none, some, if◌then◌else◌,
}
use poollet.Errors.{Result, ok, err, wrap, is_not_found, is_not_synced}
use poollet.Api.Metadata.{Machinery, alias_prefix, alias_prefix_routing, network_interface, machine}
use poollet.Api.Objects.{AliasPrefix, AliasPrefixRouting, LocalUidReference, Machine}
use poollet.Prog.{
  Prog, done, perform, ◌>>=◌, ◌>>?◌, ObjectKey, source, target, cached, get, provider_target,
}
use poollet.Multicluster.Reference.{OwnerReference}
use poollet.Multicluster.Meta.{get_controller_of}
use poollet.Multicluster.OwnerRefs.{refers_to_cluster_and_type}
use poollet.Sync.{CompositeMutationBuilder, empty_builder, add, set_partial}
use poollet.Helpers.{machine_runs_in_machine_pool}
use poollet.Controllers.Common.{Config, target_object}
use poollet.Controllers.Apply.{key_of, key_beside, apply_builder}

abbrev pub RoutingBuilder : Type 0
RoutingBuilder = CompositeMutationBuilder AliasPrefixRouting

module _ (k : Machinery) (r : Config) where
  -- A destination of the routing once its machine is read: its target, if it is not passed over.
  unfoldable pub destination_of_machine :
      ObjectKey
      → LocalUidReference
      → LocalUidReference
      → Machine
      → Prog (Result (Option LocalUidReference))
  unfolding machine_runs_in_machine_pool
  destination_of_machine nic_key destination machine_ref m =
      if not (machine_ref.uid == destination.uid) || machine_runs_in_machine_pool m r.pool_name
      then done (ok none)
      else perform (provider_target network_interface nic_key) >>= elim [
        | ok t ↦ done (ok (some (record { name = t.metadata.name; uid = t.metadata.uid })))
        | err e ↦
            if not (is_not_synced (some e))
            then done (err (wrap "error getting network interface target" e))
            else done (ok none)
      ]

  -- The body of the loop over the destinations of the routing.
  unfoldable pub target_destination :
      AliasPrefix → LocalUidReference → Prog (Result (Option LocalUidReference))
  unfolding destination_of_machine
  target_destination obj destination =
      perform (get (cached source) network_interface (key_beside obj.metadata destination.name))
      >>= elim [
        | err e ↦
            if not (is_not_found (some e))
            then done (err (wrap "error getting network interface" e))
            else done (ok none)
        | ok nic ↦
            if not (destination.uid == nic.metadata.uid)
            then done (ok none)
            else elim nic.machine_ref [
              | none ↦ done (ok none)
              | some machine_ref ↦
                  perform (get (cached source) machine (key_beside obj.metadata machine_ref.name))
                  >>= elim [
                    | err e ↦
                        if not (is_not_found (some e))
                        then done (err (wrap "error getting network interface machine" e))
                        else done (ok none)
                    | ok m ↦
                        destination_of_machine (key_beside obj.metadata destination.name)
                          destination machine_ref m
                  ]
            ]
      ]

  abbrev added_destination :
      Option LocalUidReference → List LocalUidReference → List LocalUidReference
  added_destination none rest = rest
  added_destination (some d) rest = d ∷ rest

  unfoldable pub target_destinations :
      AliasPrefix → List LocalUidReference → Prog (Result (List LocalUidReference))
  unfolding target_destination
  target_destinations obj [] = done (ok [])
  target_destinations obj (d ∷ destinations) = target_destination obj d >>? λ t.
      target_destinations obj destinations >>? λ rest. done (ok (added_destination t rest))

  abbrev set_destinations : List LocalUidReference → AliasPrefixRouting → AliasPrefixRouting
  set_destinations destinations t = record t { destinations = destinations }

  unfoldable pub register_alias_prefix_routing_mutation :
      AliasPrefix → RoutingBuilder → Prog (Result RoutingBuilder)
  unfolding target_destinations add set_partial
  register_alias_prefix_routing_mutation obj b =
      perform (get (cached source) alias_prefix_routing (key_of obj.metadata)) >>= elim [
        | err e ↦
            if not (is_not_found (some e))
            then done (err (wrap "error getting alias prefix routing" e))
            else done (ok (set_partial b))
        | ok routing ↦ target_destinations obj routing.destinations >>? λ destinations.
            done (ok (add (set_destinations destinations) b))
      ]

  abbrev pub fresh_routing : AliasPrefix → AliasPrefixRouting
  fresh_routing t = record {
    metadata = target_object t.metadata.namespace t.metadata.name;
    destinations = [];
  }

  unfoldable pub apply_target_routing :
      AliasPrefix → AliasPrefix → Prog (Result (Option AliasPrefixRouting × Bool))
  unfolding register_alias_prefix_routing_mutation
  apply_target_routing obj t =
      register_alias_prefix_routing_mutation obj empty_builder
      >>? apply_builder k r.cluster_name alias_prefix alias_prefix_routing obj (fresh_routing t)

  -- The request for the alias prefix whose target a routing in the target cluster belongs to.
  abbrev requests_of : Option OwnerReference → List ObjectKey
  requests_of none = []
  requests_of (some ctrl) = elim (refers_to_cluster_and_type k r.cluster_name alias_prefix ctrl) [
    | err e ↦ []
    | ok false ↦ []
    | ok true ↦ record { namespace = ctrl.namespace; name = ctrl.name } ∷ []
  ]

  -- The watch of routings in the target cluster; errors are only logged.
  unfoldable pub requests_of_target_routing : AliasPrefixRouting → Prog (List ObjectKey)
  unfolding get_controller_of refers_to_cluster_and_type
  requests_of_target_routing routing =
      perform (get (cached target) alias_prefix (key_of routing.metadata))
      >>= elim [ err e ↦ done [] | ok t ↦ done (requests_of (get_controller_of k t.metadata)) ]
