-- ===== src/Examples/Parts.antt =====
-- The theorems on the parts that the reconcilers are built from, each at a concrete input.
use poollet.Base.Dict.{insert, remove, lookup}
use poollet.Multicluster.Meta.{
  set_object_meta, set_owner_references, get_object_meta, get_owner_references, get_controller_of,
}
use poollet.Multicluster.OwnerRefs.{upsert_owner_ref, set_controller_reference}
use poollet.Base.{String, Bool, true, false, [], ◌∷◌, none, some, ◌≡◌, refl, ◌≢◌, arith, ap, eq_iff}
use poollet.Errors.{ok}
use poollet.Api.Metadata.{GroupVersionKind, secret, machine}
use poollet.Api.Objects.{Secret, Machine}
use poollet.Prog.Trace.{after}
use poollet.Prog.Replay.{Replies, trace_of, run_of, result_of}
use poollet.Sync.{empty_builder}
use poollet.Domain.{split, subdomain, is_subdomain}
use poollet.Domain.Split.{split-inverse}
use poollet.Provider.{Providers, register, type_provider_for}
use poollet.Provider.Registered.{type_provider_for-register}
use poollet.BrokerClient.{broker_controlled_mutate}
use poollet.BrokerClient.Mutate.{broker_controlled_mutate-IsOwned, IsOwned}
use poollet.Controllers.Secret.{copy_data}
use poollet.Controllers.MachineMutations.{
  register_volumes_mutation, register_network_interfaces_mutation,
}
use poollet.Controllers.MachineMutations.Kept.{KeepsVolumes, register_volumes_mutation-keeps}
use poollet.Controllers.AliasPrefixRouting.{target_destination}
use poollet.Controllers.AliasPrefixRouting.Destination.{
  target_destination-elsewhere, Passed, last_machine,
}
use poollet.Examples.Codec.{gvk_for, machinery, machinery-IsLossless}
use poollet.Examples.Objects.{
  config, shared, source_machine, source_nic, source_secret, owner, fresh, owned_by,
  source_alias_prefix, source_volume,
}

-- The volume's target exists.
abbrev volume_replies :
    Replies (register_volumes_mutation shared config source_machine empty_builder)
unfolding register_volumes_mutation
volume_replies = (ok source_volume, tt)

register_volumes_mutation-keeps_example :
    KeepsVolumes shared config source_machine empty_builder source_machine (
      result_of
        (register_volumes_mutation shared config source_machine empty_builder)
        volume_replies)
register_volumes_mutation-keeps_example =
    register_volumes_mutation-keeps shared config source_machine empty_builder source_machine
      (run_of (register_volumes_mutation shared config source_machine empty_builder) volume_replies)

-- The interface is not bound yet, so there is no call.
abbrev nic_replies :
    Replies (register_network_interfaces_mutation shared config source_machine empty_builder)
unfolding register_network_interfaces_mutation
nic_replies = tt

abbrev elsewhere : Machine
elsewhere = record source_machine { machine_pool_ref = some "other" }

-- The machine runs in another pool.
abbrev destination_replies : Replies (
    target_destination machinery config source_alias_prefix (record { name = "eth"; uid = "1234" }))
unfolding target_destination
destination_replies = (ok source_nic, (ok elsewhere, (ok source_nic, tt)))

target_destination-elsewhere_example :
    Passed machinery config
      (after
        (last_machine machinery config)
        (λ s o. Unit)
        none
        (trace_of
          (target_destination machinery config source_alias_prefix
            (record { name = "eth"; uid = "1234" }))
          destination_replies))
      (result_of
        (target_destination machinery config source_alias_prefix
          (record { name = "eth"; uid = "1234" }))
        destination_replies)
target_destination-elsewhere_example =
    target_destination-elsewhere machinery config source_alias_prefix
      (record { name = "eth"; uid = "1234" })
      (run_of
        (target_destination machinery config source_alias_prefix
          (record { name = "eth"; uid = "1234" }))
        destination_replies)

-- A new target secret, and what the mutation makes of it.
abbrev new_secret : Secret
new_secret = record { metadata = fresh; contents = [] }

abbrev made_secret : Secret
made_secret = record { metadata = owned_by (some true); contents = source_secret.contents }

copy_data-metadata :
    (o o' : Secret) → copy_data machinery config source_secret o ≡ ok o' → o'.metadata ≡ o.metadata
unfolding copy_data
copy_data-metadata o o' h = ground arith

made :
    broker_controlled_mutate machinery "main" owner secret
      (copy_data machinery config source_secret)
      new_secret
    ≡ ok made_secret
unfolding broker_controlled_mutate copy_data set_controller_reference get_controller_of
    get_owner_references get_object_meta lookup upsert_owner_ref set_owner_references
    set_object_meta remove insert
made = refl

broker_controlled_mutate-IsOwned_example :
    IsOwned machinery machinery-IsLossless "main" owner secret made_secret
broker_controlled_mutate-IsOwned_example =
    broker_controlled_mutate-IsOwned machinery machinery-IsLossless "main" owner secret
      (copy_data machinery config source_secret) new_secret made_secret copy_data-metadata made

abbrev with_image : String → Machine → Machine
with_image image m = record m { image = image }

abbrev pool_label : String
pool_label = "pool"

pool_nonempty : pool_label ≢ ""
pool_nonempty h = ground (arith, (eq_iff pool_label "").1 h)

has_label : is_subdomain "pool.onmetal.de" ≡ true
unfolding is_subdomain
has_label = refl

split-inverse_example :
    (split (subdomain "onmetal.de" "pool") ≡ ("pool", "onmetal.de"))
    × (subdomain (split "pool.onmetal.de").1 (split "pool.onmetal.de").0 ≡ "pool.onmetal.de")
split-inverse_example =
    split-inverse "onmetal.de" pool_label "pool.onmetal.de" pool_nonempty
      (refl, (refl, (refl, (refl, tt)))) has_label

-- A registry that has a provider of machines, and then one of secrets too.
abbrev machines : Providers Bool
machines = (gvk_for machine, false) ∷ []

abbrev machines_and_secrets : Providers Bool
machines_and_secrets = (gvk_for secret, true) ∷ machines

registered : register machinery machines secret true ≡ ok machines_and_secrets
unfolding register
registered = refl

other_kinds : gvk_for secret ≢ gvk_for machine
other_kinds h =
    ground (arith, (eq_iff "Secret" "Machine").1 (ap (λ (g : GroupVersionKind). g.kind) h))

type_provider_for-register_example :
    (type_provider_for machinery machines_and_secrets secret ≡ ok true)
    × ((q : Bool) (again : Providers Bool)
        → register machinery machines_and_secrets secret q ≢ ok again)
    × (type_provider_for machinery machines_and_secrets machine
        ≡ type_provider_for machinery machines machine)
type_provider_for-register_example =
    type_provider_for-register machinery machines machines_and_secrets secret true machine
      (gvk_for secret) (gvk_for machine) refl refl other_kinds registered
