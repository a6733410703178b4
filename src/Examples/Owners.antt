-- ===== src/Examples/Owners.antt =====
-- The theorems on owner references at concrete objects.
use poollet.Base.{true, false, [], ◌∷◌, none, some, ◌≡◌, refl}
use poollet.Base.Dict.{lookup, insert, remove}
use poollet.Errors.{ok}
use poollet.Api.Metadata.{Metadata, machine}
use poollet.Multicluster.Meta.{
  get_owner_references, set_owner_references, object_meta_annotation, get_controller_of,
  get_object_meta, set_object_meta,
}
use poollet.Multicluster.Meta.Annotation.{get-set_owner_references}
use poollet.Multicluster.OwnerRefs.{
  set_controller_reference, set_owner_reference, remove_owner_reference, has_owner_reference,
  upsert_owner_ref, remove_owner_ref, refer_same_object,
}
use poollet.Multicluster.OwnerRefs.Upsert.{Distinct, has}
use poollet.Multicluster.OwnerRefs.Objects.{
  IsValid, set_controller_reference-IsValid, has-set_owner_reference, has-remove_owner_reference,
}
use poollet.Handlers.{BrokerOwnerHandler, broker_owner_handler, enqueue, create}
use poollet.Handlers.BrokerOwner.{enqueue-set_controller_reference}
use poollet.Examples.Codec.{machinery, machinery-IsLossless, machinery-ParsesPrinted}
use poollet.Examples.Objects.{owner, fresh, reference, owned_by}

fresh-IsValid : IsValid machinery fresh
unfolding get_owner_references get_object_meta lookup
fresh-IsValid = record { distinct = tt; one_controller = tt }

owned-Distinct : Distinct machinery (get_owner_references machinery (owned_by none))
unfolding get_owner_references get_object_meta lookup has
owned-Distinct = (refl, tt)

controlled : set_controller_reference machinery "main" owner fresh ≡ ok (owned_by (some true))
unfolding set_controller_reference upsert_owner_ref get_controller_of get_owner_references
    get_object_meta set_owner_references set_object_meta lookup insert remove
controlled = refl

get-set_owner_references_example :
    get_owner_references machinery (set_owner_references machinery fresh (reference none ∷ []))
    ≡ reference none ∷ []
get-set_owner_references_example =
    get-set_owner_references machinery machinery-IsLossless fresh (reference none ∷ [])

set_controller_reference-IsValid_example : IsValid machinery (owned_by (some true))
set_controller_reference-IsValid_example =
    set_controller_reference-IsValid machinery machinery-IsLossless "main" owner fresh
      (owned_by (some true)) fresh-IsValid controlled

owned : set_owner_reference machinery "main" owner fresh ≡ ok (owned_by none)
unfolding set_owner_reference upsert_owner_ref get_owner_references get_object_meta
    set_owner_references set_object_meta lookup insert remove
owned = refl

has-set_owner_reference_example :
    has_owner_reference machinery "main" owner (owned_by none) ≡ ok true
has-set_owner_reference_example =
    has-set_owner_reference machinery machinery-IsLossless machinery-ParsesPrinted "main" owner
      fresh (owned_by none) owned

-- The object once the owner is removed: the annotation stays, with no reference in it.
abbrev disowned : Metadata
disowned = record fresh { annotations = (object_meta_annotation, "") ∷ [] }

removed_owner : remove_owner_reference machinery "main" owner (owned_by none) ≡ ok disowned
unfolding remove_owner_reference remove_owner_ref get_owner_references get_object_meta
    set_owner_references set_object_meta lookup insert remove refer_same_object
removed_owner = refl

has-remove_owner_reference_example :
    (has_owner_reference machinery "main" owner disowned ≡ ok false)
    × Distinct machinery (get_owner_references machinery disowned)
has-remove_owner_reference_example =
    has-remove_owner_reference machinery machinery-IsLossless "main" owner (owned_by none) disowned
      owned-Distinct removed_owner

-- The handler for machines of the cluster.
abbrev machine_handler : BrokerOwnerHandler
machine_handler = record {
  cluster_name = "main";
  is_controller = true;
  group = "compute.api.onmetal.de";
  kind = "Machine";
}

machine_handler_made : broker_owner_handler machinery "main" true machine ≡ ok machine_handler
unfolding broker_owner_handler
machine_handler_made = refl

enqueue-set_controller_reference_example :
    enqueue machinery machine_handler (create (owned_by (some true)))
    ≡ record { namespace = "default"; name = "m" } ∷ []
enqueue-set_controller_reference_example =
    enqueue-set_controller_reference machinery machinery-IsLossless machinery-ParsesPrinted "main"
      machine machine_handler owner.metadata fresh (owned_by (some true)) machine_handler_made
      controlled
