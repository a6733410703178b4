-- ===== src/Controllers/MachineMutations/Quiet.antt =====
-- Collecting the mutations of a machine writes nothing.
use poollet.Base.{String, not, ◌||◌, List, [], ◌∷◌, some, refl}
use poollet.Errors.{Result, ok, err, is_not_synced_or_not_found, is_not_found}
use poollet.Api.Objects.{Machine, MachineVolume, MachineNic}
use poollet.Prog.{Prog}
use poollet.Protocol.Quiet.{Quiet, Quiet-bind, Quiet-then, Quiet-if, Quiet-option}
use poollet.Helpers.{Shared}
use poollet.Controllers.Common.{Config}
use poollet.Controllers.Apply.{with_target-Quiet}
use poollet.Controllers.MachineMutations.{
  register_image_pull_secret_mutation, register_ignition_mutation, register_volumes_mutation,
  register_network_interfaces_mutation, target_volume_source, target_network_interface_source,
  Sourced, sourced, Gathered, gather, gather_one, warn, find_status, is_some, is_bound_in, Builder,
}

pub image_pull_secret-Quiet :
    (obj : Machine) (b : Builder) → Quiet (register_image_pull_secret_mutation obj b)
unfolding register_image_pull_secret_mutation
image_pull_secret-Quiet obj b =
    Quiet-option obj.image_pull_secret_ref _ _ tt λ ref. search with_target-Quiet

pub ignition-Quiet : (obj : Machine) (b : Builder) → Quiet (register_ignition_mutation obj b)
unfolding register_ignition_mutation
ignition-Quiet obj b = Quiet-option obj.ignition_ref _ _ tt λ ref. search with_target-Quiet

sourced-Quiet :
    {O S : Type 0} (text warning : String) (make : O → S) (r : Result O)
    → Quiet (sourced text warning make r)
sourced-Quiet text warning make (ok obj) = tt
sourced-Quiet text warning make (err e) =
    Quiet-if (not (is_not_synced_or_not_found (some e))) _ _ tt
      (Quiet-if (is_not_found (some e)) _ _ tt tt)

target_volume_source-Quiet :
    (sh : Shared) (obj : Machine) (v : MachineVolume) → Quiet (target_volume_source sh obj v)
unfolding target_volume_source
target_volume_source-Quiet sh obj v =
    Quiet-option v.volume_source.empty_disk _ _
      (Quiet-if (not (is_some v.volume_source.volume_ref || is_some v.volume_source.ephemeral)) _ _
        tt
        (Quiet-if (not (is_bound_in (find_status obj.volume_statuses v.name))) _ _ tt
          (refl, sourced-Quiet _ _ _)))
      λ disk. tt

target_network_interface_source-Quiet :
    (sh : Shared) (obj : Machine) (n : MachineNic)
    → Quiet (target_network_interface_source sh obj n)
unfolding target_network_interface_source
target_network_interface_source-Quiet sh obj n =
    Quiet-if (not (is_some n.nic_source.network_interface_ref || is_some n.nic_source.ephemeral)) _
      _ tt
      (Quiet-if (not (is_bound_in (find_status obj.network_interface_statuses n.name))) _ _ tt
        (refl, sourced-Quiet _ _ _))

gather-Quiet :
    {V S : Type 0} (name_of : V → String) (with_src : V → S → V) (text : String)
    (source_for : V → Prog (Result (Sourced S))) (vs : List V) (g : Gathered V)
    → ((v : V) → Quiet (source_for v))
    → Quiet (gather name_of with_src text source_for vs g)
unfolding gather
gather-Quiet name_of with_src text source_for [] g h = tt
gather-Quiet name_of with_src text source_for (v ∷ vs) g h =
    Quiet-bind (source_for v) _ (h v) elim [
      | err e ↦ tt
      | ok s ↦
          gather-Quiet name_of with_src text source_for vs (gather_one name_of with_src v s g) h
    ]

warn-Quiet : (ws : List String) (report : Prog Unit) → Quiet report → Quiet (warn ws report)
warn-Quiet [] report h = tt
warn-Quiet (w ∷ ws) report h = h

module _ (sh : Shared) (r : Config) (obj : Machine) (b : Builder) where
  pub volumes-Quiet : Quiet (register_volumes_mutation sh r obj b)
  unfolding register_volumes_mutation
  volumes-Quiet =
      Quiet-then _ _ (gather-Quiet _ _ _ _ obj.volumes _ (target_volume_source-Quiet sh obj))
        λ g. Quiet-bind (warn g.warnings _) _ (warn-Quiet g.warnings _ λ _. tt) λ _. tt

  pub network_interfaces-Quiet : Quiet (register_network_interfaces_mutation sh r obj b)
  unfolding register_network_interfaces_mutation
  network_interfaces-Quiet =
      Quiet-then _ _
        (gather-Quiet _ _ _ _ obj.network_interfaces _
          (target_network_interface_source-Quiet sh obj))
        λ g. Quiet-bind (warn g.warnings _) _ (warn-Quiet g.warnings _ λ _. tt) λ _. tt
