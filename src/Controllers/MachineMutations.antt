-- ===== src/Controllers/MachineMutations.antt =====
-- broker/controllers/compute/machine_controller.go: the mutations that are collected for the target
-- of a machine, and the targets of the volumes and network interfaces that it uses.
pub mod Quiet
pub mod Kept
pub mod Coverage
use poollet.Base.{
  String, Bool, true, false, not, ◌||◌, ◌&&◌, ◌==◌, List, [], ◌∷◌, ◌++◌, Option, none, some,
  if◌then◌else◌,
}
use poollet.Errors.{Result, ok, err, Error, message, wrap, is_not_synced_or_not_found, is_not_found}
use poollet.Api.Metadata.{Machinery, machine, secret, volume, network_interface}
use poollet.Api.Objects.{
  Machine, MachineVolume, MachineVolumeSource, MachineNic, MachineNicSource, AttachmentStatus,
  Phase, bound, unbound, SecretKeySelector,
}
use poollet.Prog.{Prog, done, perform, ◌>>=◌, ◌>>?◌, ObjectKey, provider_target, event}
use poollet.Sync.{CompositeMutationBuilder, add, set_partial}
use poollet.Helpers.{Shared, has_name, insert_name}
use poollet.Controllers.Common.{Config}
use poollet.Controllers.Apply.{key_of, key_beside, with_target}

abbrev pub Builder : Type 0
Builder = CompositeMutationBuilder Machine

abbrev pub set_image_pull_secret : Option String → Machine → Machine
set_image_pull_secret ref t = record t { image_pull_secret_ref = ref }

unfoldable pub register_image_pull_secret_mutation : Machine → Builder → Prog (Result Builder)
unfolding add set_partial with_target
register_image_pull_secret_mutation obj b = elim obj.image_pull_secret_ref [
  | none ↦ done (ok (add (set_image_pull_secret none) b))
  | some name ↦
      with_target secret (key_beside obj.metadata name) "error getting image pull secret target"
        (perform (event machine (key_of obj.metadata) "ImagePullSecretNotFound")) (set_partial b)
        λ s. add (set_image_pull_secret (some s.metadata.name)) b
]

abbrev pub set_ignition : Option SecretKeySelector → Machine → Machine
set_ignition ref t = record t { ignition_ref = ref }

unfoldable pub register_ignition_mutation : Machine → Builder → Prog (Result Builder)
unfolding add set_partial with_target
register_ignition_mutation obj b = elim obj.ignition_ref [
  | none ↦ done (ok (add (set_ignition none) b))
  | some ref ↦
      with_target secret (key_beside obj.metadata ref.name) "error getting ignition target"
        (perform (event machine (key_of obj.metadata) "FailedApplyingIgnition")) (set_partial b)
        λ s. add (set_ignition (some (record { name = s.metadata.name; key = ref.key }))) b
]

abbrev is_some : Option String → Bool
is_some none = false
is_some (some s) = true

abbrev is_bound : Phase → Bool
is_bound bound = true
is_bound unbound = false

-- `findMachineVolumeStatus` and `findMachineNetworkInterfaceStatus`
unfoldable pub find_status : List AttachmentStatus → String → Option AttachmentStatus
find_status [] name = none
find_status (status ∷ statuses) name =
    if status.name == name then some status else find_status statuses name

-- Whether the volume or network interface of that name has a status, and is bound by it.
abbrev is_bound_in : Option AttachmentStatus → Bool
is_bound_in none = false
is_bound_in (some status) = is_bound status.phase

-- The results `src`, `ok` and `warning`; a source is absent where it is nil.
pub record Sourced (S : Type 0) : Type 0 where
  pub src : Option S
  pub synced : Bool
  pub warning : String

abbrev pub with_source : {S : Type 0} → S → Sourced S
with_source s = record { src = some s; synced = true; warning = "" }

abbrev pub without_source : {S : Type 0} → String → Sourced S
without_source warning = record { src = none; synced = false; warning = warning }

-- The reply of `Provider.Target` for a volume or a network interface that is bound.
abbrev pub sourced :
    {O S : Type 0} → String → String → (O → S) → Result O → Prog (Result (Sourced S))
sourced text warning make (ok obj) = done (ok (with_source (make obj)))
sourced text warning make (err e) =
    if not (is_not_synced_or_not_found (some e))
    then done (err (wrap text e))
    else if is_not_found (some e)
    then done (ok (without_source warning))
    else done (ok (without_source ""))

module _ (sh : Shared) where
  unfoldable pub machine_volume_name : Machine → MachineVolume → String
  machine_volume_name obj v = elim v.volume_source.volume_ref [
    | some name ↦ name
    | none ↦ sh.machine_ephemeral_volume_name obj.metadata.name v.name
  ]

  unfoldable pub target_volume_source :
      Machine → MachineVolume → Prog (Result (Sourced MachineVolumeSource))
  unfolding machine_volume_name find_status
  target_volume_source obj v = elim v.volume_source.empty_disk [
    | some disk ↦
        done (
          ok (with_source (record { empty_disk = some disk; volume_ref = none; ephemeral = none })))
    | none ↦
        if not (is_some v.volume_source.volume_ref || is_some v.volume_source.ephemeral)
        then done (err (message "unrecognized volume"))
        else if not (is_bound_in (find_status obj.volume_statuses v.name))
        then done (ok (without_source ""))
        else perform (provider_target volume (key_beside obj.metadata (machine_volume_name obj v)))
          >>= sourced "error getting volume target" "volume not found"
              λ t. record { empty_disk = none; volume_ref = some t.metadata.name; ephemeral = none }
  ]

  unfoldable pub machine_network_interface_name : Machine → MachineNic → String
  machine_network_interface_name obj n = elim n.nic_source.network_interface_ref [
    | some name ↦ name
    | none ↦ sh.machine_ephemeral_network_interface_name obj.metadata.name n.name
  ]

  unfoldable pub target_network_interface_source :
      Machine → MachineNic → Prog (Result (Sourced MachineNicSource))
  unfolding machine_network_interface_name find_status
  target_network_interface_source obj n =
      if not (is_some n.nic_source.network_interface_ref || is_some n.nic_source.ephemeral)
      then done (err (message "unrecognized network interface"))
      else if not (is_bound_in (find_status obj.network_interface_statuses n.name))
      then done (ok (without_source ""))
      else perform (
          provider_target network_interface
            (key_beside obj.metadata (machine_network_interface_name obj n)))
        >>= sourced "error getting network interface target" "network interface not found"
            λ t. record { network_interface_ref = some t.metadata.name; ephemeral = none }

-- The variables of the loops over volumes and network interfaces, whose items have the type `V`.
pub record Gathered (V : Type 0) : Type 0 where
  pub partial_sync : Bool
  pub unhandled_names : List String
  pub warnings : List String
  pub targets : List V

abbrev pub nothing_gathered : {V : Type 0} → Bool → Gathered V
nothing_gathered partial_sync = record {
  partial_sync = partial_sync;
  unhandled_names = [];
  warnings = [];
  targets = [];
}

module _ {V S : Type 0} (name_of : V → String) (with_src : V → S → V) where
  abbrev pub added_target : V → Option S → List V → List V
  added_target v none targets = targets
  added_target v (some s) targets = targets ++ with_src v s ∷ []

  -- The body of the loops, after the test for an error.
  unfoldable pub gather_one : V → Sourced S → Gathered V → Gathered V
  gather_one v s g = record {
    partial_sync = if s.synced then g.partial_sync else true;
    unhandled_names =
        if s.synced then g.unhandled_names else insert_name (name_of v) g.unhandled_names;
    warnings = if s.warning == "" then g.warnings else g.warnings ++ s.warning ∷ [];
    targets = added_target v s.src g.targets;
  }

  module _ (text : String) (source_for : V → Prog (Result (Sourced S))) where
    unfoldable pub gather : List V → Gathered V → Prog (Result (Gathered V))
    unfolding gather_one
    gather [] g = done (ok g)
    gather (v ∷ vs) g =
        source_for v
        >>= elim [ err e ↦ done (err (wrap text e)) | ok s ↦ gather vs (gather_one v s g) ]

  -- The items of the target that the loop could not handle.
  unfoldable pub keep_unhandled : List String → List V → List V
  keep_unhandled names [] = []
  keep_unhandled names (v ∷ vs) =
      let rest = keep_unhandled names vs in if has_name names (name_of v) then v ∷ rest else rest

abbrev pub warn : List String → Prog (Unit {0}) → Prog (Unit {0})
warn [] report = done tt
warn (w ∷ ws) report = report

abbrev pub name_of_volume : MachineVolume → String
name_of_volume v = v.name

abbrev pub with_volume_source : MachineVolume → MachineVolumeSource → MachineVolume
with_volume_source v s = record v { volume_source = s }

abbrev pub name_of_nic : MachineNic → String
name_of_nic n = n.name

abbrev pub with_nic_source : MachineNic → MachineNicSource → MachineNic
with_nic_source n s = record n { nic_source = s }

-- The closure of `registerVolumesMutation`.
unfoldable pub set_volumes : Gathered MachineVolume → Machine → Machine
unfolding keep_unhandled
set_volumes g t = record t {
  volumes =
      keep_unhandled name_of_volume with_volume_source g.unhandled_names t.volumes ++ g.targets;
}

-- The closure of `registerNetworkInterfacesMutation`.
unfoldable pub set_network_interfaces : Gathered MachineNic → Machine → Machine
unfolding keep_unhandled
set_network_interfaces g t = record t {
  network_interfaces =
      keep_unhandled name_of_nic with_nic_source g.unhandled_names t.network_interfaces
      ++ g.targets;
}

module _ (sh : Shared) (r : Config) where
  unfoldable pub register_volumes_mutation : Machine → Builder → Prog (Result Builder)
  unfolding add gather target_volume_source set_volumes
  register_volumes_mutation obj b =
      gather name_of_volume with_volume_source "volume" (target_volume_source sh obj) obj.volumes
        (nothing_gathered b.partial_sync)
      >>? λ g.
          warn g.warnings (perform (event machine (key_of obj.metadata) "FailedApplyingVolumes"))
          >>= λ _. done (ok (add (set_volumes g) (record b { partial_sync = g.partial_sync })))

  unfoldable pub register_network_interfaces_mutation : Machine → Builder → Prog (Result Builder)
  unfolding add gather target_network_interface_source set_network_interfaces
  register_network_interfaces_mutation obj b =
      gather name_of_nic with_nic_source "network interface"
        (target_network_interface_source sh obj) obj.network_interfaces
        (nothing_gathered b.partial_sync)
      >>? λ g.
          warn g.warnings
            (perform (event machine (key_of obj.metadata) "FailedApplyingNetworkInterfaces"))
          >>= λ _.
              done
                (ok (add (set_network_interfaces g) (record b { partial_sync = g.partial_sync })))

  abbrev or_pool : String → Option String → Option String
  or_pool pool_name (some name) = some name
  or_pool pool_name none = if pool_name == "" then none else some pool_name

  unfoldable pub set_target_pool_ref_if_specified_and_unset : Machine → Machine
  set_target_pool_ref_if_specified_and_unset t = record t {
    machine_pool_ref = or_pool r.target_pool_name t.machine_pool_ref;
  }

  abbrev pub set_defaults : Machine → Machine → Machine
  set_defaults obj t =
      let t1 = record t {
        machine_class_ref = obj.machine_class_ref;
        machine_pool_selector = r.target_pool_labels;
        machine_pool_ref = or_pool r.target_pool_name t.machine_pool_ref;
      } in
      record (set_target_pool_ref_if_specified_and_unset t1) {
        image = obj.image;
        efi_vars = obj.efi_vars;
      }

  unfoldable pub register_default_mutation : Machine → Builder → Result Builder
  unfolding add set_target_pool_ref_if_specified_and_unset
  register_default_mutation obj b = ok (add (set_defaults obj) b)
