-- ===== src/Controllers/MachineMutations/Kept.antt =====
-- What the mutations of volumes and network interfaces make of the target of a machine.
use poollet.Base.{
  String, Bool, true, false, not, ◌||◌, List, Option, none, some, ◌≡◌, refl, ◌⊎◌, inl, inr,
  if◌then◌else◌, arith, ◌++◌,
}
use poollet.Base.Lists.{All, All-map, Any, Any-append_left, Any-append_right}
use poollet.Errors.{Result, ok, err, is_not_synced_or_not_found, is_not_found}
use poollet.Api.Objects.{Machine, MachineVolume, MachineNic}
use poollet.Prog.{Prog, done, call, ◌>>=◌}
use poollet.Prog.Trace.{Runs, Exchange, Returns, Returns-bind, Returns-Runs}
use poollet.Sync.{run_all}
use poollet.Sync.Partial.{run_all-add}
use poollet.Helpers.{Shared}
use poollet.Controllers.Common.{Config}
use poollet.Controllers.MachineMutations.{
  Builder, sourced, Gathered, warn, find_status, is_some, is_bound_in, keep_unhandled,
  nothing_gathered, target_volume_source, target_network_interface_source,
  register_volumes_mutation, register_network_interfaces_mutation, name_of_volume, name_of_nic,
  with_volume_source, with_nic_source, set_volumes, set_network_interfaces,
}
use poollet.Controllers.MachineMutations.Coverage.{
  IsSourced, IsCovered, Covers, gather-Covers, keep_unhandled-keeps,
}

Returns-if :
    {A : Type 0} (P : A → Type 0) (b : Bool) (p q : Prog A)
    → Returns P p
    → Returns P q
    → Returns P (if b then p else q)
Returns-if P true p q hp hq = hp
Returns-if P false p q hp hq = hq

Returns-option :
    {R A : Type 0} (P : A → Type 0) (ref : Option R) (p : Prog A) (f : R → Prog A)
    → Returns P p
    → ((r : R) → Returns P (f r))
    → Returns P (elim ref [ none ↦ p | some r ↦ f r ])
Returns-option P none p f hp h = hp
Returns-option P (some r) p f hp h = h r

module _ {V S : Type 0} (name_of : V → String) (with_src : V → S → V) where
  sourced-IsSourced :
      {O : Type 0} (text warning : String) (make : O → S) (r : Result O)
      → Returns (IsSourced name_of with_src) (sourced text warning make r)
  sourced-IsSourced text warning make (ok obj) = λ _. (make obj, refl)
  sourced-IsSourced text warning make (err e) =
      Returns-if (IsSourced name_of with_src) (not (is_not_synced_or_not_found (some e))) _ _ tt (
        Returns-if (IsSourced name_of with_src) (is_not_found (some e)) _ _
          (λ h. absurd (ground arith)) λ h. absurd (ground arith))

  -- The item is in the new list with a source of the target cluster, or the mutation is partial and
  -- every item of that name that was in the old list is in the new one.
  abbrev pub Kept : Bool → List V → List V → V → Type 0
  Kept partial_sync before after v =
      Any (λ t. (s : S) × (t ≡ with_src v s)) after
      ⊎ ((partial_sync ≡ true)
          × ((old : V)
              → name_of old ≡ name_of v
              → Any (λ t. t ≡ old) before
              → Any (λ t. t ≡ old) after))

  covered-Kept :
      (g : Gathered V) (before : List V) (v : V)
      → IsCovered name_of with_src g v
      → Kept g.partial_sync before
          (keep_unhandled name_of with_src g.unhandled_names before ++ g.targets)
          v
  covered-Kept g before v (inl h) =
      inl
        (Any-append_right _ (keep_unhandled name_of with_src g.unhandled_names before) g.targets h)
  covered-Kept g before v (inr h) = inr (
    h.1,
    λ old same any.
        Any-append_left _ (keep_unhandled name_of with_src g.unhandled_names before) g.targets
          (keep_unhandled-keeps name_of with_src g.unhandled_names before old (rw same h.0) any),
  )

volume-IsSourced :
    (sh : Shared) (obj : Machine) (v : MachineVolume)
    → Returns (IsSourced name_of_volume with_volume_source) (target_volume_source sh obj v)
unfolding target_volume_source
volume-IsSourced sh obj v =
    Returns-option (IsSourced name_of_volume with_volume_source) v.volume_source.empty_disk _ _
      (Returns-if (IsSourced name_of_volume with_volume_source)
        (not (is_some v.volume_source.volume_ref || is_some v.volume_source.ephemeral)) _ _ tt
        (Returns-if (IsSourced name_of_volume with_volume_source)
          (not (is_bound_in (find_status obj.volume_statuses v.name))) _ _
          (λ h. absurd (ground arith)) (sourced-IsSourced name_of_volume with_volume_source _ _ _)))
      λ disk h. (record { empty_disk = some disk; volume_ref = none; ephemeral = none }, refl)

nic-IsSourced :
    (sh : Shared) (obj : Machine) (n : MachineNic)
    → Returns (IsSourced name_of_nic with_nic_source) (target_network_interface_source sh obj n)
unfolding target_network_interface_source
nic-IsSourced sh obj n =
    Returns-if (IsSourced name_of_nic with_nic_source)
      (not (is_some n.nic_source.network_interface_ref || is_some n.nic_source.ephemeral)) _ _ tt
      (Returns-if (IsSourced name_of_nic with_nic_source)
        (not (is_bound_in (find_status obj.network_interface_statuses n.name))) _ _
        (λ h. absurd (ground arith)) (sourced-IsSourced name_of_nic with_nic_source _ _ _))

const-Returns :
    {A B : Type 0} (P : B → Type 0) (p : Prog A) (b : B) → P b → Returns P (p >>= λ _. done b)
const-Returns P (done a) b h = h
const-Returns P (call o k) b h = λ r. const-Returns P (k r) b h

module _ (sh : Shared) (r : Config) (obj : Machine) (b : Builder) (t : Machine) where
  abbrev pub KeepsVolumes : Result Builder → Type 0
  KeepsVolumes (err e) = Unit
  KeepsVolumes (ok b') =
      All
        (Kept name_of_volume with_volume_source b'.partial_sync (run_all b.mutations t).volumes
          (run_all b'.mutations t).volumes)
        obj.volumes

  volumes-Returns : Returns KeepsVolumes (register_volumes_mutation sh r obj b)
  unfolding register_volumes_mutation set_volumes
  volumes-Returns =
      Returns-bind
        (Covers name_of_volume with_volume_source (nothing_gathered b.partial_sync) obj.volumes)
        KeepsVolumes _ _
        (gather-Covers name_of_volume with_volume_source _ _ (volume-IsSourced sh obj) obj.volumes
          _)
        elim [
          | err e ↦ λ c. tt
          | ok g ↦ λ c. const-Returns KeepsVolumes (warn g.warnings _) _ (
              rw (run_all-add (set_volumes g) (record b { partial_sync = g.partial_sync }) t) (
                All-map obj.volumes
                  (λ v covered.
                    covered-Kept name_of_volume with_volume_source g (run_all b.mutations t).volumes
                      v covered)
                  c.1))
        ]

  abbrev pub KeepsNetworkInterfaces : Result Builder → Type 0
  KeepsNetworkInterfaces (err e) = Unit
  KeepsNetworkInterfaces (ok b') =
      All
        (Kept name_of_nic with_nic_source b'.partial_sync (run_all b.mutations t).network_interfaces
          (run_all b'.mutations t).network_interfaces)
        obj.network_interfaces

  network_interfaces-Returns :
      Returns KeepsNetworkInterfaces (register_network_interfaces_mutation sh r obj b)
  unfolding register_network_interfaces_mutation set_network_interfaces
  network_interfaces-Returns =
      Returns-bind
        (Covers name_of_nic with_nic_source (nothing_gathered b.partial_sync)
          obj.network_interfaces)
        KeepsNetworkInterfaces _ _
        (gather-Covers name_of_nic with_nic_source _ _ (nic-IsSourced sh obj) obj.network_interfaces
          _)
        elim [
          | err e ↦ λ c. tt
          | ok g ↦ λ c. const-Returns KeepsNetworkInterfaces (warn g.warnings _) _ (
              rw
                (run_all-add (set_network_interfaces g) (record b { partial_sync = g.partial_sync })
                  t)
                (All-map obj.network_interfaces
                  (λ n covered.
                    covered-Kept name_of_nic with_nic_source g
                      (run_all b.mutations t).network_interfaces n covered)
                  c.1))
        ]

  -- After any run that registers the mutation of the volumes, for each volume of the machine: the
  -- mutated target has it, with its name and device and some source; or the mutations are partial
  -- and the target still has every volume of that name that the earlier mutations left in it.
  pub register_volumes_mutation-keeps :
      {trace : List Exchange} {result : Result Builder}
      → Runs (register_volumes_mutation sh r obj b) trace result
      → KeepsVolumes result
  register_volumes_mutation-keeps run = Returns-Runs KeepsVolumes run volumes-Returns

  -- The same of the network interfaces: after any run that registers their mutation, the mutated
  -- target has each interface of the machine with some source, or the mutations are partial and the
  -- target still has every interface of that name that the earlier mutations left in it.
  pub register_network_interfaces_mutation-keeps :
      {trace : List Exchange} {result : Result Builder}
      → Runs (register_network_interfaces_mutation sh r obj b) trace result
      → KeepsNetworkInterfaces result
  register_network_interfaces_mutation-keeps run =
      Returns-Runs KeepsNetworkInterfaces run network_interfaces-Returns
