-- ===== src/Controllers/AliasPrefixRouting/Destination.antt =====
-- Collecting the destinations of a routing: it writes nothing, and which machines it passes over.
use poollet.Base.{
  false, not, ◌||◌, ◌==◌, List, [], ◌∷◌, Option, none, some, ◌≡◌, refl, Bool-cases, inl, inr, arith,
}
use poollet.Errors.{Result, ok, err, is_not_found, is_not_synced}
use poollet.Api.Metadata.{Machinery, machine}
use poollet.Api.Objects.{AliasPrefix, LocalUidReference, Machine}
use poollet.Prog.{Op, Reply, ObjectKey, get, cached, source}
use poollet.Prog.Trace.{Runs, Exchange, Safe, Safe-if, Safe-option, Accepts-Runs, after}
use poollet.Protocol.Quiet.{Quiet, Quiet-if, Quiet-option, Quiet-then}
use poollet.Helpers.{machine_runs_in_machine_pool}
use poollet.Controllers.Common.{Config}
use poollet.Controllers.AliasPrefixRouting.{
  RoutingBuilder, destination_of_machine, target_destination, target_destinations,
  register_alias_prefix_routing_mutation,
}

module _ (k : Machinery) (r : Config) where
  destination_of_machine-Quiet :
      (key : ObjectKey) (d ref : LocalUidReference) (m : Machine)
      → Quiet (destination_of_machine k r key d ref m)
  unfolding destination_of_machine
  destination_of_machine-Quiet key d ref m =
      Quiet-if (not (ref.uid == d.uid) || machine_runs_in_machine_pool m r.pool_name) _ _ tt
        (refl, elim [ ok t ↦ tt | err e ↦ Quiet-if (not (is_not_synced (some e))) _ _ tt tt ])

  target_destination-Quiet :
      (obj : AliasPrefix) (d : LocalUidReference) → Quiet (target_destination k r obj d)
  unfolding target_destination
  target_destination-Quiet obj d = elim [
    | err e ↦ Quiet-if (not (is_not_found (some e))) _ _ tt tt
    | ok nic ↦ Quiet-if (not (d.uid == nic.metadata.uid)) _ _ tt (
        Quiet-option nic.machine_ref _ _ tt λ ref. elim [
          | err e ↦ Quiet-if (not (is_not_found (some e))) _ _ tt tt
          | ok m ↦ destination_of_machine-Quiet _ d ref m
        ])
  ]

  target_destinations-Quiet :
      (obj : AliasPrefix) (ds : List LocalUidReference) → Quiet (target_destinations k r obj ds)
  unfolding target_destinations
  target_destinations-Quiet obj [] = tt
  target_destinations-Quiet obj (d ∷ ds) =
      Quiet-then (target_destination k r obj d) _ (target_destination-Quiet obj d) λ t.
        Quiet-then (target_destinations k r obj ds) _ (target_destinations-Quiet obj ds) λ rest. tt

  pub register_alias_prefix_routing_mutation-Quiet :
      (obj : AliasPrefix) (b : RoutingBuilder)
      → Quiet (register_alias_prefix_routing_mutation k r obj b)
  unfolding register_alias_prefix_routing_mutation
  register_alias_prefix_routing_mutation-Quiet obj b = elim [
    | err e ↦ Quiet-if (not (is_not_found (some e))) _ _ tt tt
    | ok routing ↦ Quiet-then _ _ (target_destinations-Quiet obj routing.destinations) λ ds. tt
  ]

  -- The machine that a run has read last, if it has read one.
  abbrev pub last_machine : Option Machine → (o : Op) → Reply o → Option Machine
  last_machine s (get (cached source) machine key) (ok m) = some m
  last_machine s o reply = s

  -- There is a machine, and it does not run in the pool.
  abbrev pub IsElsewhere : Option Machine → Type 0
  IsElsewhere none = ⊥
  IsElsewhere (some m) = machine_runs_in_machine_pool m r.pool_name ≡ false

  abbrev pub Passed : Option Machine → Result (Option LocalUidReference) → Type 0
  Passed s (ok (some t)) = IsElsewhere s
  Passed s _ = Unit

  abbrev Any : Option Machine → Op → Type 0
  Any s o = Unit

  destination_of_machine-Safe :
      (key : ObjectKey) (d ref : LocalUidReference) (m : Machine)
      → Safe last_machine Any Passed (some m) (destination_of_machine k r key d ref m)
  unfolding destination_of_machine
  destination_of_machine-Safe key d ref m =
      elim (Bool-cases (not (ref.uid == d.uid) || machine_runs_in_machine_pool m r.pool_name)) [
        | inl e ↦ rw e tt
        | inr e ↦ rw e (
          tt,
          elim [
            | ok t ↦ ground arith
            | err e ↦
                Safe-if last_machine Any Passed (some m) (not (is_not_synced (some e))) _ _ tt tt
          ],
        )
      ]

  target_destination-Safe :
      (obj : AliasPrefix) (d : LocalUidReference)
      → Safe last_machine Any Passed none (target_destination k r obj d)
  unfolding target_destination
  target_destination-Safe obj d = (
    tt,
    elim [
      | err e ↦ Safe-if last_machine Any Passed none (not (is_not_found (some e))) _ _ tt tt
      | ok nic ↦ Safe-if last_machine Any Passed none (not (d.uid == nic.metadata.uid)) _ _ tt (
          Safe-option last_machine Any Passed none nic.machine_ref _ _ tt λ ref. (
            tt,
            elim [
              | err e ↦ Safe-if last_machine Any Passed none (not (is_not_found (some e))) _ _ tt tt
              | ok m ↦ destination_of_machine-Safe _ d ref m
            ],
          ))
    ],
  )

  -- In every run over a destination of a routing that ends with a target destination, the machine
  -- that was read last does not run in the machine pool.
  pub target_destination-elsewhere :
      (obj : AliasPrefix) (d : LocalUidReference) {trace : List Exchange}
      {result : Result (Option LocalUidReference)}
      → Runs (target_destination k r obj d) trace result
      → Passed (after last_machine Any none trace) result
  target_destination-elsewhere obj d run =
      (Accepts-Runs last_machine Any Passed run none (target_destination-Safe obj d)).1
