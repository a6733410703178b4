-- ===== src/Controllers/Apply.antt =====
-- What the reconcilers that collect mutations share: looking up the target of a dependency, applying
-- the target object with the collected mutations, and the result of a reconciliation.
use poollet.Base.{String, Bool, true, false, not, Option, none, some, if◌then◌else◌, ◌≡◌, refl}
use poollet.Errors.{
  Result, ok, err, Error, wrap, is_not_synced_or_not_found, is_not_found, new_not_synced,
}
use poollet.Api.Metadata.{Kind, Machinery, Metadata}
use poollet.Api.Objects.{Obj, metadata_of, meta_object}
use poollet.Prog.{
  Prog, done, perform, ◌>>=◌, ◌>>?◌, ObjectKey, provider_target, target, cached, get,
}
use poollet.Prog.Trace.{Safe-bind}
use poollet.Protocol.{Progress, advance, Allowed, Subject, item}
use poollet.Protocol.Quiet.{Quiet, Quiet-bind, Quiet-if, Quiet-Safe, is_namespace}
use poollet.Sync.{CompositeMutationBuilder, mutate, ignore_partial_create}
use poollet.BrokerClient.{broker_controlled_create_or_patch}
use poollet.Controllers.Common.{ReconcileResult}
use poollet.Controllers.Obeys.{Obeys}

abbrev pub key_of : Metadata → ObjectKey
key_of obj = record { namespace = obj.namespace; name = obj.name }

abbrev pub key_beside : Metadata → String → ObjectKey
key_beside obj name = record { namespace = obj.namespace; name = name }

abbrev pub and_then : {A : Type 0} → Prog (Unit {0}) → A → Prog A
and_then report a = report >>= λ _. done a

-- A call of `Provider.Target`. An error that is neither a not-synced nor a not-found one is wrapped
-- and returned; for a not-found one `report` is run; and both go on with `otherwise`.
unfoldable pub with_target :
    {A : Type 0} (kind : Kind)
    → ObjectKey
    → String
    → Prog (Unit {0})
    → A
    → (Obj kind → A)
    → Prog (Result A)
with_target kind key text report otherwise found = perform (provider_target kind key) >>= elim [
  | ok obj ↦ done (ok (found obj))
  | err e ↦
      if not (is_not_synced_or_not_found (some e))
      then done (err (wrap text e))
      else if is_not_found (some e)
      then and_then report (ok otherwise)
      else done (ok otherwise)
]

-- `return …, sync.IgnorePartialCreate(err)` with no target.
abbrev pub no_target : {A : Type 0} → Bool → Option Error → Result (Option A × Bool)
no_target partial none = ok (none, partial)
no_target partial (some e) = err e

-- The resource version of an object of a kind.
abbrev pub version_of : (kind : Kind) → Obj kind → String
version_of kind obj = (metadata_of kind obj).resource_version

-- The applied target, if it was, and whether the collected mutations are partial.
abbrev pub apply_builder :
    (k : Machinery)
    → String
    → (owner kind : Kind) → Obj owner
    → Obj kind
    → CompositeMutationBuilder (Obj kind)
    → Prog (Result (Option (Obj kind) × Bool))
apply_builder k cluster_name owner kind obj fresh b =
    broker_controlled_create_or_patch k cluster_name (meta_object owner obj) kind target fresh
      (mutate (version_of kind) b)
    >>= elim [
      | err e ↦ done (no_target b.partial_sync (ignore_partial_create (some e)))
      | ok t ↦ done (ok (some t, b.partial_sync))
    ]

-- `return ctrl.Result{Requeue: partial}, nil`, with or without a target.
abbrev pub requeue_partial : {A : Type 0} → Result (Option A × Bool) → Prog ReconcileResult
requeue_partial (err e) = done (err e)
requeue_partial (ok (t, partial)) = done (ok partial)

-- The shape of most methods `Target`: the target of a key, once the source object is found.
abbrev pub target_or_not_synced :
    (kind : Kind) → String → ObjectKey → String → Prog (Result (Obj kind))
target_or_not_synced kind resource key source_name =
    perform (get (cached target) kind key) >>= elim [
      | ok t ↦ done (ok t)
      | err e ↦
          done (err (if is_not_found (some e) then new_not_synced resource source_name else e))
    ]

pub with_target-Quiet :
    {A : Type 0} (kind : Kind) (key : ObjectKey) (text : String) (report : Prog (Unit {0}))
    (otherwise : A) (found : Obj kind → A)
    → is_namespace kind ≡ false
    → Quiet report
    → Quiet (with_target kind key text report otherwise found)
unfolding with_target
with_target-Quiet kind key text report otherwise found h quiet = (
  h,
  elim [
    | ok obj ↦ tt
    | err e ↦ Quiet-if (not (is_not_synced_or_not_found (some e))) _ _ tt (
        Quiet-if (is_not_found (some e)) (and_then report (ok otherwise)) (done (ok otherwise))
          (Quiet-bind report _ quiet λ _. tt) tt)
  ],
)

-- A state in which the target object may be written.
abbrev pub ready : String → Progress
ready ns = record { target_namespace = some ns; finalized = true; gone = none; written = none }

module _ (x : Subject) where
  -- The state after the target object was applied, or could not be.
  abbrev pub Applied : String → Progress → Result (Option (Obj x.kind) × Bool) → Type 0
  Applied ns s (err e) = s ≡ ready ns
  Applied ns s (ok (none, partial)) = s ≡ ready ns
  Applied ns s (ok (some t, partial)) = s ≡ record (ready ns) { written = some (item x.kind t) }

  no_target-Applied :
      (ns : String) (partial : Bool) (e : Option Error)
      → Applied ns (ready ns) (no_target partial e)
  no_target-Applied ns partial none = refl
  no_target-Applied ns partial (some e) = refl

  -- Mutations that are collected without a write, and then applied to the target object.
  pub apply_shape-Obeys :
      (k : Machinery) (cluster_name : String) (fresh : Obj x.kind) (ns : String)
      (collect : Prog (Result (CompositeMutationBuilder (Obj x.kind))))
      (finish : Result (Option (Obj x.kind) × Bool) → Prog ReconcileResult)
      → (metadata_of x.kind fresh).namespace ≡ ns
      → (metadata_of x.kind fresh).name ≡ (metadata_of x.kind x.obj).name
      → Quiet collect
      → ((s : Progress) (r : _) → Applied ns s r → Obeys x s (finish r))
      → Obeys x
          (ready ns)
          ((collect >>? apply_builder k cluster_name x.kind x.kind x.obj fresh) >>= finish)
  unfolding broker_controlled_create_or_patch
  apply_shape-Obeys k cluster_name fresh ns collect finish at_ns at_name quiet finished =
      Safe-bind advance (Allowed x) (Applied ns) (λ s a. Unit) (ready ns)
        (collect >>? apply_builder k cluster_name x.kind x.kind x.obj fresh) finish
        (Safe-bind advance (Allowed x) (λ s b. s ≡ ready ns) (Applied ns) (ready ns) collect _
          (Quiet-Safe x collect (ready ns) quiet)
          λ s. elim [
            | err e ↦ λ h. h
            | ok b ↦ λ h. rw h (
              (refl, refl, (rw at_ns refl), at_name),
              elim [
                | err e ↦ no_target-Applied ns b.partial_sync (ignore_partial_create (some e))
                | ok t ↦ refl
              ],
            )
          ])
        finished
