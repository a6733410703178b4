-- ===== src/Controllers/AliasPrefix/Order.antt =====
-- The alias prefix controller keeps to the protocol, but for the namespace of its routing.
use poollet.Base.{
  String, Bool, true, false, Option, none, some, ◌≡◌, refl, Bool-cases, inl, inr, arith, ℕ, List,
}
use poollet.Errors.{Result, ok, err}
use poollet.Api.Metadata.{Machinery, alias_prefix, alias_prefix_routing}
use poollet.Api.Objects.{AliasPrefix}
use poollet.Prog.{Prog, Op, ◌>>?◌, target, create_or_patch}
use poollet.Prog.Trace.{Runs, Accepts, Safe, Safe-bind, Safe-weaken, Accepts-Runs, Exchange}
use poollet.Protocol.{Allowed, advance, start, Subject, Unpatched, Progress}
use poollet.Protocol.Quiet.{Quiet, Quiet-or_fail, Quiet-Safe}
use poollet.Helpers.{Shared}
use poollet.Usage.{is_alias_prefix_used_cached_or_live}
use poollet.Usage.Reading.{is_alias_prefix_used-Reads}
use poollet.Protocol.Reads.{Reads-Safe}
use poollet.Sync.{empty_builder}
use poollet.Provider.{target_namespace_for}
use poollet.BrokerClient.{broker_controlled_create_or_patch}
use poollet.Controllers.Common.{Config, contains_finalizer, ReconcileResult}
use poollet.Controllers.Obeys.{Obeys, Found, target_namespace_for-Finds, delete_shape-Obeys}
use poollet.Controllers.Apply.{with_target-Quiet, ready, apply_builder}
use poollet.Controllers.AliasPrefixRouting.{
  apply_target_routing, register_alias_prefix_routing_mutation,
}
use poollet.Controllers.AliasPrefixRouting.Destination.{
  register_alias_prefix_routing_mutation-Quiet,
}
use poollet.Controllers.AliasPrefix.{
  finalizer, delete, reconcile, reconcile_exists, register_all, register_default_mutation,
  register_network_ref_mutation, apply_target, fresh_target, finish, or_source,
}

module _ (k : Machinery) (sh : Shared) (r : Config) (obj : AliasPrefix) where
  abbrev pub subject : Subject
  subject = record {
    kind = alias_prefix;
    obj = obj;
    finalizer = finalizer k sh r;
    IsPatch = Unpatched;
  }

  -- The protocol of the other controllers, and a write of the routing once the finalizer is in
  -- place, which goes to the namespace that the alias prefix has in its own cluster.
  abbrev pub AllowedRouting : Progress → Op → Type 0
  AllowedRouting s (create_or_patch target alias_prefix_routing o m) =
      (s.finalized ≡ true)
      × (o.metadata.namespace ≡ obj.metadata.namespace)
      × (o.metadata.name ≡ obj.metadata.name)
  AllowedRouting s o = Allowed subject s o

  Allowed-AllowedRouting : (s : Progress) (o : Op) → Allowed subject s o → AllowedRouting s o
  Allowed-AllowedRouting s (create_or_patch target alias_prefix_routing o m) h =
      absurd (ground arith)
  Allowed-AllowedRouting s o h = h

  abbrev Keeps : {A : Type 0} → Progress → Prog A → Type 0
  Keeps = Safe advance AllowedRouting (λ s a. Unit)

  delete-Obeys : Obeys subject start (delete k sh r obj)
  unfolding delete
  delete-Obeys = elim (Bool-cases (contains_finalizer obj.metadata.finalizers (finalizer k sh r))) [
    | inl present ↦
        rw present (delete_shape-Obeys subject _ (target_namespace_for-Finds subject) _ present)
    | inr absent ↦ rw absent tt
  ]

  register_all-Quiet : Quiet (register_all k sh r obj)
  unfolding register_all register_network_ref_mutation
  register_all-Quiet =
      Quiet-or_fail (register_network_ref_mutation k sh r obj)
        (register_default_mutation k sh r obj empty_builder) λ b. search with_target-Quiet

  Quiet-Safe_routing :
      {A : Type 0} (p : Prog A) (s : Progress)
      → Quiet p
      → Safe advance AllowedRouting (λ s' (a : A). s' ≡ s) s p
  Quiet-Safe_routing p s quiet =
      Safe-weaken advance (Allowed subject) AllowedRouting Allowed-AllowedRouting _ s p
        (Quiet-Safe subject p s quiet)

  Obeys-Keeps : (p : Prog ReconcileResult) (s : Progress) → Obeys subject s p → Keeps s p
  Obeys-Keeps p s obeys =
      Safe-weaken advance (Allowed subject) AllowedRouting Allowed-AllowedRouting _ s p obeys

  finish-Keeps :
      (s : Progress) (partial : Bool)
      → s.finalized ≡ true
      → Keeps s (finish k sh r obj (ok (some obj, partial)))
  unfolding finish apply_target_routing broker_controlled_create_or_patch
  finish-Keeps s partial finalized =
      Safe-bind advance AllowedRouting (λ s' res. Unit) (λ s' a. Unit) s
        (apply_target_routing k r obj obj) _
        (Safe-bind advance AllowedRouting (λ s' b. s' ≡ s) (λ s' res. Unit) s
          (register_alias_prefix_routing_mutation k r obj empty_builder) _
          (Quiet-Safe_routing (register_alias_prefix_routing_mutation k r obj empty_builder) s
            (register_alias_prefix_routing_mutation-Quiet k r obj empty_builder))
          λ s'. elim [
            | err e ↦ λ h. tt
            | ok b ↦ λ h. rw h ((finalized, refl, refl), elim [ err e ↦ tt | ok t ↦ tt ])
          ])
        λ s'. elim [ err e ↦ λ h. tt | ok _ ↦ λ h. tt ]

  -- The target that `applyTarget` returns is the source object.
  abbrev IsSource : Result (Option AliasPrefix × Bool) → Type 0
  IsSource (err e) = Unit
  IsSource (ok (none, partial)) = Unit
  IsSource (ok (some t, partial)) = t ≡ obj

  or_source-IsSource :
      (res : Result (Option AliasPrefix × Bool)) → IsSource (or_source k sh r obj res)
  or_source-IsSource (err e) = tt
  or_source-IsSource (ok (none, partial)) = tt
  or_source-IsSource (ok (some t, partial)) = refl

  apply_target-Safe :
      (ns : String)
      → Safe advance AllowedRouting
          (λ s res. (s.finalized ≡ true) × IsSource res)
          (ready ns)
          (apply_target k sh r obj ns)
  unfolding apply_target broker_controlled_create_or_patch
  apply_target-Safe ns =
      Safe-bind advance AllowedRouting (λ s res. s.finalized ≡ true)
        (λ s res. (s.finalized ≡ true) × IsSource res) (ready ns)
        (register_all k sh r obj
          >>? apply_builder k r.cluster_name alias_prefix alias_prefix obj
              (fresh_target k sh r ns obj))
        _
        (Safe-bind advance AllowedRouting (λ s b. s ≡ ready ns) (λ s res. s.finalized ≡ true)
          (ready ns) (register_all k sh r obj) _
          (Quiet-Safe_routing _ (ready ns) register_all-Quiet)
          λ s. elim [
            | err e ↦ λ h. rw h refl
            | ok b ↦ λ h. rw h ((refl, refl, refl, refl), elim [ err e ↦ refl | ok t ↦ refl ])
          ])
        λ s res h. (h, or_source-IsSource res)

  finish_source-Keeps :
      (s : Progress) (res : Result (Option AliasPrefix × Bool))
      → s.finalized ≡ true
      → IsSource res
      → Keeps s (finish k sh r obj res)
  unfolding finish
  finish_source-Keeps s (err e) finalized h = tt
  finish_source-Keeps s (ok (none, partial)) finalized h = tt
  finish_source-Keeps s (ok (some t, partial)) finalized h = rw h (finish-Keeps s partial finalized)

  reconcile-Keeps : Keeps start (reconcile k sh r obj)
  unfolding reconcile
  reconcile-Keeps =
      Safe-bind advance AllowedRouting Found (λ s a. Unit) start (target_namespace_for obj.metadata)
        _
        (Safe-weaken advance (Allowed subject) AllowedRouting Allowed-AllowedRouting Found start _
          (target_namespace_for-Finds subject))
        λ s. elim [
          | err e ↦ λ h. tt
          | ok ns ↦ λ h. rw h (
            (refl, refl),
            elim [
              | err e ↦ tt
              | ok true ↦ tt
              | ok false ↦
                  Safe-bind advance AllowedRouting (λ s' res. (s'.finalized ≡ true) × IsSource res)
                    (λ s a. Unit) (ready ns) (apply_target k sh r obj ns) _ (apply_target-Safe ns)
                    λ s' res h'. finish_source-Keeps s' res h'.0 h'.1
            ],
          )
        ]

  exists-Keeps :
      (deletion_timestamp : Option ℕ) (delete rest : Prog ReconcileResult)
      → Keeps start delete
      → Keeps start rest
      → Keeps start (elim deletion_timestamp [ some _ ↦ delete | none ↦ rest ])
  exists-Keeps (some _) delete rest d h = d
  exists-Keeps none delete rest d h = h

  reconcile_exists-Keeps : Keeps start (reconcile_exists k sh r obj)
  unfolding reconcile_exists
  reconcile_exists-Keeps =
      exists-Keeps obj.metadata.deletion_timestamp (delete k sh r obj) _
        (Obeys-Keeps _ start delete-Obeys)
        (Safe-bind advance AllowedRouting (λ s used. s ≡ start) (λ s a. Unit) start
          (is_alias_prefix_used_cached_or_live sh r.pool_name obj) _
          (Safe-weaken advance (Allowed subject) AllowedRouting Allowed-AllowedRouting
            (λ s used. s ≡ start) start (is_alias_prefix_used_cached_or_live sh r.pool_name obj)
            (Reads-Safe subject _ start (is_alias_prefix_used-Reads sh r.pool_name obj)))
          λ s. elim [
            | err e ↦ λ h. tt
            | ok false ↦ λ h. rw h (Obeys-Keeps _ start delete-Obeys)
            | ok true ↦ λ h. rw h reconcile-Keeps
          ])

-- In every run of the alias prefix controller: the target is written only after the controller's
-- finalizer is in place on the source, in the target namespace that the provider has named and
-- under the name of the source; only the object of that kind, namespace and name is deleted, and
-- only if the source has the finalizer; the finalizer is put on no other object than the source,
-- and is removed from the source only after the target cluster has said that the target is gone;
-- the routing of the target is written only after the finalizer is in place, under the name of the
-- source in the namespace that the source has in its own cluster, whatever the target namespace is;
-- and nothing else but events is written in either cluster.
pub alias_prefix_run-Accepts :
    (k : Machinery) (sh : Shared) (r : Config) (obj : AliasPrefix) {trace : List Exchange}
    {result : ReconcileResult}
    → Runs (reconcile_exists k sh r obj) trace result
    → Accepts advance (AllowedRouting k sh r obj) start trace
alias_prefix_run-Accepts k sh r obj run =
    (Accepts-Runs advance (AllowedRouting k sh r obj) (λ s a. Unit) run start
      (reconcile_exists-Keeps k sh r obj)).0
