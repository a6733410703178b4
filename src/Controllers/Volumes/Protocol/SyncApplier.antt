-- ===== src/Controllers/Volumes/Protocol/SyncApplier.antt =====
-- The sync applier keeps to the protocol of the volume reconcilers.
use poollet.Base.{
  String, Bool, true, false, ◌≡◌, refl, ◌==◌, Option, none, some, inl, inr, Bool-cases, ◌∙◌, ap,
}
use poollet.Errors.{Result, ok, err, Error, ignore_not_synced}
use poollet.Api.Metadata.{Machinery, volume}
use poollet.Api.Objects.{Volume}
use poollet.Prog.{Prog, done, call, get, list, event, provider_target, or_fail}
use poollet.Prog.Trace.{Safe, Safe-bind}
use poollet.Protocol.{Progress, start}
use poollet.Protocol.Quiet.{Quiet, advance-provider_target, Asks-not_namespace}
use poollet.BrokerClient.{broker_controlled_create_or_patch}
use poollet.Provider.{target_namespace_for}
use poollet.SingleClient.Generate.{LocalControllers}
use poollet.Controllers.Common.{Config, key_in, contains_finalizer}
use poollet.Controllers.VolumeAppliers.{
  sync_volume_applier, sync_apply_target, sync_delete_target, register_all, done_or, fresh_target,
  Builder,
}
use poollet.Controllers.Apply.{ready, apply_builder}
use poollet.Controllers.VolumeAppliers.Sync.{register_all-Quiet}
use poollet.Controllers.Volumes.Protocol.{
  Policy, Stage, see, begin, AllowedVolume, Finalized, Reported, IsApplier, finalized_begin,
}

module _ (local : LocalControllers) (obj : Volume) (policy : Policy) where
  -- Programs that read, look up targets and report events keep the progress.
  Quiet-Stage :
      {A : Type 0} (p : Prog A) (s : Stage) (g : Progress)
      → s.progress ≡ g
      → Quiet p
      → Safe see (AllowedVolume local obj policy) (λ s' (a : A). s'.progress ≡ g) s p
  Quiet-Stage (done a) s g h quiet = h
  Quiet-Stage (call (get reader kind key) f) s g h quiet =
      (tt, λ r. Quiet-Stage (f r) (see s (get reader kind key) r) g h (quiet r))
  Quiet-Stage (call (list reader kind options) f) s g h quiet =
      (tt, λ r. Quiet-Stage (f r) (see s (list reader kind options) r) g h (quiet r))
  Quiet-Stage (call (event kind key text) f) s g h quiet =
      (tt, λ r. Quiet-Stage (f r) (see s (event kind key text) r) g h (quiet r))
  Quiet-Stage (call (provider_target kind key) f) s g h quiet = (
    Asks-not_namespace obj.metadata kind key quiet.0,
    λ r.
        Quiet-Stage (f r) (see s (provider_target kind key) r) g
          (advance-provider_target kind key s.progress r quiet.0 ∙ h) (quiet.1 r),
  )
  Quiet-Stage (call _ f) s g h quiet = absurd quiet

  module _ (k : Machinery) (r : Config) (unclaimable : Bool) where
    -- The state once the target namespace is known, with the finalizer in place.
    abbrev Named : Stage → Result String → Type 0
    Named s (ok ns) = s.progress ≡ ready ns
    Named s (err e) = s.progress.finalized ≡ true

    Named-Safe :
        Safe see
          (AllowedVolume local obj policy)
          Named
          (finalized_begin local obj policy)
          (target_namespace_for obj.metadata)
    unfolding target_namespace_for
    Named-Safe = elim (Bool-cases (obj.metadata.namespace == "")) [
      | inl absent ↦ rw absent refl
      | inr present ↦ rw present (refl, elim [ ok ns ↦ refl | err e ↦ refl ])
    ]

    write-Safe :
        (ns : String) (s : Stage) (b : Result Builder)
        → s.progress ≡ ready ns
        → Safe see (AllowedVolume local obj policy) (Finalized local obj policy) s (
            or_fail
              (apply_builder k r.cluster_name volume volume obj
                (fresh_target k r unclaimable ns obj))
              b)
    unfolding broker_controlled_create_or_patch
    write-Safe ns s (err e) h = ap (λ p. p.finalized) h
    write-Safe ns s (ok b) h = (
      (ap (λ p. p.finalized) h, ap (λ p. p.target_namespace) h, refl),
      elim [ err e ↦ ap (λ p. p.finalized) h | ok t ↦ ap (λ p. p.finalized) h ],
    )

    apply-Safe :
        Safe see
          (AllowedVolume local obj policy)
          (Finalized local obj policy)
          (finalized_begin local obj policy)
          (sync_apply_target k r unclaimable obj)
    unfolding sync_apply_target
    apply-Safe =
        Safe-bind see (AllowedVolume local obj policy) Named (Finalized local obj policy)
          (finalized_begin local obj policy) (target_namespace_for obj.metadata) _ Named-Safe
          λ s. elim [
            | err e ↦ λ h. h
            | ok ns ↦ λ h.
                Safe-bind see (AllowedVolume local obj policy) (λ s' b. s'.progress ≡ ready ns)
                  (Finalized local obj policy) s (register_all k r unclaimable obj) _
                  (Quiet-Stage (register_all k r unclaimable obj) s (ready ns) h
                    (register_all-Quiet k r unclaimable obj))
                  (write-Safe ns)
          ]

    -- The lookup of the target namespace: named, or not.
    abbrev Looked : Stage → Result String → Type 0
    Looked s (ok ns) = s ≡ record begin { progress = record start { target_namespace = some ns } }
    Looked s (err e) = s.progress.target_namespace ≡ none

    Looked-Safe :
        Safe see (AllowedVolume local obj policy) Looked begin (target_namespace_for obj.metadata)
    unfolding target_namespace_for
    Looked-Safe = elim (Bool-cases (obj.metadata.namespace == "")) [
      | inl absent ↦ rw absent refl
      | inr present ↦ rw present (refl, elim [ ok ns ↦ refl | err e ↦ refl ])
    ]

    done_or-Reported :
        (s : Stage) (e : Option Error)
        → s.progress.target_namespace ≡ none
        → Reported local obj policy s (done_or e)
    done_or-Reported s none h = inr (inl h)
    done_or-Reported s (some e) h = tt

    delete-Safe :
        contains_finalizer obj.metadata.finalizers policy.finalizer ≡ true
        → Safe see
            (AllowedVolume local obj policy)
            (Reported local obj policy)
            begin
            (sync_delete_target k r unclaimable obj)
    unfolding sync_delete_target
    delete-Safe present =
        Safe-bind see (AllowedVolume local obj policy) Looked (Reported local obj policy) begin
          (target_namespace_for obj.metadata) _ Looked-Safe
          λ s. elim [
            | err e ↦ λ h. done_or-Reported s (ignore_not_synced (some e)) h
            | ok ns ↦ λ h. rw h (
              ((refl, refl), present),
              elim [
                | err e ↦ tt
                | ok true ↦ tt
                | ok false ↦ inr (inr (key_in ns obj.metadata, refl, (refl, refl)))
              ],
            )
          ]

    pub sync-IsApplier : IsApplier local obj policy (sync_volume_applier k r unclaimable)
    unfolding sync_volume_applier
    sync-IsApplier = record { applies = apply-Safe; deletes = delete-Safe }
