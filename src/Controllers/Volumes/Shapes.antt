-- ===== src/Controllers/Volumes/Shapes.antt =====
-- The shapes that the volume reconcilers share, and why each of them keeps to the protocol.
use poollet.Base.{ℕ, String, Bool, true, false, ◌≡◌, refl, Option, none, some}
use poollet.Errors.{Result, ok, err, Error}
use poollet.Api.Metadata.{Machinery, volume}
use poollet.Api.Objects.{Volume}
use poollet.Prog.{Prog, done, perform, ◌>>=◌, source, ensure_finalizer, remove_finalizer}
use poollet.Prog.Trace.{Safe, Safe-bind}
use poollet.Helpers.{Shared}
use poollet.Usage.{
  is_volume_used_cached_or_live, is_volume_used_by_machine_in_machine_pool_cached,
  is_volume_used_by_machine_in_machine_pool_live,
}
use poollet.SingleClient.Generate.{LocalControllers}
use poollet.Controllers.Common.{ReconcileResult, no_requeue, contains_finalizer}
use poollet.Controllers.VolumeAppliers.{VolumeApplier}
use poollet.Controllers.Access.{patch_volume_status, apply_access}
use poollet.Controllers.Volumes.Protocol.{
  Policy, Stage, see, begin, AllowedVolume, Finalized, Reported, IsApplier, finalized_begin,
}
use poollet.Controllers.Volumes.Protocol.Copies.{MakesOwned, apply_access-Safe}

module _ (local : LocalControllers) (obj : Volume) (policy : Policy) where
  abbrev pub Keeps : {A : Type 0} → Stage → Prog A → Type 0
  Keeps = Safe see (AllowedVolume local obj policy) (λ s a. Unit)

  module _ (applier : VolumeApplier) (keeps : IsApplier local obj policy applier) where
    pub delete_shape-Keeps :
        (on_error on_error' : Error → ReconcileResult) (pending : ReconcileResult)
        → contains_finalizer obj.metadata.finalizers policy.finalizer ≡ true
        → Keeps begin (
            applier.delete_target obj >>= elim [
              | err e ↦ done (on_error e)
              | ok false ↦ done pending
              | ok true ↦
                  perform (remove_finalizer source volume obj policy.finalizer)
                  >>= elim [ err e ↦ done (on_error' e) | ok _ ↦ done no_requeue ]
            ])
    delete_shape-Keeps on_error on_error' pending present =
        Safe-bind see (AllowedVolume local obj policy) (Reported local obj policy) (λ s a. Unit)
          begin (applier.delete_target obj) _ (keeps.deletes present)
          λ s. elim [
            | err e ↦ λ h. tt
            | ok false ↦ λ h. tt
            | ok true ↦ λ h. ((refl, refl, h), elim [ err e ↦ tt | ok _ ↦ tt ])
          ]

    pub apply_shape-Keeps :
        (finish : Result (Option Volume × Bool) → Prog ReconcileResult)
        → ((s : Stage) (r : Result (Option Volume × Bool))
            → s.progress.finalized ≡ true
            → Keeps s (finish r))
        → Keeps (finalized_begin local obj policy) (applier.apply_target obj >>= finish)
    apply_shape-Keeps finish finished =
        Safe-bind see (AllowedVolume local obj policy) (Finalized local obj policy) (λ s a. Unit)
          (finalized_begin local obj policy) (applier.apply_target obj) finish keeps.applies
          finished

  pub ensure_shape-Keeps :
      (p : Prog ReconcileResult)
      → Keeps (finalized_begin local obj policy) p
      → Keeps begin (
          perform (ensure_finalizer source volume obj policy.finalizer)
          >>= elim [ err e ↦ done (err e) | ok true ↦ done no_requeue | ok false ↦ p ])
  ensure_shape-Keeps p safe = ((refl, refl), elim [ err e ↦ tt | ok true ↦ tt | ok false ↦ safe ])

  pub exists_shape-Keeps :
      (deletion_timestamp : Option ℕ) (p q : Prog ReconcileResult)
      → Keeps begin p
      → Keeps begin q
      → Keeps begin (elim deletion_timestamp [ some _ ↦ p | none ↦ q ])
  exists_shape-Keeps none p q hp hq = hq
  exists_shape-Keeps (some _) p q hp hq = hp

  -- The access and then the status, whatever becomes of an error.
  module _ (k : Machinery) (makes_owned : MakesOwned local) (copying : policy.copying ≡ true)
      (domain : String) (now : ℕ) where
    pub status-Keeps :
        (s : Stage) (partial : Bool) (target : Volume)
        (on_error on_error' : Error → ReconcileResult)
        → s.progress.finalized ≡ true
        → Keeps s (
            apply_access k local domain obj target >>= elim [
              | err e ↦ done (on_error e)
              | ok access ↦
                  patch_volume_status now obj target.state access
                  >>= elim [ err e ↦ done (on_error' e) | ok _ ↦ done (ok partial) ]
            ])
    unfolding patch_volume_status
    status-Keeps s partial target on_error on_error' h =
        Safe-bind see (AllowedVolume local obj policy) (Finalized local obj policy) (λ s a. Unit) s
          (apply_access k local domain obj target) _
          (apply_access-Safe k local makes_owned obj policy copying domain target s h)
          λ s'. elim [
            | err e ↦ λ h'. tt
            | ok access ↦ λ h'. ((copying, h', refl), elim [ err e ↦ tt | ok _ ↦ tt ])
          ]

module _ (local : LocalControllers) (obj : Volume) (policy : Policy) (sh : Shared)
    (pool_name : String) where
  claimed-Keeps :
      {R : Type 0} (ref : Option R) (p : Prog (Result Bool)) (f : R → Prog (Result Bool))
      → Safe see (AllowedVolume local obj policy) (λ s a. s ≡ begin) begin p
      → ((r : R) → Safe see (AllowedVolume local obj policy) (λ s a. s ≡ begin) begin (f r))
      → Safe see
          (AllowedVolume local obj policy)
          (λ s a. s ≡ begin)
          begin
          (elim ref [ none ↦ p | some r ↦ f r ])
  claimed-Keeps none p f hp h = hp
  claimed-Keeps (some r) p f hp h = h r

  -- The test of usage, and then one of two programs.
  pub used_shape-Keeps :
      (p q : Prog ReconcileResult)
      → Keeps local obj policy begin p
      → Keeps local obj policy begin q
      → Keeps local obj policy begin (
          is_volume_used_cached_or_live sh pool_name obj
          >>= elim [ err e ↦ done (err e) | ok false ↦ p | ok true ↦ q ])
  unfolding is_volume_used_cached_or_live is_volume_used_by_machine_in_machine_pool_cached
      is_volume_used_by_machine_in_machine_pool_live
  used_shape-Keeps p q hp hq =
      Safe-bind see (AllowedVolume local obj policy) (λ s a. s ≡ begin) (λ s a. Unit) begin
        (is_volume_used_cached_or_live sh pool_name obj) _
        (Safe-bind see (AllowedVolume local obj policy) (λ s a. s ≡ begin) (λ s a. s ≡ begin) begin
          (is_volume_used_by_machine_in_machine_pool_cached sh pool_name obj) _
          (claimed-Keeps obj.claim_ref _ _ refl λ ref. (tt, elim [ err e ↦ refl | ok m ↦ refl ]))
          λ s. elim [
            | err e ↦ λ h. h
            | ok true ↦ λ h. h
            | ok false ↦ λ h. rw h (
                Safe-bind see (AllowedVolume local obj policy) (λ s a. s ≡ begin) (λ s a. s ≡ begin)
                  begin (is_volume_used_by_machine_in_machine_pool_live sh pool_name obj) _
                  (claimed-Keeps obj.claim_ref _ _ refl
                    λ ref. (tt, elim [ err e ↦ refl | ok m ↦ refl ]))
                  λ s'. elim [ err e ↦ λ h'. h' | ok true ↦ λ h'. h' | ok false ↦ λ h'. h' ])
          ])
        λ s. elim [ err e ↦ λ h. tt | ok false ↦ λ h. rw h hp | ok true ↦ λ h. rw h hq ]
