-- ===== src/Controllers/Volumes/MixedVolume/Order.antt =====
-- The mixed volume reconciler keeps to the protocol of the volume reconcilers.
use poollet.Base.{
  refl, true, false, ℕ, Bool, ◌≡◌, ◌==◌, Option, none, some, inl, inr, Bool-cases, List, ◌&&◌,
}
use poollet.Errors.{Result, ok, err}
use poollet.Api.Metadata.{Machinery}
use poollet.Api.Objects.{Volume}
use poollet.Prog.Trace.{Runs, Exchange, Accepts, Accepts-Runs}
use poollet.Helpers.{Shared, refers_to}
use poollet.SingleClient.Generate.{LocalControllers}
use poollet.Controllers.Common.{Config, ReconcileResult, contains_finalizer}
use poollet.Controllers.VolumeAppliers.{VolumeApplier}
use poollet.Controllers.Volumes.Protocol.{
  Policy, Stage, see, begin, AllowedVolume, IsApplier, finalized_begin,
}
use poollet.Controllers.Volumes.Protocol.SyncApplier.{sync-IsApplier}
use poollet.Controllers.Volumes.Protocol.Copies.{MakesOwned}
use poollet.Controllers.Volumes.Shapes.{
  Keeps, delete_shape-Keeps, apply_shape-Keeps, ensure_shape-Keeps, exists_shape-Keeps,
  status-Keeps, used_shape-Keeps,
}
use poollet.Controllers.Volumes.MixedVolume.{
  Fallback, is_empty, domain, finalizer, delete, delete_by, apply_status, finish, reconcile,
  reconcile_by, reconcile_kept, reconcile_exists, applier_for, fallback_config,
}

abbrev pub policy :
    (k : Machinery) (local : LocalControllers) (sh : Shared) (r : Config) (fallback : Fallback)
    (now : ℕ)
    → Policy
policy k local sh r fallback now = record {
  finalizer = finalizer k local sh r fallback now;
  proxying = false;
  copying = true;
}

-- What is known of a chosen applier: it keeps to the protocol.
abbrev Chosen : LocalControllers → Volume → Policy → Result (VolumeApplier × Bool) → Type 0
Chosen local obj policy (err e) = Unit
Chosen local obj policy (ok (applier, managed)) = IsApplier local obj policy applier

module _ (k : Machinery) (local : LocalControllers) (makes_owned : MakesOwned local) (sh : Shared)
    (r : Config) (fallback : Fallback) (now : ℕ) (obj : Volume) where
  for-Chosen :
      Chosen local obj
        (policy k local sh r fallback now)
        (applier_for k local sh r fallback now obj)
  unfolding applier_for
  for-Chosen = elim (Bool-cases (refers_to obj.volume_pool_ref r.pool_name)) [
    | inl managed ↦
        rw managed (sync-IsApplier local obj (policy k local sh r fallback now) k r false)
    | inr other ↦ elim (Bool-cases (fallback.pool_name == "" && is_empty fallback.pool_labels)) [
      | inl absent ↦ rw (other, absent) tt
      | inr present ↦
          rw (other, present)
            (sync-IsApplier local obj (policy k local sh r fallback now) k
              (fallback_config k local sh r fallback now) false)
    ]
  ]

  delete_by-Keeps :
      (chosen : Result (VolumeApplier × Bool))
      → Chosen local obj (policy k local sh r fallback now) chosen
      → contains_finalizer obj.metadata.finalizers (finalizer k local sh r fallback now) ≡ true
      → Keeps local obj
          (policy k local sh r fallback now)
          begin
          (delete_by k local sh r fallback now obj chosen)
  unfolding delete_by
  delete_by-Keeps (err e) h present = tt
  delete_by-Keeps (ok (applier, managed)) h present =
      delete_shape-Keeps local obj (policy k local sh r fallback now) applier h _ _ _ present

  delete-Keeps :
      Keeps local obj
        (policy k local sh r fallback now)
        begin
        (delete k local sh r fallback now obj)
  unfolding delete
  delete-Keeps =
      elim (Bool-cases
        (contains_finalizer obj.metadata.finalizers (finalizer k local sh r fallback now))) [
          | inr absent ↦ rw absent tt
          | inl present ↦ rw present (delete_by-Keeps _ for-Chosen present)
        ]

  finish-Keeps :
      (managed : Bool) (s : Stage) (res : Result (Option Volume × Bool))
      → s.progress.finalized ≡ true
      → Keeps local obj
          (policy k local sh r fallback now)
          s
          (finish k local sh r fallback now obj managed res)
  unfolding apply_status
  finish-Keeps managed s (err e) h = tt
  finish-Keeps managed s (ok (none, partial)) h = tt
  finish-Keeps true s (ok (some target, partial)) h =
      status-Keeps local obj (policy k local sh r fallback now) k makes_owned refl
        (domain k local sh r fallback now) now s partial target _ _ h
  finish-Keeps false s (ok (some target, partial)) h = tt

  reconcile_by-Keeps :
      (chosen : Result (VolumeApplier × Bool))
      → Chosen local obj (policy k local sh r fallback now) chosen
      → Keeps local obj
          (policy k local sh r fallback now)
          (finalized_begin local obj (policy k local sh r fallback now))
          (reconcile_by k local sh r fallback now obj chosen)
  unfolding reconcile_by
  reconcile_by-Keeps (err e) h = tt
  reconcile_by-Keeps (ok (applier, managed)) h =
      apply_shape-Keeps local obj (policy k local sh r fallback now) applier h _
        (finish-Keeps managed)

  reconcile-Keeps :
      Keeps local obj
        (policy k local sh r fallback now)
        begin
        (reconcile k local sh r fallback now obj)
  unfolding reconcile
  reconcile-Keeps =
      ensure_shape-Keeps local obj (policy k local sh r fallback now) _
        (reconcile_by-Keeps _ for-Chosen)

  reconcile_kept-Keeps :
      Keeps local obj
        (policy k local sh r fallback now)
        begin
        (reconcile_kept k local sh r fallback now obj)
  unfolding reconcile_kept
  reconcile_kept-Keeps = elim (Bool-cases (refers_to obj.volume_pool_ref r.pool_name)) [
    | inl here ↦ rw here reconcile-Keeps
    | inr elsewhere ↦ rw elsewhere (
        used_shape-Keeps local obj (policy k local sh r fallback now) sh r.pool_name
          (delete k local sh r fallback now obj) (reconcile k local sh r fallback now obj)
          delete-Keeps reconcile-Keeps)
  ]

  reconcile_exists-Keeps :
      Keeps local obj
        (policy k local sh r fallback now)
        begin
        (reconcile_exists k local sh r fallback now obj)
  unfolding reconcile_exists
  reconcile_exists-Keeps =
      exists_shape-Keeps local obj (policy k local sh r fallback now)
        obj.metadata.deletion_timestamp (delete k local sh r fallback now obj) _ delete-Keeps
        reconcile_kept-Keeps

-- In every run of the mixed volume reconciler, if setting a controller makes it the controller, and
-- whichever pool the volume is in: the target is written only with the finalizer in place, in the
-- target namespace that the provider has named for the namespace of the volume and under the name
-- of the volume; the target is deleted only there, under that name, and only if the volume has the
-- finalizer; a secret is created only with the contents of the secret last read from the target
-- cluster, in the namespace of the volume and owned by it, and patched only with such contents, if
-- it is the one that was listed and it is or becomes owned by the volume; only a listed secret that
-- the volume owns is deleted; the status of the volume is patched only with the finalizer in place;
-- the reconciler's finalizer is put on no other object than the volume, and is removed from it only
-- after the target cluster has said that the target is gone, or if the provider has named no target
-- namespace; and nothing else but events is written in either cluster.
pub mixed_volume_run-Accepts :
    (k : Machinery) (local : LocalControllers) (sh : Shared) (r : Config) (fallback : Fallback)
    (now : ℕ) (obj : Volume) {trace : List Exchange} {result : ReconcileResult}
    → MakesOwned local
    → Runs (reconcile_exists k local sh r fallback now obj) trace result
    → Accepts see (AllowedVolume local obj (policy k local sh r fallback now)) begin trace
mixed_volume_run-Accepts k local sh r fallback now obj makes_owned run =
    (Accepts-Runs see (AllowedVolume local obj (policy k local sh r fallback now)) (λ s a. Unit) run
      begin (reconcile_exists-Keeps k local makes_owned sh r fallback now obj)).0
