-- ===== src/Controllers/Volumes/Volume/Order.antt =====
-- The volume broker keeps to the protocol of the volume reconcilers.
use poollet.Base.{refl, true, false, ℕ, Bool, ◌≡◌, Option, none, some, inl, inr, Bool-cases, List}
use poollet.Errors.{Result, ok, err}
use poollet.Api.Metadata.{Machinery}
use poollet.Api.Objects.{Volume}
use poollet.Prog.Trace.{Runs, Exchange, Accepts, Accepts-Runs}
use poollet.Helpers.{refers_to}
use poollet.SingleClient.Generate.{LocalControllers}
use poollet.Controllers.Common.{Config, ReconcileResult, contains_finalizer}
use poollet.Controllers.VolumeAppliers.{sync_volume_applier}
use poollet.Controllers.Volumes.Protocol.{Policy, Stage, see, begin, AllowedVolume}
use poollet.Controllers.Volumes.Protocol.SyncApplier.{sync-IsApplier}
use poollet.Controllers.Volumes.Protocol.Copies.{MakesOwned}
use poollet.Controllers.Volumes.Shapes.{
  Keeps, delete_shape-Keeps, apply_shape-Keeps, ensure_shape-Keeps, exists_shape-Keeps,
  status-Keeps,
}
use poollet.Controllers.Volumes.Volume.{
  domain, finalizer, delete, apply_status, finish, reconcile, reconcile_exists,
}

abbrev pub policy : (k : Machinery) (local : LocalControllers) (r : Config) (now : ℕ) → Policy
policy k local r now = record {
  finalizer = finalizer k local r now;
  proxying = false;
  copying = true;
}

module _ (k : Machinery) (local : LocalControllers) (makes_owned : MakesOwned local) (r : Config)
    (now : ℕ) (obj : Volume) where
  delete-Keeps : Keeps local obj (policy k local r now) begin (delete k local r now obj)
  unfolding delete
  delete-Keeps =
      elim (Bool-cases (contains_finalizer obj.metadata.finalizers (finalizer k local r now))) [
        | inr absent ↦ rw absent tt
        | inl present ↦ rw present (
            delete_shape-Keeps local obj (policy k local r now) (sync_volume_applier k r true)
              (sync-IsApplier local obj (policy k local r now) k r true) _ _ _ present)
      ]

  finish-Keeps :
      (s : Stage) (res : Result (Option Volume × Bool))
      → s.progress.finalized ≡ true
      → Keeps local obj (policy k local r now) s (finish k local r now obj res)
  unfolding apply_status
  finish-Keeps s (err e) h = tt
  finish-Keeps s (ok (none, partial)) h = tt
  finish-Keeps s (ok (some target, partial)) h =
      status-Keeps local obj (policy k local r now) k makes_owned refl (domain k local r now) now s
        partial target _ _ h

  reconcile-Keeps : Keeps local obj (policy k local r now) begin (reconcile k local r now obj)
  unfolding reconcile
  reconcile-Keeps = ensure_shape-Keeps local obj (policy k local r now) _ (
      apply_shape-Keeps local obj (policy k local r now) (sync_volume_applier k r true)
        (sync-IsApplier local obj (policy k local r now) k r true) _ finish-Keeps)

  reconcile_exists-Keeps :
      Keeps local obj (policy k local r now) begin (reconcile_exists k local r now obj)
  unfolding reconcile_exists
  reconcile_exists-Keeps = elim (Bool-cases (refers_to obj.volume_pool_ref r.pool_name)) [
    | inr elsewhere ↦ rw elsewhere tt
    | inl here ↦ rw here (
        exists_shape-Keeps local obj (policy k local r now) obj.metadata.deletion_timestamp
          (delete k local r now obj) _ delete-Keeps reconcile-Keeps)
  ]

-- In every run of the volume broker, if setting a controller makes it the controller: the target is
-- written only with the finalizer in place, in the target namespace that the provider has named for
-- the namespace of the volume and under the name of the volume; the target is deleted only there,
-- under that name, and only if the volume has the finalizer; a secret is created only with the
-- contents of the secret last read from the target cluster, in the namespace of the volume and
-- owned by it, and patched only with such contents, if it is the one that was listed and it is or
-- becomes owned by the volume; only a listed secret that the volume owns is deleted; the status of
-- the volume is patched only with the finalizer in place; the reconciler's finalizer is put on no
-- other object than the volume, and is removed from it only after the target cluster has said that
-- the target is gone, or if the provider has named no target namespace; and nothing else but events
-- is written in either cluster.
pub volume_run-Accepts :
    (k : Machinery) (local : LocalControllers) (r : Config) (now : ℕ) (obj : Volume)
    {trace : List Exchange} {result : ReconcileResult}
    → MakesOwned local
    → Runs (reconcile_exists k local r now obj) trace result
    → Accepts see (AllowedVolume local obj (policy k local r now)) begin trace
volume_run-Accepts k local r now obj makes_owned run =
    (Accepts-Runs see (AllowedVolume local obj (policy k local r now)) (λ s a. Unit) run begin
      (reconcile_exists-Keeps k local makes_owned r now obj)).0
