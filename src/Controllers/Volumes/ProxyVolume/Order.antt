-- ===== src/Controllers/Volumes/ProxyVolume/Order.antt =====
-- The proxy volume broker keeps to the protocol of the volume reconcilers.
use poollet.Base.{refl, true, ℕ, Bool, ◌≡◌, Option, none, some, inl, inr, Bool-cases, List}
use poollet.Errors.{Result, ok, err}
use poollet.Api.Metadata.{Machinery}
use poollet.Api.Objects.{Volume}
use poollet.Multicluster.Reference.{OwnerReference}
use poollet.Multicluster.Meta.{get_controller_of}
use poollet.Prog.Trace.{Runs, Exchange, Accepts, Accepts-Runs}
use poollet.Helpers.{refers_to}
use poollet.SingleClient.Generate.{LocalControllers}
use poollet.Controllers.Common.{Config, ReconcileResult, contains_finalizer}
use poollet.Controllers.Volumes.Protocol.{Policy, Stage, see, begin, AllowedVolume, IsApplier}
use poollet.Controllers.Volumes.Protocol.SyncApplier.{sync-IsApplier}
use poollet.Controllers.Volumes.Protocol.ProxyApplier.{proxy-IsApplier}
use poollet.Controllers.Volumes.Protocol.Copies.{MakesOwned}
use poollet.Controllers.Volumes.Shapes.{
  Keeps, delete_shape-Keeps, apply_shape-Keeps, ensure_shape-Keeps, exists_shape-Keeps,
  status-Keeps,
}
use poollet.Controllers.Volumes.ProxyVolume.{
  domain, finalizer, delete, apply_status, finish, reconcile, reconcile_exists, applier_by,
  applier_for,
}

abbrev pub policy : (k : Machinery) (local : LocalControllers) (r : Config) (now : ℕ) → Policy
policy k local r now = record {
  finalizer = finalizer k local r now;
  proxying = true;
  copying = true;
}

module _ (k : Machinery) (local : LocalControllers) (makes_owned : MakesOwned local) (r : Config)
    (now : ℕ) (obj : Volume) where
  by-IsApplier :
      (ctrl : Option OwnerReference)
      → IsApplier local obj (policy k local r now) (applier_by k local r now ctrl)
  by-IsApplier none = sync-IsApplier local obj (policy k local r now) k r true
  by-IsApplier (some ctrl) = proxy-IsApplier local obj (policy k local r now) refl k r.cluster_name

  for-IsApplier : IsApplier local obj (policy k local r now) (applier_for k local r now obj)
  unfolding applier_for
  for-IsApplier = by-IsApplier (get_controller_of k obj.metadata)

  delete-Keeps : Keeps local obj (policy k local r now) begin (delete k local r now obj)
  unfolding delete
  delete-Keeps =
      elim (Bool-cases (contains_finalizer obj.metadata.finalizers (finalizer k local r now))) [
        | inr absent ↦ rw absent tt
        | inl present ↦ rw present (
            delete_shape-Keeps local obj (policy k local r now) (applier_for k local r now obj)
              for-IsApplier _ _ _ present)
      ]

  finish-Keeps :
      (s : Stage) (res : Result (Option Volume × Bool))
      → s.progress.finalized ≡ true
      → Keeps local obj (policy k local r now) s (finish k local r now obj res)
  unfolding apply_status
  finish-Keeps s (err e) h = tt
  finish-Keeps s (ok (none, partial)) h = tt
  finish-Keeps s (ok (some target, partial)) h =
      status-Keeps local obj (policy k local r now) k makes_owned refl (domain k local r now) now s
        partial target _ _ h

  reconcile-Keeps : Keeps local obj (policy k local r now) begin (reconcile k local r now obj)
  unfolding reconcile
  reconcile-Keeps = ensure_shape-Keeps local obj (policy k local r now) _ (
      apply_shape-Keeps local obj (policy k local r now) (applier_for k local r now obj)
        for-IsApplier _ finish-Keeps)

  reconcile_exists-Keeps :
      Keeps local obj (policy k local r now) begin (reconcile_exists k local r now obj)
  unfolding reconcile_exists
  reconcile_exists-Keeps = elim (Bool-cases (refers_to obj.volume_pool_ref r.pool_name)) [
    | inr elsewhere ↦ rw elsewhere tt
    | inl here ↦ rw here (
        exists_shape-Keeps local obj (policy k local r now) obj.metadata.deletion_timestamp
          (delete k local r now obj) _ delete-Keeps reconcile-Keeps)
  ]

-- In every run of the proxy volume broker, if setting a controller makes it the controller: the
-- target is written and deleted only as the volume broker writes and deletes it, or it is the
-- target volume that was read last, of which nothing but the metadata is patched; the secrets and
-- the status are written only as the volume broker writes them; the finalizer is put on no other
-- object than the volume, and is removed from it only after the target is gone, or the proxied
-- volume is gone or has been patched, or if no target namespace was named; and nothing else but
-- events is written.
pub proxy_volume_run-Accepts :
    (k : Machinery) (local : LocalControllers) (r : Config) (now : ℕ) (obj : Volume)
    {trace : List Exchange} {result : ReconcileResult}
    → MakesOwned local
    → Runs (reconcile_exists k local r now obj) trace result
    → Accepts see (AllowedVolume local obj (policy k local r now)) begin trace
proxy_volume_run-Accepts k local r now obj makes_owned run =
    (Accepts-Runs see (AllowedVolume local obj (policy k local r now)) (λ s a. Unit) run begin
      (reconcile_exists-Keeps k local makes_owned r now obj)).0
