-- ===== src/Examples/Clusters.antt =====
-- Two clusters that do what is documented of them, and a secret that is made and that is deleted.
use poollet.Base.{true, false, not, ◌≡◌, refl, [], ◌∷◌, none, some}
use poollet.Errors.{ok, err, not_found}
use poollet.Api.Metadata.{MetaObject, secret, namespace}
use poollet.Api.Objects.{Secret}
use poollet.Prog.{
  Op, Reply, done, source, target, cached, live, get, list, create, patch, patch_status, delete,
  delete_if_exists, create_or_patch, ensure_finalizer, ensure_no_finalizer, remove_finalizer,
  provider_target, event,
}
use poollet.Dependents.{Mixin, is_referenced, is_referenced_cached}
use poollet.Multicluster.Meta.{is_controlled_by}
use poollet.Controllers.Common.{contains_finalizer, no_requeue, target_object}
use poollet.Controllers.Apply.{key_of}
use poollet.Controllers.Secret.{handle, finalizer}
use poollet.Controllers.Secret.Clusters.{
  Clusters, Api, IsApi, exec, found, exists, unless, applied, or_kept, released, finalized,
}
use poollet.Controllers.Secret.Clusters.Made.{made, synced, with_finalizer}
use poollet.Controllers.Secret.Clusters.Progress.{handle-completes_deletion}
use poollet.Controllers.Secret.Clusters.Converge.{handle-converges}
use poollet.Examples.Codec.{machinery, machinery-IsLossless, gvk_for}
use poollet.Examples.Objects.{config, source_secret, source_metadata, target_namespace}

abbrev answer : Clusters → (o : Op) → Reply o
answer w (get (cached source) secret key) = found key w.source_secret
answer w (get (live source) secret key) = found key w.source_secret
answer w (get (cached target) secret key) = found key w.target_secret
answer w (get (live target) secret key) = found key w.target_secret
answer w (get reader kind key) = err not_found
answer w (list reader kind options) = ok []
answer w (create side kind obj) = err not_found
answer w (patch side kind base obj) = err not_found
answer w (patch_status side kind base obj) = err not_found
answer w (delete side kind key) = err not_found
answer w (delete_if_exists target secret key) = ok (exists key w.target_secret)
answer w (delete_if_exists side kind key) = ok false
answer w (create_or_patch target secret obj mutate) = applied w.target_secret obj mutate
answer w (create_or_patch side kind obj mutate) = err not_found
answer w (ensure_finalizer source secret obj f) =
    ok (not (contains_finalizer obj.metadata.finalizers f))
answer w (ensure_finalizer side kind obj f) = err not_found
answer w (ensure_no_finalizer side kind obj f) = err not_found
answer w (remove_finalizer source secret obj f) = ok tt
answer w (remove_finalizer side kind obj f) = err not_found
answer w (provider_target namespace key) = ok target_namespace
answer w (provider_target kind key) = err not_found
answer w (event kind key text) = tt

abbrev write : Clusters → Op → Clusters
write w (delete_if_exists target secret key) = record w {
  target_secret = unless (exists key w.target_secret) w.target_secret;
}
write w (create_or_patch target secret obj mutate) = record w {
  target_secret = or_kept w.target_secret (applied w.target_secret obj mutate);
}
write w (ensure_finalizer source secret obj f) = record w { source_secret = some (finalized f obj) }
write w (remove_finalizer source secret obj f) = record w { source_secret = released f obj }
write w _ = w

abbrev api : Api
api = record { answer = answer; write = write }

api-IsApi : IsApi api target_namespace
api-IsApi = record {
  gets = λ w key. refl;
  gets_only = λ w key. refl;
  provides = λ w key. refl;
  provides_only = λ w key. refl;
  deletes = λ w key. refl;
  deletes_it = λ w key. refl;
  removes = λ w s f. refl;
  removes_it = λ w s f. refl;
  ensures = λ w s f. refl;
  ensures_it = λ w s f. refl;
  applies = λ w fresh mutate. refl;
  applies_it = λ w fresh mutate. refl;
}

-- Something that refers to every object.
abbrev always_used : Mixin
always_used =
    record {
      cached_referencer = λ referenced. done (ok true);
      live_referencer = λ referenced. done (ok true);
    }
    ∷ []

used : (w : Clusters) (o : MetaObject) → exec api w (is_referenced always_used o) ≡ (w, ok true)
unfolding is_referenced is_referenced_cached
used w o = refl

abbrev new_secret : Secret
new_secret = record { metadata = source_metadata "s" []; contents = ("password", "hunter2") ∷ [] }

new_without_finalizer : contains_finalizer [] (finalizer machinery config) ≡ false
new_without_finalizer = refl

handle-converges_example :
    (exec api
        (exec api
          (record { source_secret = some new_secret; target_secret = none })
          (handle machinery config always_used (key_of new_secret.metadata))).0
        (handle machinery config always_used (key_of new_secret.metadata))
      ≡ (
        synced machinery config target_namespace
            (gvk_for secret)
            (with_finalizer machinery config target_namespace new_secret),
        no_requeue,
      ))
    × (exec api
          (synced machinery config target_namespace
            (gvk_for secret)
            (with_finalizer machinery config target_namespace new_secret))
          (handle machinery config always_used (key_of new_secret.metadata))
        ≡ (
          synced machinery config target_namespace
              (gvk_for secret)
              (with_finalizer machinery config target_namespace new_secret),
          no_requeue,
        ))
    × ((made machinery config target_namespace
          (gvk_for secret)
          (with_finalizer machinery config target_namespace new_secret)).contents
        ≡ new_secret.contents)
    × (is_controlled_by machinery "main" new_secret.metadata
          (made machinery config target_namespace
            (gvk_for secret)
            (with_finalizer machinery config target_namespace new_secret)).metadata
        ≡ true)
handle-converges_example =
    handle-converges machinery config always_used target_namespace api api-IsApi used
      machinery-IsLossless new_secret (gvk_for secret) refl refl refl new_without_finalizer

abbrev deleted_secret : Secret
deleted_secret = record source_secret {
  metadata = record source_secret.metadata { deletion_timestamp = some 5 };
}

abbrev old_target : Secret
old_target = record { metadata = target_object "default-x7k2p" "s"; contents = [] }

held : contains_finalizer deleted_secret.metadata.finalizers (finalizer machinery config) ≡ true
unfolding finalizer
held = refl

handle-completes_deletion_example :
    exec api
      (exec api
        (record { source_secret = some deleted_secret; target_secret = some old_target })
        (handle machinery config [] (key_of deleted_secret.metadata))).0
      (handle machinery config [] (key_of deleted_secret.metadata))
    ≡ (
      record {
        source_secret = released (finalizer machinery config) deleted_secret;
        target_secret = none;
      },
      no_requeue,
    )
handle-completes_deletion_example =
    handle-completes_deletion machinery config [] target_namespace api api-IsApi deleted_secret
      old_target 5 refl held refl refl
