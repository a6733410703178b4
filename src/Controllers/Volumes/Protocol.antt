-- ===== src/Controllers/Volumes/Protocol.antt =====
-- The order in which a volume reconciler may touch the clusters, whichever applier it uses, and what
-- an applier has to keep to. It extends the protocol of the sync controllers by the volume that is
-- proxied and by the secrets of the access.
pub mod SyncApplier
pub mod ProxyApplier
pub mod Secrets
pub mod Copies
use poollet.Base.{String, Bool, true, false, ◌≡◌, ◌⊎◌, Option, none, some, List, [], ◌∷◌}
use poollet.Errors.{Result, ok, err, is_not_found}
use poollet.Api.Metadata.{Metadata, Kind, volume, secret}
use poollet.Api.Objects.{Volume, Secret}
use poollet.Prog.{
  Op, Reply, source, target, cached, live, ObjectKey, get, list, create, patch, patch_status,
  delete, delete_if_exists, create_or_patch, ensure_finalizer, remove_finalizer, provider_target,
  event,
}
use poollet.Prog.Trace.{Safe}
use poollet.Protocol.{Progress, advance, start, Asks}
use poollet.SingleClient.Generate.{LocalControllers}
use poollet.Controllers.VolumeAppliers.{VolumeApplier}
use poollet.Controllers.Apply.{key_of}
use poollet.Controllers.Common.{contains_finalizer}

-- `progress` is that of the sync controllers. `proxied` is the target volume that was read last, and
-- `released` says that it is gone or has been patched. `listed` is the one secret that the last list
-- in the source cluster has given, `fetched` the secret that was read from the target cluster.
pub record Stage : Type 0 where
  pub progress : Progress
  pub proxied : Option Volume
  pub released : Bool
  pub listed : Option Secret
  pub fetched : Option Secret

abbrev pub begin : Stage
begin = record { progress = start; proxied = none; released = false; listed = none; fetched = none }

abbrev pub only : List Secret → Option Secret
only [] = none
only (s ∷ []) = some s
only (s ∷ s' ∷ rest) = none

abbrev pub see_proxied : Option Volume → (o : Op) → Reply o → Option Volume
see_proxied s (get (cached target) volume key) (ok t) = some t
see_proxied s o r = s

abbrev pub see_released : Bool → (o : Op) → Reply o → Bool
see_released s (get (cached target) volume key) (err e) = is_not_found (some e)
see_released s (patch target volume base obj) (ok t) = true
see_released s (patch target volume base obj) (err e) = is_not_found (some e)
see_released s o r = s

abbrev pub see_listed : Option Secret → (o : Op) → Reply o → Option Secret
see_listed s (list (live source) secret options) (ok secrets) = only secrets
see_listed s (list (live source) secret options) (err e) = none
see_listed s o r = s

abbrev pub see_fetched : Option Secret → (o : Op) → Reply o → Option Secret
see_fetched s (get (cached target) secret key) (ok t) = some t
see_fetched s o r = s

abbrev pub see : Stage → (o : Op) → Reply o → Stage
see s o r = record {
  progress = advance s.progress o r;
  proxied = see_proxied s.proxied o r;
  released = see_released s.released o r;
  listed = see_listed s.listed o r;
  fetched = see_fetched s.fetched o r;
}

-- The finalizer of a reconciler, whether it proxies volumes, and whether it copies the access and the
-- state of the target into the source cluster.
pub record Policy : Type 0 where
  pub finalizer : String
  pub proxying : Bool
  pub copying : Bool

-- The key is that of the target: the volume's own name in the target namespace.
abbrev pub IsTarget : Volume → Progress → ObjectKey → Type 0
IsTarget obj s key = (s.target_namespace ≡ some key.namespace) × (key.name ≡ obj.metadata.name)

-- The target is gone from the target namespace, or the provider has named no target namespace, or,
-- where volumes are proxied, the proxied volume was released.
abbrev pub IsDone : Policy → Volume → Stage → Type 0
IsDone policy obj s =
    ((policy.proxying ≡ true) × (s.released ≡ true))
    ⊎ ((s.progress.target_namespace ≡ none)
        ⊎ ((key : ObjectKey) × (s.progress.gone ≡ some key) × IsTarget obj s.progress key))

module _ (local : LocalControllers) (obj : Volume) where
  abbrev pub IsOwned : Metadata → Type 0
  IsOwned m = local.is_controlled_by m obj.metadata ≡ true

  -- The contents of a secret are those of the secret that was read from the target cluster.
  abbrev pub IsCopy : Stage → Secret → Type 0
  IsCopy s x = (t : Secret) × (s.fetched ≡ some t) × (x.contents ≡ t.contents)

  module _ (policy : Policy) where
    abbrev pub AllowedVolume : Stage → Op → Type 0
    AllowedVolume s (ensure_finalizer source volume o finalizer) =
        (o ≡ obj) × (finalizer ≡ policy.finalizer)
    AllowedVolume s (remove_finalizer source volume o finalizer) =
        (o ≡ obj) × (finalizer ≡ policy.finalizer) × IsDone policy obj s
    AllowedVolume s (create_or_patch target volume t mutate) =
        (s.progress.finalized ≡ true)
        × (s.progress.target_namespace ≡ some t.metadata.namespace)
        × (t.metadata.name ≡ obj.metadata.name)
    AllowedVolume s (delete_if_exists target volume key) =
        IsTarget obj s.progress key
        × (contains_finalizer obj.metadata.finalizers policy.finalizer ≡ true)
    AllowedVolume s (patch target volume base t) =
        (policy.proxying ≡ true)
        × (s.proxied ≡ some base)
        × (t ≡ record base { metadata = t.metadata })
    AllowedVolume s (create source secret x) =
        (policy.copying ≡ true)
        × (s.progress.finalized ≡ true)
        × (x.metadata.namespace ≡ obj.metadata.namespace)
        × IsOwned x.metadata
        × IsCopy s x
    AllowedVolume s (patch source secret base x) =
        (policy.copying ≡ true)
        × (s.progress.finalized ≡ true)
        × (s.listed ≡ some base)
        × (IsOwned base.metadata ⊎ IsOwned x.metadata)
        × IsCopy s x
    AllowedVolume s (delete source secret key) =
        (policy.copying ≡ true)
        × (x : Secret) × (s.listed ≡ some x)
        × IsOwned x.metadata
        × (key ≡ key_of x.metadata)
    AllowedVolume s (patch_status source volume base o) =
        (policy.copying ≡ true) × (s.progress.finalized ≡ true) × (base ≡ obj)
    AllowedVolume s (get reader k key) = Unit
    AllowedVolume s (list reader k options) = Unit
    AllowedVolume s (provider_target k key) = Asks obj.metadata k key
    AllowedVolume s (event k key text) = Unit
    AllowedVolume s _ = ⊥

    abbrev pub Finalized : {A : Type 0} → Stage → A → Type 0
    Finalized s a = s.progress.finalized ≡ true

    -- A report of done is true.
    abbrev pub Reported : Stage → Result Bool → Type 0
    Reported s (ok true) = IsDone policy obj s
    Reported s _ = Unit

    abbrev pub finalized_begin : Stage
    finalized_begin = record begin { progress = record start { finalized = true } }

    -- What the reconcilers rely on in an applier, for one volume.
    pub record IsApplier (applier : VolumeApplier) : Type 0 where
      pub applies : Safe see AllowedVolume Finalized finalized_begin (applier.apply_target obj)
      pub deletes :
          contains_finalizer obj.metadata.finalizers policy.finalizer ≡ true
          → Safe see AllowedVolume Reported begin (applier.delete_target obj)
