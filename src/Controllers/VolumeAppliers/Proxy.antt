-- ===== src/Controllers/VolumeAppliers/Proxy.antt =====
-- The proxy applier changes only the owners of the volume that it proxies.
use poollet.Base.{List, String, Bool, true, ◌≡◌, refl, Option, none, some, inl, inr}
use poollet.Errors.{Result, ok, err, Result-cases}
use poollet.Api.Metadata.{Machinery, volume}
use poollet.Api.Objects.{Volume, meta_object}
use poollet.Multicluster.Reference.{OwnerReference}
use poollet.Multicluster.Meta.{get_controller_of}
use poollet.Multicluster.Meta.Annotation.{IsLossless}
use poollet.Multicluster.OwnerRefs.{set_owner_reference, has_owner_reference}
use poollet.Multicluster.OwnerRefs.Objects.{ParsesPrinted, has-set_owner_reference}
use poollet.Prog.{Prog, Op, Reply, target, cached, get, patch}
use poollet.Prog.Trace.{Runs, Exchange, Accepts, Accepts-Runs, Safe}
use poollet.Controllers.VolumeAppliers.{proxy_apply_target, attach}

-- The target volume that was read last.
abbrev pub read_volume : Option Volume → (o : Op) → Reply o → Option Volume
read_volume s (get (cached target) volume key) (ok t) = some t
read_volume s o r = s

module _ (k : Machinery) (cluster_name : String) (obj : Volume) where
  -- A patch of the volume that was read, which adds the owner and changes nothing but metadata.
  abbrev pub AllowedAttach : Option Volume → Op → Type 0
  AllowedAttach s (get reader kind key) = Unit
  AllowedAttach s (patch target volume base patched) =
      (s ≡ some base)
      × (patched ≡ record base { metadata = patched.metadata })
      × (has_owner_reference k cluster_name (meta_object volume obj) patched.metadata ≡ ok true)
  AllowedAttach s _ = ⊥

module _ (k : Machinery) (lossless : IsLossless k) (printed : ParsesPrinted k)
    (cluster_name : String) (obj : Volume) where
  abbrev Keeps : {A : Type 0} → Option Volume → Prog A → Type 0
  Keeps = Safe read_volume (AllowedAttach k cluster_name obj) (λ s a. Unit)

  attach-Keeps :
      (t : Volume)
      → Keeps (some t) (
          attach k cluster_name t
            (set_owner_reference k cluster_name (meta_object volume obj) t.metadata))
  attach-Keeps t =
      elim (Result-cases (set_owner_reference k cluster_name (meta_object volume obj) t.metadata)) [
        | inr (e, failed) ↦ rw failed tt
        | inl (m, made) ↦ rw made (
          (
            refl,
            refl,
            has-set_owner_reference k lossless printed cluster_name (meta_object volume obj)
                t.metadata m made,
          ),
          elim [ err e ↦ tt | ok patched ↦ tt ],
        )
      ]

  controller-Keeps :
      (ctrl : Option OwnerReference) (p : Prog (Result (Option Volume × Bool)))
      (f : OwnerReference → Prog (Result (Option Volume × Bool)))
      → Keeps none p
      → ((ref : OwnerReference) → Keeps none (f ref))
      → Keeps none (elim ctrl [ none ↦ p | some ref ↦ f ref ])
  controller-Keeps none p f hp h = hp
  controller-Keeps (some ref) p f hp h = h ref

  -- In every run in which the proxy applier applies a target: the one call that writes is a patch of
  -- the target volume that was read last, it changes nothing but its metadata, and in the patched
  -- metadata the proxying volume is an owner.
  pub proxy_apply_target-Accepts :
      {trace : List Exchange} {result : Result (Option Volume × Bool)}
      → Runs (proxy_apply_target k cluster_name obj) trace result
      → Accepts read_volume (AllowedAttach k cluster_name obj) none trace
  unfolding proxy_apply_target
  proxy_apply_target-Accepts run =
      (Accepts-Runs read_volume (AllowedAttach k cluster_name obj) (λ s a. Unit) run none
        (controller-Keeps (get_controller_of k obj.metadata) _ _ tt
          λ ref. (tt, elim [ err e ↦ tt | ok t ↦ attach-Keeps t ]))).0
