-- ===== src/Controllers/Volumes/Protocol/ProxyApplier.antt =====
-- The proxy applier keeps to the protocol of the volume reconcilers.
use poollet.Base.{String, Bool, true, ◌≡◌, refl, Option, none, some, inl, inr, Bool-cases, ◌∙◌}
use poollet.Errors.{Result, ok, err, Error, is_not_found}
use poollet.Api.Metadata.{Metadata, Machinery}
use poollet.Api.Objects.{Volume}
use poollet.Multicluster.Reference.{OwnerReference}
use poollet.Multicluster.Meta.{get_controller_of}
use poollet.Prog.{Prog}
use poollet.Prog.Trace.{Safe}
use poollet.SingleClient.Generate.{LocalControllers}
use poollet.Controllers.VolumeAppliers.{
  proxy_volume_applier, proxy_apply_target, proxy_delete_target, attach, release, done_if_not_found,
}
use poollet.Controllers.Volumes.Protocol.{
  Policy, Stage, see, begin, AllowedVolume, Finalized, Reported, IsApplier, finalized_begin,
}

module _ (local : LocalControllers) (obj : Volume) (policy : Policy)
    (proxying : policy.proxying ≡ true) where
  module _ (k : Machinery) (cluster_name : String) where
    attach-Safe :
        (t : Volume) (s : Stage) (m : Result Metadata)
        → s.progress.finalized ≡ true
        → s.proxied ≡ some t
        → Safe see
            (AllowedVolume local obj policy)
            (Finalized local obj policy)
            s
            (attach k cluster_name t m)
    attach-Safe t s (err e) h read = h
    attach-Safe t s (ok m) h read = ((proxying, read, refl), elim [ err e ↦ h | ok patched ↦ h ])

    proxy_apply-Safe :
        (ctrl : Option OwnerReference) (p : Prog (Result (Option Volume × Bool)))
        (f : OwnerReference → Prog (Result (Option Volume × Bool)))
        → Safe see
            (AllowedVolume local obj policy)
            (Finalized local obj policy)
            (finalized_begin local obj policy)
            p
        → ((ref : OwnerReference)
            → Safe see
                (AllowedVolume local obj policy)
                (Finalized local obj policy)
                (finalized_begin local obj policy)
                (f ref))
        → Safe see
            (AllowedVolume local obj policy)
            (Finalized local obj policy)
            (finalized_begin local obj policy)
            (elim ctrl [ none ↦ p | some ref ↦ f ref ])
    proxy_apply-Safe none p f hp h = hp
    proxy_apply-Safe (some ref) p f hp h = h ref

    proxy_delete-Safe :
        (ctrl : Option OwnerReference) (p : Prog (Result Bool))
        (f : OwnerReference → Prog (Result Bool))
        → Safe see (AllowedVolume local obj policy) (Reported local obj policy) begin p
        → ((ref : OwnerReference)
            → Safe see (AllowedVolume local obj policy) (Reported local obj policy) begin (f ref))
        → Safe see
            (AllowedVolume local obj policy)
            (Reported local obj policy)
            begin
            (elim ctrl [ none ↦ p | some ref ↦ f ref ])
    proxy_delete-Safe none p f hp h = hp
    proxy_delete-Safe (some ref) p f hp h = h ref

    done_if_not_found-Reported :
        (s : Stage) (text : String) (e : Error)
        → s.released ≡ is_not_found (some e)
        → Reported local obj policy s (done_if_not_found k cluster_name text e)
    done_if_not_found-Reported s text e h = elim (Bool-cases (is_not_found (some e))) [
      | inl gone ↦ rw gone (inl (proxying, h ∙ gone))
      | inr other ↦ rw other tt
    ]

    release-Safe :
        (t : Volume) (s : Stage) (m : Result Metadata)
        → s.proxied ≡ some t
        → Safe see
            (AllowedVolume local obj policy)
            (Reported local obj policy)
            s
            (release k cluster_name t m)
    release-Safe t s (err e) read = tt
    release-Safe t s (ok m) read = (
      (proxying, read, refl),
      elim [
        | err e ↦
            done_if_not_found-Reported (record s { released = is_not_found (some e) })
              "error patching target" e refl
        | ok _ ↦ inl (proxying, refl)
      ],
    )

    -- The proxy applier, whatever the controller of the volume.
    pub proxy-IsApplier : IsApplier local obj policy (proxy_volume_applier k cluster_name)
    unfolding proxy_volume_applier proxy_apply_target proxy_delete_target
    proxy-IsApplier = record {
      applies = proxy_apply-Safe (get_controller_of k obj.metadata) _ _ refl λ ref. (
        tt,
        elim [
          | err e ↦ refl
          | ok t ↦
              attach-Safe t (record (finalized_begin local obj policy) { proxied = some t }) _ refl
                refl
        ],
      );
      deletes = λ present. proxy_delete-Safe (get_controller_of k obj.metadata) _ _ tt λ ref. (
        tt,
        elim [
          | err e ↦
              done_if_not_found-Reported (record begin { released = is_not_found (some e) })
                "error getting target" e refl
          | ok t ↦ release-Safe t (record begin { proxied = some t }) _ refl
        ],
      );
    }
