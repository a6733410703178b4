-- ===== src/Controllers/Volumes/Protocol/Secrets.antt =====
-- The access applier keeps to the protocol once the finalizer is in place.
use poollet.Base.{String, true, ◌≡◌, refl, Option, some, List, [], ◌∷◌, inl, inr, Bool-cases}
use poollet.Errors.{Result, ok, err}
use poollet.Api.Metadata.{Machinery, volume, secret}
use poollet.Api.Objects.{Volume, VolumeAccess, Secret, meta_object}
use poollet.Prog.{Prog, done, source, live, ListOptions}
use poollet.Prog.Trace.{Safe, Safe-bind}
use poollet.SingleClient.{list_single, single}
use poollet.SingleClient.Generate.{
  LocalControllers, controlled_list_single_and_delete, controlled_list_single, if_owned,
}
use poollet.Controllers.Access.{prune_access, access_options}
use poollet.Controllers.Volumes.Protocol.{
  Policy, Stage, see, only, AllowedVolume, Finalized, IsOwned,
}

module _ (k : Machinery) (local : LocalControllers) (obj : Volume) (policy : Policy)
    (copying : policy.copying ≡ true) where
  -- The finalizer is in place, and the secret read from the target cluster is `t`.
  abbrev pub Holds : Option Secret → Stage → Type 0
  Holds t s = (s.progress.finalized ≡ true) × (s.fetched ≡ t)

  -- After the list call alone: the one secret.
  abbrev pub Listed : Option Secret → Stage → Result Secret → Type 0
  Listed t s (ok x) = Holds t s × (s.listed ≡ some x)
  Listed t s (err e) = Holds t s

  single-Listed :
      (t : Option Secret) (s : Stage) (secrets : List Secret)
      → Holds t s
      → Listed t (record s { listed = only secrets }) (single secrets)
  single-Listed t s [] h = h
  single-Listed t s (x ∷ []) h = (h, refl)
  single-Listed t s (x ∷ y ∷ rest) h = h

  known-Safe :
      {G : Type 0} (g : Result G) (t : Option Secret) (s : Stage) (p : Prog (Result Secret))
      → Holds t s
      → Safe see (AllowedVolume local obj policy) (Listed t) s p
      → Safe see
          (AllowedVolume local obj policy)
          (Listed t)
          s
          (elim g [ err e ↦ done (err e) | ok gvk ↦ p ])
  known-Safe (err e) t s p h safe = h
  known-Safe (ok gvk) t s p h safe = safe

  pub list_single-Safe :
      (t : Option Secret) (s : Stage) (options : ListOptions)
      → Holds t s
      → Safe see
          (AllowedVolume local obj policy)
          (Listed t)
          s
          (list_single k secret (live source) options)
  unfolding list_single
  list_single-Safe t s options h =
      known-Safe (k.gvk_for_object secret) t s _ h
        (tt, elim [ err e ↦ h | ok secrets ↦ single-Listed t s secrets h ])

  abbrev Owned : Stage → Result Secret → Type 0
  Owned s (ok x) =
      (s.progress.finalized ≡ true) × (s.listed ≡ some x) × IsOwned local obj x.metadata
  Owned s (err e) = s.progress.finalized ≡ true

  if_owned-Safe :
      (s : Stage) (x : Secret)
      → s.progress.finalized ≡ true
      → s.listed ≡ some x
      → Safe see
          (AllowedVolume local obj policy)
          Owned
          s
          (if_owned k secret local (meta_object volume obj) x)
  if_owned-Safe s x h listed = elim (Bool-cases (local.is_controlled_by x.metadata obj.metadata)) [
    | inl owned ↦ rw owned (h, listed, owned)
    | inr other ↦ rw other h
  ]

  controlled_list_single-Safe :
      (s : Stage) (options : ListOptions)
      → s.progress.finalized ≡ true
      → Safe see
          (AllowedVolume local obj policy)
          Owned
          s
          (controlled_list_single k secret local (meta_object volume obj) (live source) options)
  unfolding controlled_list_single
  controlled_list_single-Safe s options h =
      Safe-bind see (AllowedVolume local obj policy) (Listed s.fetched) Owned s
        (list_single k secret (live source) options) _
        (list_single-Safe s.fetched s options (h, refl))
        λ s'. elim [ err e ↦ λ h'. h'.0 | ok x ↦ λ h'. if_owned-Safe s' x h'.0.0 h'.1 ]

  module _ (domain : String) where
    pub prune_access-Safe :
        (s : Stage) (access : Option VolumeAccess)
        → s.progress.finalized ≡ true
        → Safe see
            (AllowedVolume local obj policy)
            (Finalized local obj policy)
            s
            (prune_access k local domain obj access)
    unfolding prune_access controlled_list_single_and_delete
    prune_access-Safe s access h =
        Safe-bind see (AllowedVolume local obj policy) (Finalized local obj policy)
          (Finalized local obj policy) s
          (controlled_list_single_and_delete k secret local (meta_object volume obj) (live source)
            source (access_options k local domain (some obj.metadata.namespace) obj))
          _
          (Safe-bind see (AllowedVolume local obj policy) Owned (Finalized local obj policy) s
            (controlled_list_single k secret local (meta_object volume obj) (live source) _) _
            (controlled_list_single-Safe s _ h)
            λ s'. elim [
              | err e ↦ λ h'. h'
              | ok x ↦ λ h'. ((copying, x, h'.1, h'.2, refl), λ reply. h'.0)
            ])
          λ s' a h'. h'
