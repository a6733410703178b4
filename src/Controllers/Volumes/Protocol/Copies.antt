-- ===== src/Controllers/Volumes/Protocol/Copies.antt =====
-- The access secret that is generated or patched, and the access applier as a whole.
use poollet.Base.{
  String, true, not, ◌≡◌, refl, ◌==◌, Option, none, some, inl, inr, ◌⊎◌, Bool-cases, arith, eq_iff,
}
use poollet.Base.Dict.{insert}
use poollet.Errors.{Result, ok, err, Error, is_not_found, Result-cases}
use poollet.Api.Metadata.{Metadata, MetaObject, Machinery, volume, secret}
use poollet.Api.Objects.{Volume, VolumeAccess, Secret, meta_object}
use poollet.Prog.{Prog, done, source, live}
use poollet.Prog.Trace.{Safe, Safe-bind, Safe-if}
use poollet.SingleClient.{list_single}
use poollet.SingleClient.Generate.{
  LocalControllers, controlled_list_single_generate_or_patch, list_single_generate_or_patch,
  controlled_mutate, check_can_generate, generate_or_patch, create_mutated, patch_mutated, then_own,
  same_key,
}
use poollet.Controllers.Access.{
  apply_access, apply_access_secret, copy_access, fresh_access_secret, access_options, with_secret,
  access_volume_uid_label, apply_access_of,
}
use poollet.Controllers.Volumes.Protocol.{Policy, Stage, see, AllowedVolume, Finalized, IsOwned}
use poollet.Controllers.Volumes.Protocol.Secrets.{
  Holds, Listed, list_single-Safe, prune_access-Safe,
}

-- `SetControllerReference` makes the owner the controller.
abbrev pub MakesOwned : LocalControllers → Type 0
MakesOwned local =
    (owner : MetaObject) (m m' : Metadata)
    → local.set_controller_reference owner m ≡ ok m'
    → local.is_controlled_by m' owner.metadata ≡ true

module _ (k : Machinery) (local : LocalControllers) (makes_owned : MakesOwned local) (obj : Volume)
    (policy : Policy) (copying : policy.copying ≡ true) (domain : String) where
  abbrev mutated : Secret → Secret → Result Secret
  mutated t base =
      controlled_mutate k secret local (meta_object volume obj) (copy_access k local domain obj t)
        base

  abbrev labelled : Secret → Metadata
  unfolding access_volume_uid_label insert
  labelled base = record base.metadata {
    labels = insert (access_volume_uid_label k local domain) obj.metadata.uid base.metadata.labels;
  }

  then_own-IsOwned :
      (t base x : Secret)
      → then_own k secret local (meta_object volume obj) (copy_access k local domain obj t base)
        ≡ ok x
      → IsOwned local obj x.metadata × (x.contents ≡ t.contents)
  unfolding copy_access
  then_own-IsOwned t base x h =
      elim (Result-cases
        (local.set_controller_reference (meta_object volume obj) (labelled base))) [
          | inr (e, failed) ↦ absurd (ground arith)
          | inl (m, made) ↦
              let owned = makes_owned (meta_object volume obj) (labelled base) m made in
              ground arith
        ]

  mutated-ok :
      (t base x : Secret)
      → mutated t base ≡ ok x
      → (IsOwned local obj base.metadata ⊎ IsOwned local obj x.metadata) × (x.contents ≡ t.contents)
  unfolding controlled_mutate copy_access
  mutated-ok t base x h = elim (Bool-cases (base.metadata.resource_version == "")) [
    | inl new ↦ let own = then_own-IsOwned t base x (ground arith) in (inr own.0, own.1)
    | inr old ↦ elim (Bool-cases (local.is_controlled_by base.metadata obj.metadata)) [
      | inl owned ↦ (inl owned, ground arith)
      | inr other ↦ absurd (ground arith)
    ]
  ]

  option-Safe :
      (c : Option Error) (s : Stage) (p : Prog (Result Secret))
      → s.progress.finalized ≡ true
      → Safe see (AllowedVolume local obj policy) (Finalized local obj policy) s p
      → Safe see
          (AllowedVolume local obj policy)
          (Finalized local obj policy)
          s
          (elim c [ some e ↦ done (err e) | none ↦ p ])
  option-Safe none s p h safe = safe
  option-Safe (some e) s p h safe = h

  fresh_mutated-IsOwned :
      (t x : Secret)
      → mutated t (fresh_access_secret k local domain obj) ≡ ok x
      → IsOwned local obj x.metadata
  unfolding controlled_mutate fresh_access_secret
  fresh_mutated-IsOwned t x h =
      (then_own-IsOwned t (fresh_access_secret k local domain obj) x (ground arith)).0

  -- The checks before the creation: the namespace is that of the volume.
  create-Safe :
      (t : Secret) (s : Stage) (r : Result Secret)
      → mutated t (fresh_access_secret k local domain obj) ≡ r
      → Holds k local obj policy copying (some t) s
      → Safe see
          (AllowedVolume local obj policy)
          (Finalized local obj policy)
          s
          (create_mutated k secret (live source) source (fresh_access_secret k local domain obj) r)
  unfolding fresh_access_secret
  create-Safe t s (err e) h holds = holds.0
  create-Safe t s (ok x) h holds =
      elim (Bool-cases (x.metadata.namespace == obj.metadata.namespace)) [
        | inr moved ↦ rw moved holds.0
        | inl same ↦ rw same (
            option-Safe (check_can_generate x.metadata) s _ holds.0 (
              (
                copying,
                holds.0,
                (eq_iff x.metadata.namespace obj.metadata.namespace).0 same,
                fresh_mutated-IsOwned t x h,
                (t, holds.1, (mutated-ok t (fresh_access_secret k local domain obj) x h).1),
              ),
              λ reply. holds.0,
            ))
      ]

  patch-Safe :
      (t base : Secret) (s : Stage) (r : Result Secret)
      → mutated t base ≡ r
      → Holds k local obj policy copying (some t) s
      → s.listed ≡ some base
      → Safe see
          (AllowedVolume local obj policy)
          (Finalized local obj policy)
          s
          (patch_mutated k secret (live source) source base r)
  patch-Safe t base s (err e) h holds listed = holds.0
  patch-Safe t base s (ok x) h holds listed =
      let m = mutated-ok t base x h in
      Safe-if see (AllowedVolume local obj policy) (Finalized local obj policy) s
        (not (same_key base.metadata x.metadata)) _ _ holds.0
        ((copying, holds.0, listed, m.0, (t, holds.1, m.1)), λ reply. holds.0)

  generate_or_patch-Safe :
      (t : Secret) (s : Stage) (found : Result Secret)
      → Listed k local obj policy copying (some t) s found
      → Safe see (AllowedVolume local obj policy) (Finalized local obj policy) s (
          generate_or_patch k secret
            (live source)
            source
            (fresh_access_secret k local domain obj)
            (mutated t)
            found)
  generate_or_patch-Safe t s (ok base) h = patch-Safe t base s (mutated t base) refl h.0 h.1
  generate_or_patch-Safe t s (err e) h =
      Safe-if see (AllowedVolume local obj policy) (Finalized local obj policy) s
        (not (is_not_found (some e))) _ _ h.0
        (create-Safe t s (mutated t (fresh_access_secret k local domain obj)) refl h)

  apply_access_secret-Safe :
      (access : VolumeAccess) (t : Secret) (s : Stage)
      → Holds k local obj policy copying (some t) s
      → Safe see
          (AllowedVolume local obj policy)
          (Finalized local obj policy)
          s
          (apply_access_secret k local domain obj access t)
  unfolding apply_access_secret controlled_list_single_generate_or_patch
      list_single_generate_or_patch
  apply_access_secret-Safe access t s h =
      Safe-bind see (AllowedVolume local obj policy) (Finalized local obj policy)
        (Finalized local obj policy) s
        (list_single_generate_or_patch k secret (live source) source
          (fresh_access_secret k local domain obj) (mutated t)
          (access_options k local domain none obj))
        _
        (option-Safe (check_can_generate (fresh_access_secret k local domain obj).metadata) s _ h.0
          (Safe-bind see (AllowedVolume local obj policy)
            (Listed k local obj policy copying (some t)) (Finalized local obj policy) s
            (list_single k secret (live source) _) _
            (list_single-Safe k local obj policy copying (some t) s _ h)
            λ s' found h'. generate_or_patch-Safe t s' found h'))
        λ s'. elim [ err e ↦ λ h'. h' | ok x ↦ λ h'. h' ]

  with_secret-Safe :
      (t : Volume) (access : VolumeAccess) (name : Option String) (s : Stage)
      → s.progress.finalized ≡ true
      → Safe see
          (AllowedVolume local obj policy)
          (Finalized local obj policy)
          s
          (with_secret k local domain obj t access name)
  with_secret-Safe t access none s h =
      prune_access-Safe k local obj policy copying domain s (some access) h
  with_secret-Safe t access (some name) s h = (
    tt,
    elim [
      | err e ↦ h
      | ok x ↦ apply_access_secret-Safe access x (record s { fetched = some x }) (h, refl)
    ],
  )

  apply_access_of-Safe :
      (t : Volume) (access : Option VolumeAccess) (s : Stage)
      → s.progress.finalized ≡ true
      → Safe see
          (AllowedVolume local obj policy)
          (Finalized local obj policy)
          s
          (apply_access_of k local domain obj t access)
  apply_access_of-Safe t none s h = prune_access-Safe k local obj policy copying domain s none h
  apply_access_of-Safe t (some access) s h = with_secret-Safe t access access.secret_ref s h

  pub apply_access-Safe :
      (t : Volume) (s : Stage)
      → s.progress.finalized ≡ true
      → Safe see
          (AllowedVolume local obj policy)
          (Finalized local obj policy)
          s
          (apply_access k local domain obj t)
  unfolding apply_access
  apply_access-Safe t s h = apply_access_of-Safe t t.access s h
