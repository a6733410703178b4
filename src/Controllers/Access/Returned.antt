-- ===== src/Controllers/Access/Returned.antt =====
-- The access that is returned for a volume, against that of its target.
use poollet.Base.{String, not, ◌≡◌, refl, List, Option, none, some, ◌==◌}
use poollet.Errors.{Result, ok, err, Error, is_not_found}
use poollet.Api.Metadata.{Machinery, secret, volume}
use poollet.Api.Objects.{Volume, VolumeAccess, Secret, meta_object}
use poollet.Prog.{Prog, done, Op, Reply, call, source, live, create, patch}
use poollet.Prog.Trace.{Safe, Safe-bind, Safe-if, Runs, Exchange, Accepts-Runs, after}
use poollet.SingleClient.{list_single}
use poollet.SingleClient.Generate.{
  LocalControllers, check_can_generate, controlled_mutate, create_mutated, patch_mutated,
  generate_or_patch, list_single_generate_or_patch, same_key,
  controlled_list_single_generate_or_patch, controlled_list_single_and_delete,
}
use poollet.Controllers.Access.{
  access_options, without_secret, prune_access, fresh_access_secret, copy_access,
  apply_access_secret, with_secret, apply_access_of, apply_access,
}

-- The name of the secret that was written last.
abbrev pub see_written : Option String → (o : Op) → Reply o → Option String
see_written s (create source secret x) (ok made) = some made.metadata.name
see_written s (patch source secret base x) (ok made) = some made.metadata.name
see_written s o r = s

abbrev pub AnyCall : Option String → Op → Type 0
AnyCall s o = Unit

-- The returned access has the driver and the attributes of the target's. It has a reference to a
-- secret if the target's has one, and then to the secret that was written last.
abbrev pub HasSecret : Option String → Option String → Option String → Type 0
HasSecret written none secret_ref = secret_ref ≡ none
HasSecret written (some name) secret_ref =
    (written_name : String) × (written ≡ some written_name) × (secret_ref ≡ some written_name)

abbrev pub Matches : Option String → Option VolumeAccess → Option VolumeAccess → Type 0
Matches written none access = access ≡ none
Matches written (some ta) none = ⊥
Matches written (some ta) (some access) =
    (access.driver ≡ ta.driver)
    × (access.volume_attributes ≡ ta.volume_attributes)
    × HasSecret written ta.secret_ref access.secret_ref

abbrev pub Returned : Option VolumeAccess → Option String → Result (Option VolumeAccess) → Type 0
Returned ta written (err e) = Unit
Returned ta written (ok access) = Matches written ta access

abbrev Nothing : {A : Type 0} → Option String → A → Type 0
Nothing s a = Unit

abbrev LastWritten : Option String → Result Secret → Type 0
LastWritten s (err e) = Unit
LastWritten s (ok x) = s ≡ some x.metadata.name

any-Safe : {A : Type 0} (s : Option String) (p : Prog A) → Safe see_written AnyCall Nothing s p
any-Safe s (done a) = tt
any-Safe s (call o f) = (tt, λ r. any-Safe (see_written s o r) (f r))

module _ (k : Machinery) (local : LocalControllers) (obj : Volume) (domain : String) where
  option-LastWritten :
      (c : Option Error) (s : Option String) (p : Prog (Result Secret))
      → Safe see_written AnyCall LastWritten s p
      → Safe see_written AnyCall LastWritten s (elim c [ some e ↦ done (err e) | none ↦ p ])
  option-LastWritten none s p safe = safe
  option-LastWritten (some e) s p safe = tt

  create-LastWritten :
      (s : Option String) (fresh : Secret) (r : Result Secret)
      → Safe see_written AnyCall LastWritten s
          (create_mutated k secret (live source) source fresh r)
  create-LastWritten s fresh (err e) = tt
  create-LastWritten s fresh (ok x) =
      Safe-if see_written AnyCall LastWritten s
        (not (x.metadata.namespace == fresh.metadata.namespace)) _ _ tt
        (option-LastWritten (check_can_generate x.metadata) s _
          (tt, elim [ err e ↦ tt | ok made ↦ refl ]))

  patch-LastWritten :
      (s : Option String) (base : Secret) (r : Result Secret)
      → Safe see_written AnyCall LastWritten s (patch_mutated k secret (live source) source base r)
  patch-LastWritten s base (err e) = tt
  patch-LastWritten s base (ok x) =
      Safe-if see_written AnyCall LastWritten s (not (same_key base.metadata x.metadata)) _ _ tt
        (tt, elim [ err e ↦ tt | ok made ↦ refl ])

  generate-LastWritten :
      (s : Option String) (fresh : Secret) (f : Secret → Result Secret) (r : Result Secret)
      → Safe see_written AnyCall LastWritten s
          (generate_or_patch k secret (live source) source fresh f r)
  generate-LastWritten s fresh f (ok base) = patch-LastWritten s base (f base)
  generate-LastWritten s fresh f (err e) =
      Safe-if see_written AnyCall LastWritten s (not (is_not_found (some e))) _ _ tt
        (create-LastWritten s fresh (f fresh))

  prune-Returned :
      (s : Option String) (ta access : Option VolumeAccess)
      → ((written : Option String)
          → Returned ta written (ok (without_secret k local domain access)))
      → Safe see_written AnyCall (Returned ta) s (prune_access k local domain obj access)
  unfolding prune_access
  prune-Returned s ta access h =
      Safe-bind see_written AnyCall Nothing (Returned ta) s
        (controlled_list_single_and_delete k secret local (meta_object volume obj) (live source)
          source (access_options k local domain (some obj.metadata.namespace) obj))
        _ (any-Safe s _) λ s' a h'. h s'

  secret-Returned :
      (s : Option String) (access : VolumeAccess) (name : String) (x : Secret)
      → access.secret_ref ≡ some name
      → Safe see_written AnyCall
          (Returned (some access))
          s
          (apply_access_secret k local domain obj access x)
  unfolding apply_access_secret controlled_list_single_generate_or_patch
      list_single_generate_or_patch
  secret-Returned s access name x named =
      Safe-bind see_written AnyCall LastWritten (Returned (some access)) s
        (controlled_list_single_generate_or_patch k secret local (meta_object volume obj)
          (live source) source (fresh_access_secret k local domain obj)
          (copy_access k local domain obj x) (access_options k local domain none obj))
        _
        (option-LastWritten (check_can_generate (fresh_access_secret k local domain obj).metadata) s
          _
          (Safe-bind see_written AnyCall Nothing LastWritten s
            (list_single k secret (live source) _) _ (any-Safe s _)
            λ s' found h.
              generate-LastWritten s' (fresh_access_secret k local domain obj)
                (controlled_mutate k secret local (meta_object volume obj)
                  (copy_access k local domain obj x))
                found))
        λ s'. elim [
          | err e ↦ λ h. tt
          | ok made ↦ λ h. (refl, refl, rw named (made.metadata.name, h, refl))
        ]

  with_secret-Returned :
      (t : Volume) (access : VolumeAccess) (name : Option String)
      → access.secret_ref ≡ name
      → Safe see_written AnyCall
          (Returned (some access))
          none
          (with_secret k local domain obj t access name)
  with_secret-Returned t access none unnamed =
      prune-Returned none (some access) (some access) λ written. (refl, refl, rw unnamed refl)
  with_secret-Returned t access (some name) named =
      (tt, elim [ err e ↦ tt | ok x ↦ secret-Returned none access name x named ])

  access_of-Returned :
      (t : Volume) (access : Option VolumeAccess)
      → Safe see_written AnyCall
          (Returned access)
          none
          (apply_access_of k local domain obj t access)
  access_of-Returned t none = prune-Returned none none none λ written. refl
  access_of-Returned t (some access) = with_secret-Returned t access access.secret_ref refl

-- In every run of the access applier that returns no error: the access of the volume is absent if
-- the target has none, and otherwise has the target's driver and attributes; it refers to a secret
-- exactly if the target's does, and then to the secret that was written last in the source cluster.
pub apply_access-Returned :
    (k : Machinery) (local : LocalControllers) (domain : String) (obj t : Volume)
    {trace : List Exchange} {result : Result (Option VolumeAccess)}
    → Runs (apply_access k local domain obj t) trace result
    → Returned t.access (after see_written AnyCall none trace) result
unfolding apply_access
apply_access-Returned k local domain obj t run =
    (Accepts-Runs see_written AnyCall (Returned t.access) run none
      (access_of-Returned k local obj domain t t.access)).1
