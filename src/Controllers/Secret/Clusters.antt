-- ===== src/Controllers/Secret/Clusters.antt =====
-- The secret controller with a source and a target cluster of at most one secret each, to which
-- nobody else writes. What the calls answer and change is a parameter; what is documented of the
-- clients and of the API servers is the record IsApi.
pub mod Progress
pub mod Made
pub mod Converge
use poollet.Base.{
  String, Bool, true, false, not, ◌==◌, List, [], ◌∷◌, ◌++◌, Option, none, some, if◌then◌else◌, ◌≡◌,
  refl,
}
use poollet.Errors.{Result, ok, err, not_found}
use poollet.Api.Metadata.{Metadata, Kind, secret, namespace}
use poollet.Api.Objects.{Secret, Namespace}
use poollet.Prog.{
  Op, Reply, Prog, done, call, ◌>>=◌, source, target, cached, live, ObjectKey, get, list, create,
  patch, patch_status, delete, delete_if_exists, create_or_patch, ensure_finalizer,
  ensure_no_finalizer, remove_finalizer, provider_target, event,
}
use poollet.Handlers.{key_eq}
use poollet.Controllers.Common.{contains_finalizer}
use poollet.Controllers.Apply.{key_of}

pub record Clusters : Type 0 where
  pub source_secret : Option Secret
  pub target_secret : Option Secret

abbrev pub found : ObjectKey → Option Secret → Result Secret
found key none = err not_found
found key (some s) = if key_eq key (key_of s.metadata) then ok s else err not_found

abbrev pub exists : ObjectKey → Option Secret → Bool
exists key none = false
exists key (some s) = key_eq key (key_of s.metadata)

abbrev pub unless : Bool → Option Secret → Option Secret
unless true o = none
unless false o = o

-- What a call of `create_or_patch` hands to the mutation: the object that is there, or the given.
abbrev pub found_or : Secret → Result Secret → Secret
found_or fresh (ok s) = s
found_or fresh (err e) = fresh

abbrev pub stored : Result Secret → Result Secret
stored (ok s) = ok (record s { metadata = record s.metadata { resource_version = "1" } })
stored (err e) = err e

abbrev pub applied : Option Secret → Secret → (Secret → Result Secret) → Result Secret
applied o fresh mutate = stored (mutate (found_or fresh (found (key_of fresh.metadata) o)))

abbrev pub or_kept : Option Secret → Result Secret → Option Secret
or_kept o (ok s) = some s
or_kept o (err e) = o

abbrev pub without : String → List String → List String
without finalizer [] = []
without finalizer (f ∷ fs) =
    let rest = without finalizer fs in if f == finalizer then rest else f ∷ rest

abbrev pub with_finalizers : List String → Secret → Secret
with_finalizers finalizers s = record s { metadata = record s.metadata { finalizers = finalizers } }

-- The secret without a finalizer, if it is still there.
abbrev pub released : String → Secret → Option Secret
released finalizer s = elim s.metadata.deletion_timestamp [
  | none ↦ some (with_finalizers (without finalizer s.metadata.finalizers) s)
  | some _ ↦ elim (without finalizer s.metadata.finalizers) [
    | [] ↦ none
    | f ∷ fs ↦ some (with_finalizers (f ∷ fs) s)
  ]
]

-- The secret with a finalizer.
abbrev pub finalized : String → Secret → Secret
finalized finalizer s =
    if contains_finalizer s.metadata.finalizers finalizer
    then s
    else with_finalizers (s.metadata.finalizers ++ finalizer ∷ []) s

-- What a call answers, and what it changes.
pub record Api : Type 0 where
  pub answer : Clusters → (o : Op) → Reply o
  pub write : Clusters → Op → Clusters

module _ (api : Api) where
  abbrev pub exec : {A : Type 0} → Clusters → Prog A → Clusters × A
  exec w (done a) = (w, a)
  exec w (call o k) = exec (api.write w o) (k (api.answer w o))

  pub exec-bind :
      {A B : Type 0} (w : Clusters) (p : Prog A) (f : A → Prog B)
      → exec w (p >>= f) ≡ exec (exec w p).0 (f (exec w p).1)
  exec-bind w (done a) f = refl
  exec-bind w (call o k) f = exec-bind (api.write w o) (k (api.answer w o)) f

-- A deleted target, which has no finalizers, is gone at once. A cluster keeps a deleted object until
-- its last finalizer is removed. The provider has a target for the namespace.
pub record IsApi (api : Api) (target_namespace : Namespace) : Type 0 where
  pub gets :
      (w : Clusters) (key : ObjectKey)
      → api.answer w (get (cached source) secret key) ≡ found key w.source_secret
  pub gets_only :
      (w : Clusters) (key : ObjectKey) → api.write w (get (cached source) secret key) ≡ w
  pub provides :
      (w : Clusters) (key : ObjectKey)
      → api.answer w (provider_target namespace key) ≡ ok target_namespace
  pub provides_only :
      (w : Clusters) (key : ObjectKey) → api.write w (provider_target namespace key) ≡ w
  pub deletes :
      (w : Clusters) (key : ObjectKey)
      → api.answer w (delete_if_exists target secret key) ≡ ok (exists key w.target_secret)
  pub deletes_it :
      (w : Clusters) (key : ObjectKey)
      → api.write w (delete_if_exists target secret key)
        ≡ record w { target_secret = unless (exists key w.target_secret) w.target_secret }
  pub removes :
      (w : Clusters) (s : Secret) (finalizer : String)
      → api.answer w (remove_finalizer source secret s finalizer) ≡ ok tt
  pub removes_it :
      (w : Clusters) (s : Secret) (finalizer : String)
      → api.write w (remove_finalizer source secret s finalizer)
        ≡ record w { source_secret = released finalizer s }
  pub ensures :
      (w : Clusters) (s : Secret) (finalizer : String)
      → api.answer w (ensure_finalizer source secret s finalizer)
        ≡ ok (not (contains_finalizer s.metadata.finalizers finalizer))
  pub ensures_it :
      (w : Clusters) (s : Secret) (finalizer : String)
      → api.write w (ensure_finalizer source secret s finalizer)
        ≡ record w { source_secret = some (finalized finalizer s) }
  pub applies :
      (w : Clusters) (fresh : Secret) (mutate : Secret → Result Secret)
      → api.answer w (create_or_patch target secret fresh mutate)
        ≡ applied w.target_secret fresh mutate
  pub applies_it :
      (w : Clusters) (fresh : Secret) (mutate : Secret → Result Secret)
      → api.write w (create_or_patch target secret fresh mutate) ≡ record w {
        target_secret = or_kept w.target_secret (applied w.target_secret fresh mutate);
      }
