-- ===== src/Protocol.antt =====
-- The order in which a sync controller may touch the two clusters, as an automaton over the calls
-- of a handler and their replies.
pub mod Reads
pub mod Quiet
use poollet.Base.{String, Bool, true, false, ◌≡◌, Option, none, some, List}
use poollet.Errors.{Result, ok, err}
use poollet.Api.Metadata.{Kind, Metadata, namespace}
use poollet.Api.Objects.{Obj, metadata_of}
use poollet.Prog.{
  Prog, Op, Reply, Side, source, target, ObjectKey, get, list, create, patch, patch_status, delete,
  delete_if_exists, create_or_patch, ensure_finalizer, ensure_no_finalizer, remove_finalizer,
  provider_target, event,
}
use poollet.Controllers.Common.{contains_finalizer}
use poollet.Prog.Trace.{Exchange, Accepts, Safe, Runs, Accepts-Runs}

-- An object together with its kind.
pub record Item : Type 0 where
  pub kind : Kind
  pub obj : Obj kind

abbrev pub item : (kind : Kind) → Obj kind → Item
item kind obj = record { kind = kind; obj = obj }

-- What a handler has learned: the target namespace, that its finalizer is in place, the target that
-- the target cluster has said not to exist, and the object that was written there last.
pub record Progress : Type 0 where
  pub target_namespace : Option String
  pub finalized : Bool
  pub gone : Option ObjectKey
  pub written : Option Item

abbrev pub start : Progress
start = record { target_namespace = none; finalized = false; gone = none; written = none }

-- A reply of the provider for a namespace names the target namespace. A finalizer is in place once
-- a patch that ensures it has changed nothing. Any write to the target cluster makes old news of
-- what was said to be gone.
abbrev pub advance : Progress → (o : Op) → Reply o → Progress
advance s (provider_target namespace key) (ok ns) = record s {
  target_namespace = some ns.metadata.name;
}
advance s (ensure_finalizer source kind obj finalizer) (ok false) = record s { finalized = true }
advance s (delete_if_exists target kind key) (ok false) = record s { gone = some key }
advance s (create target kind obj) r = record s { gone = none }
advance s (create_or_patch target kind obj mutate) (ok t) = record s {
  gone = none;
  written = some (item kind t);
}
advance s (create_or_patch target kind obj mutate) (err e) = record s { gone = none }
advance s o r = s

-- The object that is synced, the controller's finalizer, and the objects to which the status of the
-- source may be patched, for the object that was written last.
pub record Subject : Type 1 where
  pub kind : Kind
  pub obj : Obj kind
  pub finalizer : String
  pub IsPatch : Option Item → (k : Kind) → Obj k → Type 0

-- A subject whose status is left alone.
abbrev pub Unpatched : Option Item → (k : Kind) → Obj k → Type 0
Unpatched written k obj = ⊥

-- The target namespace is asked for by the namespace of the source.
abbrev pub Asks : Metadata → Kind → ObjectKey → Type 0
Asks m namespace key = key ≡ record { namespace = ""; name = m.namespace }
Asks m kind key = Unit

module _ (x : Subject) where
  -- The key is that of the target: the object's own name in the target namespace.
  abbrev pub IsTargetKey : Progress → ObjectKey → Type 0
  IsTargetKey s key =
      (s.target_namespace ≡ some key.namespace) × (key.name ≡ (metadata_of x.kind x.obj).name)

  abbrev pub IsSubject : (k : Kind) → Obj k → Type 0
  IsSubject k obj = item k obj ≡ item x.kind x.obj

  -- The target is deleted only for a source that has the finalizer, and written only once the
  -- finalizer is in place. The finalizers, and where it may be patched the status, are the source's.
  abbrev pub Allowed : Progress → Op → Type 0
  Allowed s (delete_if_exists target k key) =
      (k ≡ x.kind)
      × IsTargetKey s key
      × (contains_finalizer (metadata_of x.kind x.obj).finalizers x.finalizer ≡ true)
  Allowed s (create_or_patch target k obj mutate) =
      (k ≡ x.kind)
      × (s.finalized ≡ true)
      × (s.target_namespace ≡ some (metadata_of k obj).namespace)
      × ((metadata_of k obj).name ≡ (metadata_of x.kind x.obj).name)
  Allowed s (remove_finalizer source k obj finalizer) =
      IsSubject k obj
      × (finalizer ≡ x.finalizer)
      × (key : ObjectKey) × (s.gone ≡ some key)
      × IsTargetKey s key
  Allowed s (ensure_finalizer source k obj finalizer) = IsSubject k obj × (finalizer ≡ x.finalizer)
  Allowed s (patch_status source k base obj) =
      IsSubject k base × (s.finalized ≡ true) × x.IsPatch s.written k obj
  Allowed s (get reader k key) = Unit
  Allowed s (list reader k options) = Unit
  Allowed s (provider_target k key) = Asks (metadata_of x.kind x.obj) k key
  Allowed s (event k key text) = Unit
  Allowed s _ = ⊥
