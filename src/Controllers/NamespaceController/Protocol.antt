-- ===== src/Controllers/NamespaceController/Protocol.antt =====
-- What the namespace controller has seen, and what it may do next.
use poollet.Base.{ℕ, String, Bool, true, false, ◌≡◌, [], ◌∷◌, Option, none, some}
use poollet.Errors.{ok, err, is_not_found}
use poollet.Base.Dict.{Dict}
use poollet.Api.Metadata.{Machinery, Metadata, namespace}
use poollet.Api.Objects.{Namespace, meta_object}
use poollet.Multicluster.Meta.{is_controlled_by}
use poollet.Multicluster.OwnerRefs.{set_controller_reference}
use poollet.Prog.{
  Op, Reply, source, target, live, cached, list, get, create, delete, ensure_finalizer,
  ensure_no_finalizer, remove_finalizer,
}
use poollet.Controllers.Common.{Config, contains_finalizer, target_object}
use poollet.Controllers.NamespaceController.{
  finalizer, target_source_uid_label, get_target_namespace_generate_name,
}
use poollet.Controllers.Apply.{key_of}

-- What the last list of target namespaces has found, whether the last call for the target namespace
-- has said that it is not there, and whether the finalizer is in place.
pub record Seen : Type 0 where
  pub found : Option Namespace
  pub missing : Bool
  pub finalized : Bool

abbrev pub unseen : Seen
unseen = record { found = none; missing = false; finalized = false }

abbrev pub see : Seen → (o : Op) → Reply o → Seen
see s (list (live target) namespace options) (ok []) = record s { found = none; missing = true }
see s (list (live target) namespace options) (ok (n ∷ [])) = record s {
  found = some n;
  missing = false;
}
see s (list (live target) namespace options) (ok (n ∷ n' ∷ ns)) = record s {
  found = none;
  missing = false;
}
see s (list (live target) namespace options) (err e) = record s {
  found = none;
  missing = is_not_found (some e);
}
see s (delete target namespace key) (err e) = record s { missing = is_not_found (some e) }
see s (create target namespace obj) r = record s { missing = false }
see s (ensure_finalizer source namespace obj f) (ok false) = record s { finalized = true }
see s o r = s

module _ (k : Machinery) (r : Config) (ns : Namespace) where
  abbrev pub IsOurs : Namespace → Type 0
  IsOurs n = is_controlled_by k r.cluster_name ns.metadata n.metadata ≡ true

  -- The source is being deleted, and has the finalizer.
  abbrev pub IsDeleting : Type 0
  IsDeleting =
      ((t : ℕ) × (ns.metadata.deletion_timestamp ≡ some t))
      × (contains_finalizer ns.metadata.finalizers (finalizer k r) ≡ true)

  -- The label by which the target of the source is found, and which a new target has.
  abbrev pub source_label : Dict String
  source_label = (target_source_uid_label k r, ns.metadata.uid) ∷ []

  -- A new target namespace that has the label and no other, before its controller is set.
  abbrev pub labelled : Metadata
  labelled = record (target_object "" "") {
    generate_name = get_target_namespace_generate_name k r ns;
    labels = source_label;
  }

  abbrev pub IsFinalizer : Namespace → String → Type 0
  IsFinalizer obj f = (obj ≡ ns) × (f ≡ finalizer k r)

  abbrev pub AllowedNamespace : Seen → Op → Type 0
  AllowedNamespace s (create target namespace obj) =
      (s.missing ≡ true)
      × (s.finalized ≡ true)
      × (set_controller_reference k r.cluster_name (meta_object namespace ns) labelled
          ≡ ok obj.metadata)
  AllowedNamespace s (delete target namespace key) =
      IsDeleting × (n : Namespace) × (s.found ≡ some n) × IsOurs n × (key ≡ key_of n.metadata)
  AllowedNamespace s (remove_finalizer source namespace obj f) =
      IsFinalizer obj f × IsDeleting × (s.missing ≡ true)
  AllowedNamespace s (ensure_no_finalizer target namespace obj f) =
      IsFinalizer obj f × (s.missing ≡ true)
  AllowedNamespace s (ensure_finalizer source namespace obj f) = IsFinalizer obj f
  AllowedNamespace s (list (live target) namespace options) =
      options ≡ record { namespace = none; fields = []; labels = source_label }
  AllowedNamespace s (list (cached target) namespace options) = ⊥
  AllowedNamespace s (list reader kind options) = Unit
  AllowedNamespace s (get reader kind key) = Unit
  AllowedNamespace s _ = ⊥
