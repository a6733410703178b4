-- ===== src/Controllers/Common.antt =====
-- What the reconcilers share: their configuration, the request's result, and the finalizer test.
use poollet.Base.{String, Bool, true, false, ◌==◌, ◌||◌, List, [], ◌∷◌, Option, none, some}
use poollet.Base.Dict.{Dict}
use poollet.Errors.{Result, ok, err, Error}
use poollet.Domain.{Domain}
use poollet.Api.Metadata.{Metadata, namespace}
use poollet.Prog.{Prog, done, perform, ObjectKey, ◌>>?◌, provider_target}

-- The requeue flag of a `ctrl.Result`.
abbrev pub ReconcileResult : Type 0
ReconcileResult = Result Bool

abbrev pub no_requeue : ReconcileResult
no_requeue = ok false

abbrev pub requeue : ReconcileResult
requeue = ok true

-- `return ctrl.Result{}, err` where `err` may be nil
abbrev pub returned : Option Error → ReconcileResult
returned none = no_requeue
returned (some e) = err e

-- controllerutil.ContainsFinalizer
abbrev pub contains_finalizer : List String → String → Bool
contains_finalizer [] finalizer = false
contains_finalizer (f ∷ rest) finalizer = f == finalizer || contains_finalizer rest finalizer

-- The fields of the reconcilers that hold names; the target pool is used by those that have one.
pub record Config : Type 0 where
  pub cluster_name : String
  pub pool_name : String
  pub base_domain : Domain
  pub target_pool_name : String
  pub target_pool_labels : Dict String

-- The key of the object of the same name in another namespace.
abbrev pub key_in : String → Metadata → ObjectKey
key_in target_namespace obj = record { namespace = target_namespace; name = obj.name }

-- `ObjectMeta{Namespace: …, Name: …}`: everything else is zero.
abbrev pub target_object : String → String → Metadata
target_object target_namespace name = record {
  name = name;
  namespace = target_namespace;
  generate_name = "";
  uid = "";
  resource_version = "";
  deletion_timestamp = none;
  finalizers = [];
  labels = [];
  annotations = [];
  owner_references = [];
}

-- `Provider.Target` on the namespace of an object, without the test of `TargetNamespaceFor`.
abbrev pub direct_target_namespace : Metadata → Prog (Result String)
direct_target_namespace obj =
    perform (provider_target namespace (record { namespace = ""; name = obj.namespace }))
    >>? λ target_namespace. done (ok target_namespace.metadata.name)
