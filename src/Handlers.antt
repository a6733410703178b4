-- ===== src/Handlers.antt =====
-- broker/handler/enqueuerequestforbrokerowner.go and the namespace filter of
-- broker/predicate/predicate.go: which events of an object lead to a reconciliation, and of what.
pub mod BrokerOwner
use poollet.Base.{
  String, Bool, true, false, not, ◌||◌, ◌&&◌, ◌==◌, List, [], ◌∷◌, Option, none, some,
  if◌then◌else◌,
}
use poollet.Errors.{Result, ok, err, Error, message}
use poollet.Api.Metadata.{Machinery, Metadata, Kind, GroupVersionKind, namespace}
use poollet.Api.Objects.{Namespace}
use poollet.Multicluster.Reference.{OwnerReference}
use poollet.Multicluster.Meta.{get_owner_references, get_controller_of}
use poollet.Prog.{Prog, done, perform, ◌>>=◌, ◌>>?◌, ObjectKey, get, cached, source}

abbrev pub key_eq : ObjectKey → ObjectKey → Bool
key_eq a b = a.namespace == b.namespace && a.name == b.name

-- Whether a set of requests, as the list of its members, holds a key.
abbrev pub has_request : List ObjectKey → ObjectKey → Bool
has_request [] key = false
has_request (r ∷ rest) key = key_eq r key || has_request rest key

-- `result[reconcile.Request{…}] = struct{}{}`
abbrev pub insert_request : ObjectKey → List ObjectKey → List ObjectKey
insert_request key requests = if has_request requests key then requests else key ∷ requests

-- `EnqueueRequestForBrokerOwner`, with the group and kind of its owner type.
pub record BrokerOwnerHandler : Type 0 where
  pub cluster_name : String
  pub is_controller : Bool
  pub group : String
  pub kind : String

-- An event with its objects; the old and the new one of an update.
pub data Event : Type 0 where
  create delete generic : Metadata → Event
  update : Metadata → Metadata → Event

module _ (k : Machinery) where
  -- `parseOwnerTypeGroupKind`
  unfoldable pub broker_owner_handler : String → Bool → Kind → Result BrokerOwnerHandler
  broker_owner_handler cluster_name is_controller owner_type = elim (k.gvk_for_object owner_type) [
    | err e ↦ err e
    | ok gvk ↦ ok (record {
      cluster_name = cluster_name;
      is_controller = is_controller;
      group = gvk.group_version.group;
      kind = gvk.kind;
    })
  ]

  abbrev to_list : Option OwnerReference → List OwnerReference
  to_list none = []
  to_list (some ref) = ref ∷ []

  unfoldable pub get_broker_owner_references : BrokerOwnerHandler → Metadata → List OwnerReference
  unfolding get_owner_references get_controller_of
  get_broker_owner_references e obj =
      if not e.is_controller then get_owner_references k obj else to_list (get_controller_of k obj)

  abbrev pub key_of_ref : OwnerReference → ObjectKey
  key_of_ref ref = record { namespace = ref.namespace; name = ref.name }

  -- The loop of `getOwnerReconcileRequest`: it ends at a reference whose API version does not parse.
  unfoldable pub add_requests :
      BrokerOwnerHandler → List OwnerReference → List ObjectKey → List ObjectKey
  add_requests e [] requests = requests
  add_requests e (ref ∷ refs) requests =
      let skipped = add_requests e refs requests in
      let added = add_requests e refs (insert_request (key_of_ref ref) requests) in
      if not (ref.cluster_name == e.cluster_name)
      then skipped
      else elim (k.parse_group_version ref.api_version) [
        | err _ ↦ requests
        | ok gv ↦ if ref.kind == e.kind && gv.group == e.group then added else skipped
      ]

  unfoldable pub get_owner_reconcile_request :
      BrokerOwnerHandler → Metadata → List ObjectKey → List ObjectKey
  unfolding get_broker_owner_references add_requests
  get_owner_reconcile_request e obj requests =
      add_requests e (get_broker_owner_references e obj) requests

  -- The requests that `Create`, `Update`, `Delete` and `Generic` add to the queue.
  unfoldable pub enqueue : BrokerOwnerHandler → Event → List ObjectKey
  unfolding get_owner_reconcile_request
  enqueue e (create obj) = get_owner_reconcile_request e obj []
  enqueue e (delete obj) = get_owner_reconcile_request e obj []
  enqueue e (generic obj) = get_owner_reconcile_request e obj []
  enqueue e (update old new) =
      get_owner_reconcile_request e new (get_owner_reconcile_request e old [])

  -- The test of `FilterNoTargetNamespacePredicate` on the controller of the namespace.
  abbrev pub is_no_target : String → Option OwnerReference → Bool
  is_no_target cluster_name none = true
  is_no_target cluster_name (some ref) =
      not (ref.cluster_name == cluster_name) || not (ref.kind == "Namespace")

  -- `namespaceFrom` for an object that is no namespace itself.
  unfoldable pub namespace_from : Metadata → Prog (Result Namespace)
  namespace_from obj =
      if obj.namespace == ""
      then done (err (message "object does not provide a namespace"))
      else perform (get (cached source) namespace (record { namespace = ""; name = obj.namespace }))

  unfoldable pub filter_namespace : String → Namespace → Bool
  unfolding get_controller_of
  filter_namespace cluster_name ns = is_no_target cluster_name (get_controller_of k ns.metadata)

  unfoldable pub filter : String → Metadata → Prog Bool
  unfolding namespace_from filter_namespace
  filter cluster_name obj =
      namespace_from obj
      >>= elim [ err e ↦ done false | ok ns ↦ done (filter_namespace cluster_name ns) ]
