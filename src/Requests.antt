-- ===== src/Requests.antt =====
-- handler/, and the handlers of broker/handler/ and broker/core/handler/ that make their requests
-- from a list call or from a field. A set of requests is the list of its members; what is added to
-- the queue is that list, in no particular order.
pub mod Listed
pub mod NamespaceCreated
use poollet.Base.{
  String, Bool, true, false, not, ◌||◌, ◌&&◌, ◌==◌, List, [], ◌∷◌, Option, none, some,
  if◌then◌else◌,
}
use poollet.Errors.{Result, ok, err, Error}
use poollet.Api.Metadata.{Machinery, Metadata, Kind, GroupVersionKind}
use poollet.Api.Objects.{Obj, metadata_of}
use poollet.Multicluster.Reference.{OwnerReference}
use poollet.Multicluster.Meta.{get_controller_of}
use poollet.Prog.{Prog, done, perform, ◌>>=◌, ObjectKey, Reader, ListOptions, list}
use poollet.Handlers.{
  Event, create, delete, generic, update, insert_request, BrokerOwnerHandler,
  get_owner_reconcile_request,
}
use poollet.Controllers.Apply.{key_of}

abbrev pub RequestSet : Type 0
RequestSet = List ObjectKey

unfoldable pub new_request_set : List ObjectKey → RequestSet
new_request_set [] = []
new_request_set (item ∷ items) = insert_request item (new_request_set items)

unfoldable pub insert_object_request : Metadata → RequestSet → RequestSet
insert_object_request obj reqs = insert_request (key_of obj) reqs

unfoldable pub insert_list_requests : (kind : Kind) → List (Obj kind) → RequestSet → RequestSet
unfolding insert_object_request
insert_list_requests kind [] reqs = reqs
insert_list_requests kind (obj ∷ objs) reqs =
    insert_list_requests kind objs (insert_object_request (metadata_of kind obj) reqs)

-- How the handlers treat an event: the objects of an update one after the other.
unfoldable pub on_event : (Metadata → RequestSet → Prog RequestSet) → Event → Prog RequestSet
on_event handle (create obj) = handle obj []
on_event handle (delete obj) = handle obj []
on_event handle (generic obj) = handle obj []
on_event handle (update old new) = handle old [] >>= handle new

-- The options of a list call by a field, in the namespace of an object and for its name.
abbrev pub by_field : String → Metadata → ListOptions
by_field field obj = record {
  namespace = some obj.namespace;
  fields = (field, obj.name) ∷ [];
  labels = [];
}

-- `EnqueueRequestByFieldReference`: an error is only logged.
unfoldable pub by_field_reference : Reader → Kind → String → Metadata → RequestSet → Prog RequestSet
unfolding insert_list_requests
by_field_reference reader kind field obj reqs =
    perform (list reader kind (by_field field obj))
    >>= elim [ err e ↦ done reqs | ok objs ↦ done (insert_list_requests kind objs reqs) ]

-- `EnqueueRequestForObjectNamespace`
unfoldable pub object_namespace : Metadata → RequestSet → Prog RequestSet
object_namespace obj reqs =
    done (insert_request (record { namespace = ""; name = obj.namespace }) reqs)

-- `EnqueueStaticRequest`, on any event.
unfoldable pub static_request : ObjectKey → Event → RequestSet
static_request request event = request ∷ []

-- The loop of `EnqueueRequestForTypeByDependentFieldReference.handle` over the names.
unfoldable pub insert_names : Bool → Metadata → List String → RequestSet → RequestSet
insert_names namespaced obj [] reqs = reqs
insert_names namespaced obj (name ∷ refs) reqs = insert_names namespaced obj refs (
    insert_request (record { namespace = if namespaced then obj.namespace else ""; name = name })
      reqs)

-- `EnqueueRequestForTypeByDependentFieldReference`: `refs` is what `ExtractField` gives, and
-- `namespaced` whether the mapping's scope is not the root's, or the error of either.
unfoldable pub by_dependent_field_reference :
    Result (List String) → Result Bool → Metadata → RequestSet → RequestSet
unfolding insert_names
by_dependent_field_reference (err e) mapping obj reqs = reqs
by_dependent_field_reference (ok refs) (err e) obj reqs = reqs
by_dependent_field_reference (ok refs) (ok namespaced) obj reqs =
    insert_names namespaced obj refs reqs

abbrev pub in_namespace : String → ListOptions
in_namespace name = record { namespace = some name; fields = []; labels = [] }

-- The list call of `EnqueueRequestForBrokerOwnerOnNamespaceCreated.handle`; after an error the list
-- is empty.
unfoldable pub request_all : Reader → Kind → String → RequestSet → Prog RequestSet
unfolding insert_list_requests
request_all reader kind namespace reqs =
    perform (list reader kind (in_namespace namespace)) >>= elim [
      | err e ↦ done (insert_list_requests kind [] reqs)
      | ok objs ↦ done (insert_list_requests kind objs reqs)
    ]

module _ (k : Machinery) where
  -- The loop of `EnqueueRequestForBrokerOwnerByFieldReference.handle` over the listed objects.
  unfoldable pub insert_owners :
      BrokerOwnerHandler → (kind : Kind) → List (Obj kind) → RequestSet → RequestSet
  unfolding get_owner_reconcile_request
  insert_owners e kind [] reqs = reqs
  insert_owners e kind (obj ∷ objs) reqs =
      insert_owners e kind objs (get_owner_reconcile_request k e (metadata_of kind obj) reqs)

  -- `EnqueueRequestForBrokerOwnerByFieldReference`
  unfoldable pub broker_owner_by_field_reference :
      Reader → BrokerOwnerHandler → Kind → String → Metadata → RequestSet → Prog RequestSet
  unfolding insert_owners
  broker_owner_by_field_reference reader e kind field obj reqs =
      perform (list reader kind (by_field field obj))
      >>= elim [ err _ ↦ done reqs | ok objs ↦ done (insert_owners e kind objs reqs) ]

  -- The part with the controller of the namespace.
  abbrev pub created_with :
      Reader → String → Kind → Option OwnerReference → RequestSet → Prog RequestSet
  created_with reader cluster_name kind none reqs = done reqs
  created_with reader cluster_name kind (some ctrl) reqs =
      if not (ctrl.cluster_name == cluster_name) || not (ctrl.kind == "Namespace")
      then done reqs
      else elim (k.parse_group_version ctrl.api_version) [
        | err e ↦ done reqs
        | ok gv ↦ if not (gv.group == "") then done reqs else request_all reader kind ctrl.name reqs
      ]

  unfoldable pub namespace_created :
      Reader → String → Kind → Metadata → RequestSet → Prog RequestSet
  unfolding get_controller_of request_all
  namespace_created reader cluster_name kind ns reqs =
      created_with reader cluster_name kind (get_controller_of k ns) reqs

  -- Only the creation of a namespace makes requests.
  unfoldable pub on_namespace_created : Reader → String → Kind → Event → Prog RequestSet
  unfolding namespace_created
  on_namespace_created reader cluster_name kind (create ns) =
      namespace_created reader cluster_name kind ns []
  on_namespace_created reader cluster_name kind (update old new) = done []
  on_namespace_created reader cluster_name kind (delete ns) = done []
  on_namespace_created reader cluster_name kind (generic ns) = done []

-- `NameLabelsPredicate`, where `matches` is the selector of a set of labels.
unfoldable pub name_labels_predicate :
    (matches : List (String × String) → List (String × String) → Bool)
    → String
    → List (String × String)
    → Metadata
    → Bool
name_labels_predicate matches expected_name expected_labels obj =
    if not (expected_name == "") && not (obj.name == expected_name)
    then false
    else matches expected_labels obj.labels
