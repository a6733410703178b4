-- ===== src/Requests/NamespaceCreated.antt =====
-- The handler for created namespaces, together with the namespace controller that creates them.
use poollet.Base.{
  String, Bool, true, false, ◌&&◌, ◌==◌, if◌then◌else◌, ◌≡◌, refl, some, [], eq_refl, not,
}
use poollet.Errors.{ok}
use poollet.Api.Metadata.{Machinery, Metadata, Kind, GroupVersionKind}
use poollet.Multicluster.Meta.Annotation.{IsLossless}
use poollet.Multicluster.OwnerRefs.{set_controller_reference, reference_to}
use poollet.Multicluster.OwnerRefs.Objects.{ParsesPrinted}
use poollet.Handlers.{create}
use poollet.Handlers.BrokerOwner.{controller_of-set_controller_reference}
use poollet.Prog.{Reader, done}
use poollet.Requests.{on_namespace_created, namespace_created, request_all}

both_tests :
    {A : Type 0} (a b : Bool) (x d : A)
    → (if not a then d else if not b then d else x) ≡ (if a && b then x else d)
both_tests true true x d = refl
both_tests true false x d = refl
both_tests false b x d = refl

-- A namespace is created as the target of a source namespace, with that as its controller. If the
-- annotation and printed group versions can be read back, the event of its creation makes the
-- handler of the same cluster list all objects of its type in the source namespace, and request
-- those; if the kind or the group of the controller is another, it requests nothing.
pub on_namespace_created-set_controller_reference :
    (k : Machinery) (reader : Reader) (cluster_name : String) (listed owner_kind : Kind)
    (gvk : GroupVersionKind) (owner child child' : Metadata)
    → IsLossless k
    → ParsesPrinted k
    → k.gvk_for_object owner_kind ≡ ok gvk
    → set_controller_reference k cluster_name
        (record { kind = some owner_kind; metadata = owner })
        child
      ≡ ok child'
    → on_namespace_created k reader cluster_name listed (create child') ≡ (
        if gvk.kind == "Namespace" && gvk.group_version.group == ""
        then request_all reader listed owner.name []
        else done [])
unfolding on_namespace_created namespace_created reference_to
on_namespace_created-set_controller_reference k reader cluster_name listed owner_kind gvk owner
      child child' lossless printed known h =
    let c =
      controller_of-set_controller_reference k lossless cluster_name owner_kind gvk owner child
        child' known h in
    let parsed : k.parse_group_version (k.print_group_version gvk.group_version)
        ≡ ok gvk.group_version =
      printed.parse-print owner_kind known in
    rw (c, parsed, eq_refl cluster_name)
      (both_tests (gvk.kind == "Namespace") (gvk.group_version.group == "")
        (request_all reader listed owner.name []) (done []))
