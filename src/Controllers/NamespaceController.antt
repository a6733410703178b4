-- ===== src/Controllers/NamespaceController.antt =====
-- broker/controllers/core/namespace_controller.go.
pub mod Order
pub mod Protocol
use Prim.Native.String
use Prim.Native.String.{◌++◌}
use poollet.Base.{
  String, Bool, true, false, not, ◌&&◌, ◌==◌, [], ◌∷◌, Option, none, some, if◌then◌else◌,
}
use poollet.Base.Dict.{insert}
use poollet.Errors.{Result, ok, err, wrap, is_not_found, ignore_not_found, new_not_synced}
use poollet.Api.Metadata.{Machinery, Metadata, GroupVersion, namespace}
use poollet.Api.Objects.{Namespace, meta_object}
use poollet.Multicluster.Reference.{OwnerReference}
use poollet.Multicluster.Meta.{get_controller_of}
use poollet.Multicluster.OwnerRefs.{set_controller_reference}
use poollet.Prog.{
  Prog, done, perform, ◌>>=◌, ◌>>?◌, ObjectKey, ListOptions, source, target, cached, live, get,
  create, ensure_finalizer, ensure_no_finalizer, remove_finalizer,
}
use poollet.Domain.{subdomain, slash}
use poollet.Dependents.{Mixin, is_referenced}
use poollet.SingleClient.{broker_controlled_list_single, broker_controlled_list_single_and_delete}
use poollet.Controllers.Common.{
  Config, ReconcileResult, no_requeue, requeue, returned, contains_finalizer, target_object,
}

-- strings.TrimSuffix(name, "-")
unfoldable pub trim_dash : String → String
trim_dash String.[] = ""
trim_dash (String.◌∷◌ c String.[]) = if String.◌∷◌ c "" == "-" then "" else String.◌∷◌ c ""
trim_dash (String.◌∷◌ c (String.◌∷◌ d rest)) = String.◌∷◌ c (trim_dash (String.◌∷◌ d rest))

module _ (k : Machinery) (r : Config) where
  unfoldable pub finalizer : String
  unfolding subdomain slash
  finalizer = slash (subdomain r.base_domain r.pool_name) "namespace"

  unfoldable pub target_source_uid_label : String
  unfolding subdomain slash
  target_source_uid_label = slash (subdomain r.base_domain r.cluster_name) "namespace-source-uid"

  -- The options of the list calls for the target namespace.
  unfoldable pub by_source_uid : Namespace → ListOptions
  unfolding target_source_uid_label
  by_source_uid ns = record {
    namespace = none;
    fields = [];
    labels = (target_source_uid_label, ns.metadata.uid) ∷ [];
  }

  unfoldable pub delete : Namespace → Prog ReconcileResult
  unfolding finalizer broker_controlled_list_single_and_delete by_source_uid
  delete ns =
      if not (contains_finalizer ns.metadata.finalizers finalizer)
      then done no_requeue
      else broker_controlled_list_single_and_delete k namespace r.cluster_name
          (meta_object namespace ns) (live target) target (by_source_uid ns)
        >>= elim [
          | ok _ ↦ done requeue
          | err e ↦
              if not (is_not_found (some e))
              then done (err (wrap "error deleting target" e))
              else perform (remove_finalizer source namespace ns finalizer)
                >>= elim [ err e' ↦ done (err e') | ok _ ↦ done no_requeue ]
        ]

  abbrev core_version : String
  core_version = k.print_group_version (record { group = ""; version = "v1" })

  abbrev name_to_generate : Namespace → Option OwnerReference → String
  name_to_generate ns none = ns.metadata.name
  name_to_generate ns (some ref) =
      if ref.api_version == core_version && ref.kind == "Namespace"
      then ref.name
      else ns.metadata.name

  unfoldable pub get_target_namespace_generate_name : Namespace → String
  unfolding trim_dash get_controller_of
  get_target_namespace_generate_name ns =
      trim_dash (name_to_generate ns (get_controller_of k ns.metadata)) ++ "-"

  -- The new target namespace, without its controller.
  unfoldable pub new_target : Namespace → Metadata
  unfolding get_target_namespace_generate_name target_source_uid_label insert
  new_target ns = record (target_object "" "") {
    generate_name = get_target_namespace_generate_name ns;
    labels = insert target_source_uid_label ns.metadata.uid [];
  }

  -- The part of `reconcile` that creates the target namespace.
  unfoldable pub create_target : Namespace → Prog ReconcileResult
  unfolding new_target set_controller_reference
  create_target ns =
      elim (set_controller_reference k r.cluster_name (meta_object namespace ns) (new_target ns)) [
        | err e ↦ done (err (wrap "error setting broker controller reference" e))
        | ok metadata ↦
            perform (create target namespace (record { metadata = metadata })) >>= elim [
              | err e ↦ done (err (wrap "error creating target namespace" e))
              | ok _ ↦ done no_requeue
            ]
      ]

  -- The part of `reconcile` after the target namespace was not found.
  unfoldable pub reconcile_missing : Mixin → Namespace → Prog ReconcileResult
  unfolding finalizer is_referenced create_target
  reconcile_missing dependents ns = is_referenced dependents (meta_object namespace ns) >>= elim [
    | err e ↦ done (err (wrap "error checking whether namespace is used" e))
    | ok false ↦ perform (ensure_no_finalizer target namespace ns finalizer) >>= elim [
      | err e ↦ done (err (wrap "error ensuring no finalizer is present" e))
      | ok _ ↦ done no_requeue
    ]
    | ok true ↦
        perform (ensure_finalizer source namespace ns finalizer)
        >>= elim [ err e ↦ done (err e) | ok true ↦ done requeue | ok false ↦ create_target ns ]
  ]

  unfoldable pub reconcile : Mixin → Namespace → Prog ReconcileResult
  unfolding finalizer broker_controlled_list_single by_source_uid reconcile_missing
  reconcile dependents ns =
      broker_controlled_list_single k namespace r.cluster_name (meta_object namespace ns)
        (live target) (by_source_uid ns)
      >>= elim [
        | err e ↦
            if not (is_not_found (some e))
            then done (err (wrap "error getting broker controlled target namespace" e))
            else reconcile_missing dependents ns
        | ok _ ↦ perform (ensure_finalizer source namespace ns finalizer) >>= elim [
          | err e ↦ done (err (wrap "error ensuring finalizer" e))
          | ok _ ↦ done no_requeue
        ]
      ]

  unfoldable pub reconcile_exists : Mixin → Namespace → Prog ReconcileResult
  unfolding delete reconcile
  reconcile_exists dependents ns = elim ns.metadata.deletion_timestamp [
    | some _ ↦ delete ns
    | none ↦ reconcile dependents ns
  ]

  -- `Reconcile`, on the key of the request.
  unfoldable pub handle : Mixin → ObjectKey → Prog ReconcileResult
  unfolding reconcile_exists
  handle dependents key = perform (get (cached source) namespace key) >>= elim [
    | err e ↦ done (returned (ignore_not_found (some e)))
    | ok ns ↦ reconcile_exists dependents ns
  ]

  -- `Target`: the namespace in the target cluster, for the key of one in the source cluster.
  unfoldable pub target_for : ObjectKey → Prog (Result Namespace)
  unfolding broker_controlled_list_single by_source_uid
  target_for key = perform (get (cached source) namespace key) >>? λ ns.
      broker_controlled_list_single k namespace r.cluster_name (meta_object namespace ns)
        (live target) (by_source_uid ns)
      >>= elim [
        | ok t ↦ done (ok t)
        | err e ↦
            if not (is_not_found (some e))
            then done (err e)
            else done (err (new_not_synced "namespaces" ns.metadata.name))
      ]
