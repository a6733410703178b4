-- ===== src/Controllers/AliasPrefix.antt =====
-- broker/controllers/networking/aliasprefix_controller.go.
pub mod Order
use poollet.Base.{
  String, Bool, true, false, not, ◌||◌, ◌==◌, List, [], ◌∷◌, Option, none, some, if◌then◌else◌,
}
use poollet.Errors.{
  Result, ok, err, Error, wrap, ignore_not_synced, ignore_not_found, is_not_found, is_not_synced,
}
use poollet.Api.Metadata.{
  Kind, Machinery, Metadata, alias_prefix, alias_prefix_routing, network, network_interface,
  machine,
}
use poollet.Api.Objects.{AliasPrefix, AliasPrefixRouting, LocalUidReference, Machine}
use poollet.Prog.{
  Prog, done, perform, ◌>>=◌, ◌>>?◌, ObjectKey, source, target, cached, get, delete_if_exists,
  ensure_finalizer, remove_finalizer, event, provider_target,
}
use poollet.Domain.{subdomain, slash}
use poollet.Provider.{target_namespace_for}
use poollet.Sync.{CompositeMutationBuilder, empty_builder, add, set_partial}
use poollet.Helpers.{Shared, machine_runs_in_machine_pool}
use poollet.Usage.{is_alias_prefix_used_cached_or_live}
use poollet.BrokerClient.{broker_controlled_create_or_patch}
use poollet.Controllers.Common.{
  Config, ReconcileResult, no_requeue, requeue, returned, contains_finalizer, key_in, target_object,
}
use poollet.Controllers.AliasPrefixRouting.{apply_target_routing}
use poollet.Controllers.Apply.{target_or_not_synced, key_of, key_beside, with_target, apply_builder}

abbrev pub Builder : Type 0
Builder = CompositeMutationBuilder AliasPrefix

module _ (k : Machinery) (sh : Shared) (r : Config) where
  unfoldable pub finalizer : String
  unfolding subdomain slash
  finalizer = slash (subdomain r.base_domain r.pool_name) "aliasprefix"

  unfoldable pub delete : AliasPrefix → Prog ReconcileResult
  unfolding finalizer target_namespace_for
  delete obj =
      if not (contains_finalizer obj.metadata.finalizers finalizer)
      then done no_requeue
      else target_namespace_for obj.metadata >>= elim [
        | err e ↦ done (returned (ignore_not_synced (some e)))
        | ok target_namespace ↦
            perform (delete_if_exists target alias_prefix (key_in target_namespace obj.metadata))
            >>= elim [
              | err e ↦ done (err (wrap "error deleting target" e))
              | ok true ↦ done requeue
              | ok false ↦ perform (remove_finalizer source alias_prefix obj finalizer) >>= elim [
                | err e ↦ done (err (wrap "error removing finalizer" e))
                | ok _ ↦ done no_requeue
              ]
            ]
      ]

  abbrev set_prefix : String → AliasPrefix → AliasPrefix
  set_prefix prefix t = record t { prefix_value = some prefix; network_interface_selector = none }

  unfoldable pub register_default_mutation : AliasPrefix → Builder → Result Builder
  unfolding add set_partial
  register_default_mutation obj b = elim obj.status_prefix [
    | none ↦ ok (set_partial b)
    | some prefix ↦ ok (add (set_prefix prefix) b)
  ]

  abbrev set_network_ref : String → AliasPrefix → AliasPrefix
  set_network_ref name t = record t { network_ref = name }

  unfoldable pub register_network_ref_mutation : AliasPrefix → Builder → Prog (Result Builder)
  unfolding add set_partial with_target
  register_network_ref_mutation obj b =
      with_target network (key_beside obj.metadata obj.network_ref) "error getting network target"
        (perform (event alias_prefix (key_of obj.metadata) "FailedApplyingAliasPrefix"))
        (set_partial b) λ n. add (set_network_ref n.metadata.name) b

  abbrev pub fresh_target : String → AliasPrefix → AliasPrefix
  fresh_target target_namespace obj = record {
    metadata = target_object target_namespace obj.metadata.name;
    network_ref = "";
    prefix_value = none;
    network_interface_selector = none;
    status_prefix = none;
  }

  -- The source object is what `applyTarget` returns once the target is applied.
  abbrev pub or_source :
      AliasPrefix → Result (Option AliasPrefix × Bool) → Result (Option AliasPrefix × Bool)
  or_source obj (err e) = err e
  or_source obj (ok (none, partial)) = ok (none, partial)
  or_source obj (ok (some t, partial)) = ok (some obj, partial)

  unfoldable pub register_all : AliasPrefix → Prog (Result Builder)
  unfolding register_default_mutation register_network_ref_mutation
  register_all obj =
      done (register_default_mutation obj empty_builder) >>? register_network_ref_mutation obj

  unfoldable pub apply_target : AliasPrefix → String → Prog (Result (Option AliasPrefix × Bool))
  unfolding register_all
  apply_target obj target_namespace =
      (register_all obj
        >>? apply_builder k r.cluster_name alias_prefix alias_prefix obj
            (fresh_target target_namespace obj))
      >>= λ res. done (or_source obj res)

  -- The rest of a reconciliation, once the target is applied or cannot be yet.
  unfoldable pub finish : AliasPrefix → Result (Option AliasPrefix × Bool) → Prog ReconcileResult
  unfolding apply_target_routing
  finish obj (err e) = done (err e)
  finish obj (ok (none, partial)) = done (ok partial)
  finish obj (ok (some t, partial)) =
      apply_target_routing k r obj t >>= elim [ err e ↦ done (err e) | ok _ ↦ done (ok partial) ]

  unfoldable pub reconcile : AliasPrefix → Prog ReconcileResult
  unfolding finalizer target_namespace_for apply_target finish
  reconcile obj = target_namespace_for obj.metadata >>= elim [
    | err e ↦ done (returned (ignore_not_synced (some e)))
    | ok target_namespace ↦ perform (ensure_finalizer source alias_prefix obj finalizer) >>= elim [
      | err e ↦ done (err e)
      | ok true ↦ done no_requeue
      | ok false ↦ apply_target obj target_namespace >>= finish obj
    ]
  ]

  unfoldable pub reconcile_exists : AliasPrefix → Prog ReconcileResult
  unfolding delete reconcile is_alias_prefix_used_cached_or_live
  reconcile_exists obj = elim obj.metadata.deletion_timestamp [
    | some _ ↦ delete obj
    | none ↦
        is_alias_prefix_used_cached_or_live sh r.pool_name obj
        >>= elim [ err e ↦ done (err e) | ok false ↦ delete obj | ok true ↦ reconcile obj ]
  ]

  -- `Reconcile`, on the key of the request.
  unfoldable pub handle : ObjectKey → Prog ReconcileResult
  unfolding reconcile_exists
  handle key = perform (get (cached source) alias_prefix key) >>= elim [
    | err e ↦ done (returned (ignore_not_found (some e)))
    | ok obj ↦ reconcile_exists obj
  ]

  -- `Target`: the alias prefix in the target cluster, for the key of one in the source cluster.
  unfoldable pub target_for : ObjectKey → Prog (Result AliasPrefix)
  unfolding target_namespace_for
  target_for key = perform (get (cached source) alias_prefix key) >>? λ obj.
      target_namespace_for obj.metadata >>? λ target_namespace.
      target_or_not_synced alias_prefix "aliasprefixes" (key_in target_namespace obj.metadata)
        obj.metadata.name
