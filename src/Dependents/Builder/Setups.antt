-- ===== src/Dependents/Builder/Setups.antt =====
-- api/compute/dependent/dependent.go and api/storage/dependent/dependent.go: the dependents of
-- secrets, config maps and namespaces. The extractors of the field indexes are those of
-- api/compute/index/index.go and api/storage/index/index.go; the event filters are only handed on.
use poollet.Base.{String, List, [], ◌∷◌}
use poollet.Errors.{Result, ok}
use poollet.Api.Metadata.{secret, config_map, machine, volume}
use poollet.Api.Objects.{Machine, Volume}
use poollet.Prog.{done}
use poollet.Helpers.{
  Shared, machine_runs_in_machine_pool, machine_spec_secret_names, machine_spec_config_map_names,
  volume_runs_in_volume_pool, volume_spec_secret_names,
}
use poollet.Usage.{
  is_volume_used_by_machine_in_machine_pool_cached, is_volume_used_by_machine_in_machine_pool_live,
}
use poollet.Dependents.{Mixin}
use poollet.Dependents.Listing.{ListPredicate, matching_fields}
use poollet.Dependents.Builder.{
  Built, build, new_dependent_for, referent, referenced, field_reference, namespace_reference,
  with_cached_client_list_options, with_cached_list_predicates, with_live_list_predicates,
  with_list_predicates,
}

abbrev pub machine_spec_secret_names_field : String
machine_spec_secret_names_field = "machine-spec-secret-names"

abbrev pub machine_spec_config_map_names_field : String
machine_spec_config_map_names_field = "machine-spec-configmap-names"

abbrev pub machine_spec_machine_pool_ref_name : String
machine_spec_machine_pool_ref_name = ".spec.machinePoolRef.name"

abbrev pub volume_spec_secret_names_field : String
volume_spec_secret_names_field = "volume-spec-secret-names"

abbrev pub volume_spec_volume_pool_ref_name : String
volume_spec_volume_pool_ref_name = ".spec.volumePoolRef.name"

-- An object without names is indexed by the empty one.
abbrev pub names_or_empty : List String → List String
names_or_empty [] = "" ∷ []
names_or_empty (name ∷ names) = name ∷ names

unfoldable pub extract_machine_secret_names : Machine → List String
unfolding machine_spec_secret_names
extract_machine_secret_names obj = names_or_empty (machine_spec_secret_names obj)

unfoldable pub extract_machine_config_map_names : Machine → List String
unfolding machine_spec_config_map_names
extract_machine_config_map_names obj = names_or_empty (machine_spec_config_map_names obj)

unfoldable pub extract_volume_spec_secret_names : Volume → List String
unfolding volume_spec_secret_names
extract_volume_spec_secret_names obj = names_or_empty (volume_spec_secret_names obj)

unfoldable pub machine_machine_pool_predicate : String → ListPredicate machine
machine_machine_pool_predicate pool_name referenced obj =
    done (ok (machine_runs_in_machine_pool obj pool_name))

unfoldable pub volume_runs_in_volume_pool_predicate : String → ListPredicate volume
volume_runs_in_volume_pool_predicate pool_name referenced obj =
    done (ok (volume_runs_in_volume_pool obj pool_name))

unfoldable pub setup_machine_to_namespace : Mixin → String → Result (Built machine)
unfolding build new_dependent_for referent namespace_reference with_cached_client_list_options
    with_live_list_predicates
setup_machine_to_namespace dependents pool_name = build machine (
    namespace_reference machine
      (with_cached_client_list_options machine
          (matching_fields ((machine_spec_machine_pool_ref_name, pool_name) ∷ []) ∷ [])
        ∷ with_live_list_predicates machine (machine_machine_pool_predicate pool_name ∷ [])
        ∷ [])
      (referent machine (new_dependent_for machine dependents)))

unfoldable pub setup_machine_to_config_map : Mixin → String → Result (Built machine)
unfolding build new_dependent_for referent referenced field_reference with_list_predicates
setup_machine_to_config_map dependents pool_name = build machine (
    field_reference machine machine_spec_config_map_names_field extract_machine_config_map_names
      (with_list_predicates machine (machine_machine_pool_predicate pool_name ∷ []) ∷ [])
      (referenced machine config_map (referent machine (new_dependent_for machine dependents))))

unfoldable pub setup_machine_to_secret : Mixin → String → Result (Built machine)
unfolding build new_dependent_for referent referenced field_reference with_list_predicates
setup_machine_to_secret dependents pool_name = build machine (
    field_reference machine machine_spec_secret_names_field extract_machine_secret_names
      (with_list_predicates machine (machine_machine_pool_predicate pool_name ∷ []) ∷ [])
      (referenced machine secret (referent machine (new_dependent_for machine dependents))))

unfoldable pub setup_volume_to_secret : Mixin → String → Result (Built volume)
unfolding build new_dependent_for referent referenced field_reference
    with_cached_client_list_options with_live_list_predicates
setup_volume_to_secret dependents pool_name = build volume (
    field_reference volume volume_spec_secret_names_field extract_volume_spec_secret_names
      (with_cached_client_list_options volume
          (matching_fields ((volume_spec_volume_pool_ref_name, pool_name) ∷ []) ∷ [])
        ∷ with_live_list_predicates volume (volume_runs_in_volume_pool_predicate pool_name ∷ [])
        ∷ [])
      (referenced volume secret (referent volume (new_dependent_for volume dependents))))

unfoldable pub setup_volume_to_namespace : Mixin → String → Result (Built volume)
unfolding build new_dependent_for referent namespace_reference with_cached_client_list_options
    with_live_list_predicates
setup_volume_to_namespace dependents pool_name = build volume (
    namespace_reference volume
      (with_cached_client_list_options volume
          (matching_fields ((volume_spec_volume_pool_ref_name, pool_name) ∷ []) ∷ [])
        ∷ with_live_list_predicates volume (volume_runs_in_volume_pool_predicate pool_name ∷ [])
        ∷ [])
      (referent volume (new_dependent_for volume dependents)))

module _ (sh : Shared) where
  unfoldable pub volume_used_by_machine_in_machine_pool_cached_predicate :
      String → ListPredicate volume
  volume_used_by_machine_in_machine_pool_cached_predicate pool_name referenced obj =
      is_volume_used_by_machine_in_machine_pool_cached sh pool_name obj

  unfoldable pub volume_used_by_machine_in_machine_pool_live_predicate :
      String → ListPredicate volume
  volume_used_by_machine_in_machine_pool_live_predicate pool_name referenced obj =
      is_volume_used_by_machine_in_machine_pool_live sh pool_name obj

  unfoldable pub setup_machine_volume_to_secret : Mixin → String → Result (Built volume)
  unfolding build new_dependent_for referent referenced field_reference with_cached_list_predicates
      with_live_list_predicates
  setup_machine_volume_to_secret dependents pool_name = build volume (
      field_reference volume volume_spec_secret_names_field extract_volume_spec_secret_names
        (with_cached_list_predicates volume
            (volume_used_by_machine_in_machine_pool_cached_predicate pool_name ∷ [])
          ∷ with_live_list_predicates volume
              (volume_used_by_machine_in_machine_pool_live_predicate pool_name ∷ [])
          ∷ [])
        (referenced volume secret (referent volume (new_dependent_for volume dependents))))
