-- ===== src/Dependents/Builder.antt =====
-- broker/dependents/builder/dependent.go: building the two referencers and the handler of a
-- dependent. The list inputs of a field and of a namespace reference have the same fields. Event
-- filters are only handed on, so they are left out.
pub mod Setups
pub mod World
use poollet.Base.{
  String, Bool, true, false, not, List, [], ◌∷◌, ◌++◌, Option, none, some, if◌then◌else◌,
}
use poollet.Errors.{Result, ok, err, Error, message, ◌>>=◌}
use poollet.Api.Metadata.{Kind}
use poollet.Api.Objects.{Obj}
use poollet.Dependents.{Referencer, Dependent, Mixin, add_dependent}
use poollet.Dependents.Listing.{
  ListOption, ListPredicate, ListReferencer, ClientListOption, client_list_options,
  field_list_options, in_referenced_namespace_name_namespace, field_indexer_func_predicate,
  references,
}

-- The handler of the events of referents.
pub data DependentHandler : Type 0 where
  by_dependent_field : Option Kind → String → DependentHandler
  object_namespace : DependentHandler

module _ (kind : Kind) where
  pub record ListInputs : Type 0 where
    pub cached_list_options : List ListOption
    pub cached_list_predicates : List (ListPredicate kind)
    pub live_list_options : List ListOption
    pub live_list_predicates : List (ListPredicate kind)
    pub global_list_options : List ListOption
    pub global_list_predicates : List (ListPredicate kind)

  abbrev pub no_inputs : ListInputs
  no_inputs = record {
    cached_list_options = [];
    cached_list_predicates = [];
    live_list_options = [];
    live_list_predicates = [];
    global_list_options = [];
    global_list_predicates = [];
  }

  -- `FieldReferenceOption` and `NamespaceReferenceOption`.
  abbrev pub ReferenceOption : Type 0
  ReferenceOption = ListInputs → ListInputs

  unfoldable pub with_cached_list_options : List ListOption → ReferenceOption
  with_cached_list_options opts o = record o { cached_list_options = opts }

  unfoldable pub with_cached_client_list_options : List ClientListOption → ReferenceOption
  unfolding with_cached_list_options client_list_options
  with_cached_client_list_options opts = with_cached_list_options (client_list_options opts ∷ [])

  unfoldable pub with_cached_list_predicates : List (ListPredicate kind) → ReferenceOption
  with_cached_list_predicates predicates o = record o { cached_list_predicates = predicates }

  unfoldable pub with_live_list_options : List ListOption → ReferenceOption
  with_live_list_options opts o = record o { live_list_options = opts }

  unfoldable pub with_live_client_list_options : List ClientListOption → ReferenceOption
  unfolding with_live_list_options client_list_options
  with_live_client_list_options opts = with_live_list_options (client_list_options opts ∷ [])

  unfoldable pub with_live_list_predicates : List (ListPredicate kind) → ReferenceOption
  with_live_list_predicates predicates o = record o { live_list_predicates = predicates }

  unfoldable pub with_list_options : List ListOption → ReferenceOption
  with_list_options opts o = record o { global_list_options = opts }

  unfoldable pub with_client_list_options : List ClientListOption → ReferenceOption
  unfolding with_list_options client_list_options
  with_client_list_options opts = with_list_options (client_list_options opts ∷ [])

  unfoldable pub with_list_predicates : List (ListPredicate kind) → ReferenceOption
  with_list_predicates predicates o = record o { global_list_predicates = predicates }

  pub record FieldReferenceInput : Type 0 where
    pub field : String
    pub indexer_func : Obj kind → List String
    pub inputs : ListInputs

  -- The builder `Dependent`, where `has_referent` says that the type of the referent was set.
  pub record DependentBuilder : Type 0 where
    pub dependents : Mixin
    pub has_referent : Bool
    pub referenced_type : Option Kind
    pub field_reference_input : Option FieldReferenceInput
    pub namespace_reference_input : Option ListInputs

  unfoldable pub new_dependent_for : Mixin → DependentBuilder
  new_dependent_for dependents = record {
    dependents = dependents;
    has_referent = false;
    referenced_type = none;
    field_reference_input = none;
    namespace_reference_input = none;
  }

  unfoldable pub referent : DependentBuilder → DependentBuilder
  referent d = record d { has_referent = true }

  unfoldable pub referenced : Kind → DependentBuilder → DependentBuilder
  referenced referenced_type d = record d { referenced_type = some referenced_type }

  -- The loop over the options.
  unfoldable pub apply_all : List ReferenceOption → ListInputs → ListInputs
  apply_all [] input = input
  apply_all (opt ∷ opts) input = apply_all opts (opt input)

  unfoldable pub field_reference :
      String → (Obj kind → List String) → List ReferenceOption → DependentBuilder → DependentBuilder
  unfolding apply_all
  field_reference field indexer_func opts d = record d {
    field_reference_input =
        some (record {
          field = field;
          indexer_func = indexer_func;
          inputs = apply_all opts no_inputs;
        });
  }

  unfoldable pub namespace_reference : List ReferenceOption → DependentBuilder → DependentBuilder
  unfolding apply_all
  namespace_reference opts d = record d {
    namespace_reference_input = some (apply_all opts no_inputs);
  }

  abbrev pub must_specify : Error
  must_specify = message "must specify one of: FieldReference, NamespaceReference"

  -- The branches of the switches: the field reference, the namespace reference, or neither.
  abbrev pub switch :
      {A : Type 0}
      → Option FieldReferenceInput
      → Option ListInputs
      → (FieldReferenceInput → A)
      → (ListInputs → A)
      → Result A
  switch (some f) n on_field on_namespace = ok (on_field f)
  switch none (some n) on_field on_namespace = ok (on_namespace n)
  switch none none on_field on_namespace = err must_specify

  unfoldable pub cached_referencer : DependentBuilder → Result (ListReferencer kind)
  unfolding field_list_options in_referenced_namespace_name_namespace
  cached_referencer d =
      switch d.field_reference_input d.namespace_reference_input
        (λ f. record {
          options =
              f.inputs.global_list_options
              ++ (f.inputs.cached_list_options ++ field_list_options f.field ∷ []);
          predicates = f.inputs.global_list_predicates ++ f.inputs.cached_list_predicates;
          is_live = false;
        })
        λ n. record {
          options =
              n.global_list_options
              ++ (n.cached_list_options ++ in_referenced_namespace_name_namespace ∷ []);
          predicates = n.global_list_predicates ++ n.cached_list_predicates;
          is_live = false;
        }

  -- For a namespace reference it is not live, and has the cached predicates.
  unfoldable pub live_referencer : DependentBuilder → Result (ListReferencer kind)
  unfolding field_indexer_func_predicate in_referenced_namespace_name_namespace
  live_referencer d =
      switch d.field_reference_input d.namespace_reference_input
        (λ f. record {
          options = f.inputs.global_list_options ++ f.inputs.live_list_options;
          predicates =
              f.inputs.global_list_predicates
              ++ (f.inputs.live_list_predicates
                  ++ field_indexer_func_predicate kind f.indexer_func ∷ []);
          is_live = true;
        })
        λ n. record {
          options =
              n.global_list_options
              ++ (n.live_list_options ++ in_referenced_namespace_name_namespace ∷ []);
          predicates = n.global_list_predicates ++ n.cached_list_predicates;
          is_live = false;
        }

  unfoldable pub handler : DependentBuilder → Result DependentHandler
  handler d =
      switch d.field_reference_input d.namespace_reference_input
        (λ f. by_dependent_field d.referenced_type f.field) λ n. object_namespace

  -- What `Build` returns, and the dependents that it has added to.
  pub record Built : Type 0 where
    pub dependent : Dependent
    pub handler : DependentHandler
    pub dependents : Mixin

  unfoldable pub build : DependentBuilder → Result Built
  unfolding cached_referencer live_referencer handler add_dependent references
  build d =
      if not d.has_referent
      then err (message "must specify Referent")
      else cached_referencer d >>= λ c. live_referencer d >>= λ l. handler d >>= λ h.
          let dependent : Dependent = record {
            cached_referencer = references kind c;
            live_referencer = references kind l;
          } in
          ok (record {
            dependent = dependent;
            handler = h;
            dependents = add_dependent dependent d.dependents;
          })
