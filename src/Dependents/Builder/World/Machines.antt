-- ===== src/Dependents/Builder/World/Machines.antt =====
-- SetupMachineToSecret and SetupMachineToNamespace of api/compute/dependent/dependent.go in a world
-- of machines.
use poollet.Base.{
  String, Bool, true, false, ◌==◌, ◌&&◌, ◌||◌, List, [], ◌∷◌, ◌≡◌, refl, arith, ◌∙◌, ap, none,
}
use poollet.Errors.{Result, ok, err, ◌>>=◌}
use poollet.Api.Metadata.{machine, MetaObject}
use poollet.Api.Objects.{Machine}
use poollet.Helpers.{has_name, machine_spec_secret_names}
use poollet.Prog.{Op, Reply, Prog, done}
use poollet.Prog.{◌>>=◌ as ◌>>>◌}
use poollet.Dependents.{or_else, is_referenced, is_referenced_cached, is_referenced_live}
use poollet.Dependents.Builder.{
  Built, apply_all, with_list_predicates, with_live_list_predicates,
  with_cached_client_list_options,
}
use poollet.Dependents.Builder.Setups.{
  setup_machine_to_namespace, setup_machine_to_secret, machine_machine_pool_predicate,
  extract_machine_secret_names,
}
use poollet.Dependents.Listing.{
  in_referenced_namespace_name_namespace, filtered, field_indexer_func_predicate, all_options,
  field_list_options,
}
use poollet.Dependents.Builder.World.{eval, eval-bind, any, IsWorldOf, uses, pool_or_empty}
use poollet.Dependents.Builder.World.Answers.{
  any-filter, in_pool, names_secret, filtered-answer, any-ext, any-or, any-either,
  is_nonempty-filter, pool-answer, pool_and_name-answer, has_name-names_or_empty,
}

or_false-answer :
    (answer : (o : Op) → Reply o) (b : Bool) → eval answer (or_else (done (ok false)) (ok b)) ≡ ok b
or_false-answer answer true = refl
or_false-answer answer false = refl

or_else-answer :
    (answer : (o : Op) → Reply o) (rest : Prog (Result Bool)) (a b : Bool)
    → eval answer rest ≡ ok b
    → eval answer (or_else rest (ok a)) ≡ ok (a || b)
or_else-answer answer rest true b h = refl
or_else-answer answer rest false b h = h

either :
    (answer : (o : Op) → Reply o) (first rest : Prog (Result Bool)) (a b : Bool)
    → eval answer first ≡ ok a
    → eval answer rest ≡ ok b
    → eval answer (first >>> or_else rest) ≡ ok (a || b)
either answer first rest a b hf hr =
    rw (eval-bind answer first (or_else rest), hf) (or_else-answer answer rest a b hr)

combined :
    (answer : (o : Op) → Reply o) (r : Result (Built machine)) (a c : Bool) (obj : MetaObject)
    → (r >>= λ b. eval answer (is_referenced_cached b.dependents obj)) ≡ ok a
    → (r >>= λ b. eval answer (is_referenced_live b.dependents obj)) ≡ ok c
    → (r >>= λ b. eval answer (is_referenced b.dependents obj)) ≡ ok (a || c)
unfolding is_referenced
combined answer (err e) a c obj hc hl = cc
combined answer (ok b) a c obj hc hl =
    either answer (is_referenced_cached b.dependents obj) (is_referenced_live b.dependents obj) a c
      hc hl

module _ (answer : (o : Op) → Reply o) (machines : List Machine) (world : IsWorldOf answer machines)
    (pool_name : String) (obj : MetaObject) (named : (obj.metadata.name == "") ≡ false) where
  cached_test :
      (m : Machine)
      → ((m.metadata.namespace == obj.metadata.namespace)
          && ((names_secret answer pool_name obj m && true) && true)
          && in_pool answer pool_name obj m)
        ≡ ((m.metadata.namespace == obj.metadata.namespace) && uses pool_name obj.metadata.name m)
  unfolding extract_machine_secret_names
  cached_test m =
      rw (has_name-names_or_empty (machine_spec_secret_names m) obj.metadata.name named)
        (ground arith)

  -- By the cache, a secret is referenced exactly when some machine in its namespace runs in the pool
  -- and names it.
  pub is_referenced_cached-setup_machine_to_secret :
      (setup_machine_to_secret [] pool_name >>= λ b.
      eval answer (is_referenced_cached b.dependents obj))
      ≡ ok (
          any
            (λ m.
              (m.metadata.namespace == obj.metadata.namespace)
              && uses pool_name obj.metadata.name m)
            machines)
  unfolding setup_machine_to_secret is_referenced_cached apply_all with_list_predicates all_options
      field_list_options
  is_referenced_cached-setup_machine_to_secret =
      rw
        (
          world.lists_cached _,
          eval-bind answer (filtered machine _ obj _) _,
          filtered-answer answer pool_name obj _ [] (in_pool answer pool_name obj) _
              (pool-answer answer pool_name obj),
          any-filter (in_pool answer pool_name obj) _ machines,
        )
        (or_false-answer answer (any _ machines) ∙ ap ok (any-ext _ _ machines cached_test))

  live_test :
      (m : Machine)
      → (in_pool answer pool_name obj m && names_secret answer pool_name obj m)
        ≡ uses pool_name obj.metadata.name m
  unfolding extract_machine_secret_names
  live_test m =
      rw (has_name-names_or_empty (machine_spec_secret_names m) obj.metadata.name named) refl

  live :
      (setup_machine_to_secret [] pool_name >>= λ b.
      eval answer (is_referenced_live b.dependents obj))
      ≡ ok (any (uses pool_name obj.metadata.name) machines)
  unfolding setup_machine_to_secret is_referenced_live apply_all with_list_predicates all_options
  live =
      rw
        (
          world.lists_live none,
          eval-bind answer (filtered machine _ obj _) _,
          filtered-answer answer pool_name obj (machine_machine_pool_predicate pool_name)
              (field_indexer_func_predicate machine extract_machine_secret_names ∷ [])
              (λ m. in_pool answer pool_name obj m && names_secret answer pool_name obj m) _
              (pool_and_name-answer answer pool_name obj),
          any-filter (λ m. in_pool answer pool_name obj m && names_secret answer pool_name obj m) _
              machines,
        )
        (or_false-answer answer (any _ machines) ∙ ap ok (any-ext _ _ machines live_test))

  -- The whole answer is whether some machine of any namespace runs in the pool and names a secret of
  -- this name.
  pub is_referenced-setup_machine_to_secret :
      (setup_machine_to_secret [] pool_name >>= λ b. eval answer (is_referenced b.dependents obj))
      ≡ ok (any (uses pool_name obj.metadata.name) machines)
  is_referenced-setup_machine_to_secret =
      combined answer (setup_machine_to_secret [] pool_name) _ _ obj
        is_referenced_cached-setup_machine_to_secret live
      ∙ ap ok (
          any-or (λ m. m.metadata.namespace == obj.metadata.namespace)
            (uses pool_name obj.metadata.name) machines)

module _ (answer : (o : Op) → Reply o) (machines : List Machine) (world : IsWorldOf answer machines)
    (pool_name : String) (obj : MetaObject) where
  abbrev in_it : Machine → Bool
  in_it m = m.metadata.namespace == obj.metadata.name

  abbrev indexed_in_pool : Machine → Bool
  indexed_in_pool m = (has_name (pool_or_empty m.machine_pool_ref ∷ []) pool_name && true) && true

  namespace_cached :
      (setup_machine_to_namespace [] pool_name >>= λ b.
      eval answer (is_referenced_cached b.dependents obj))
      ≡ ok (any (λ m. in_it m && indexed_in_pool m) machines)
  unfolding setup_machine_to_namespace is_referenced_cached apply_all with_live_list_predicates
      with_cached_client_list_options all_options in_referenced_namespace_name_namespace
  namespace_cached =
      rw (world.lists_cached _, is_nonempty-filter (λ m. in_it m && indexed_in_pool m) machines)
        (or_false-answer answer (any (λ m. in_it m && indexed_in_pool m) machines))

  namespace_live :
      (setup_machine_to_namespace [] pool_name >>= λ b.
      eval answer (is_referenced_live b.dependents obj))
      ≡ ok (any (λ m. in_it m && true) machines)
  unfolding setup_machine_to_namespace is_referenced_live apply_all with_live_list_predicates
      with_cached_client_list_options all_options in_referenced_namespace_name_namespace
  namespace_live =
      rw (world.lists_cached _, is_nonempty-filter (λ m. in_it m && true) machines)
        (or_false-answer answer (any (λ m. in_it m && true) machines))

  -- A namespace is referenced exactly when some machine is in it, whether or not that machine runs
  -- in the pool.
  pub is_referenced-setup_machine_to_namespace :
      (setup_machine_to_namespace [] pool_name >>= λ b.
      eval answer (is_referenced b.dependents obj))
      ≡ ok (any (λ m. m.metadata.namespace == obj.metadata.name) machines)
  is_referenced-setup_machine_to_namespace =
      combined answer (setup_machine_to_namespace [] pool_name) _ _ obj namespace_cached
        namespace_live
      ∙ ap ok (any-either in_it indexed_in_pool machines)
