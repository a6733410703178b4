-- ===== src/Dependents/Builder/World/Answers.antt =====
-- What the dependents of secrets and namespaces answer in a world of machines.
use poollet.Base.{
  String, Bool, true, false, ◌==◌, ◌&&◌, ◌||◌, List, [], ◌∷◌, ◌≡◌, refl, Bool-cases, inl, inr,
  arith, eq_iff,
}
use poollet.Errors.{Result, ok}
use poollet.Api.Metadata.{machine, MetaObject}
use poollet.Api.Objects.{Machine}
use poollet.Helpers.{has_name, machine_runs_in_machine_pool}
use poollet.Prog.{Op, Reply, Prog}
use poollet.Dependents.Listing.{
  ListPredicate, matches_all, filter_list, filtered, is_nonempty, field_indexer_func_predicate,
}
use poollet.Dependents.Builder.Setups.{
  machine_machine_pool_predicate, extract_machine_secret_names, names_or_empty,
}
use poollet.Dependents.Builder.World.{eval, eval-bind, filter, any}

-- The indexed names have the same nonempty members.
pub has_name-names_or_empty :
    (names : List String) (name : String)
    → (name == "") ≡ false
    → has_name (names_or_empty names) name ≡ has_name names name
has_name-names_or_empty [] name h = ground (arith, eq_iff "" name, eq_iff name "")
has_name-names_or_empty (n ∷ names) name h = refl

pub any-filter :
    {A : Type 0} (p q : A → Bool) (xs : List A) → any p (filter q xs) ≡ any (λ x. q x && p x) xs
any-filter p q [] = refl
any-filter p q (x ∷ xs) = ground (arith, any-filter p q xs)

pub is_nonempty-filter :
    (p : Machine → Bool) (ms : List Machine) → is_nonempty machine (filter p ms) ≡ any p ms
is_nonempty-filter p [] = refl
is_nonempty-filter p (m ∷ ms) = ground (arith, is_nonempty-filter p ms)

module _ (answer : (o : Op) → Reply o) where
  -- Predicates that only read the object filter a list like a test.
  pub filter_list-answer :
      (f : Machine → Prog (Result Bool)) (test : Machine → Bool) (ms : List Machine)
      → ((m : Machine) → eval answer (f m) ≡ ok (test m))
      → eval answer (filter_list machine f ms) ≡ ok (filter test ms)
  unfolding filter_list
  filter_list-answer f test [] h = refl
  filter_list-answer f test (m ∷ ms) h =
      rw (eval-bind answer (f m) _, h m)
        (elim (Bool-cases (test m)) [
          | inl e ↦
              rw (e, eval-bind answer (filter_list machine f ms) _, filter_list-answer f test ms h)
                refl
          | inr e ↦ rw (e, filter_list-answer f test ms h) refl
        ])

  module _ (pool_name : String) (referenced : MetaObject) where
    abbrev pub in_pool : Machine → Bool
    in_pool m = machine_runs_in_machine_pool m pool_name

    abbrev pub names_secret : Machine → Bool
    names_secret m = has_name (extract_machine_secret_names m) referenced.metadata.name

    pub pool-answer :
        (m : Machine)
        → eval answer
            (matches_all machine (machine_machine_pool_predicate pool_name ∷ []) referenced m)
          ≡ ok (in_pool m)
    unfolding matches_all machine_machine_pool_predicate
    pool-answer m = elim (Bool-cases (machine_runs_in_machine_pool m pool_name)) [
      | inl e ↦ rw e refl
      | inr e ↦ rw e refl
    ]

    names_answer :
        (m : Machine)
        → eval answer (
            matches_all machine
              (field_indexer_func_predicate machine extract_machine_secret_names ∷ [])
              referenced
              m)
          ≡ ok (names_secret m)
    unfolding matches_all field_indexer_func_predicate
    names_answer m = elim (Bool-cases (names_secret m)) [ inl e ↦ rw e refl | inr e ↦ rw e refl ]

    pub pool_and_name-answer :
        (m : Machine)
        → eval answer (
            matches_all machine
              (machine_machine_pool_predicate pool_name
                ∷ field_indexer_func_predicate machine extract_machine_secret_names
                ∷ [])
              referenced
              m)
          ≡ ok (in_pool m && names_secret m)
    unfolding matches_all machine_machine_pool_predicate field_indexer_func_predicate
    pool_and_name-answer m = elim (Bool-cases (machine_runs_in_machine_pool m pool_name)) [
      | inl e ↦ rw e (names_answer m)
      | inr e ↦ rw e refl
    ]

    pub filtered-answer :
        (p : ListPredicate machine) (ps : List (ListPredicate machine)) (test : Machine → Bool)
        (ms : List Machine)
        → ((m : Machine) → eval answer (matches_all machine (p ∷ ps) referenced m) ≡ ok (test m))
        → eval answer (filtered machine (p ∷ ps) referenced ms) ≡ ok (any test ms)
    filtered-answer p ps test ms h =
        rw
          (
            eval-bind answer (filter_list machine (matches_all machine (p ∷ ps) referenced) ms) _,
            filter_list-answer (matches_all machine (p ∷ ps) referenced) test ms h,
            is_nonempty-filter test ms,
          )
          refl

pub any-ext :
    {A : Type 0} (p q : A → Bool) (xs : List A) → ((x : A) → p x ≡ q x) → any p xs ≡ any q xs
any-ext p q [] h = refl
any-ext p q (x ∷ xs) h = rw (h x, any-ext p q xs h) refl

-- A test that holds less often adds nothing.
pub any-or :
    {A : Type 0} (p q : A → Bool) (xs : List A) → (any (λ x. p x && q x) xs || any q xs) ≡ any q xs
any-or p q [] = refl
any-or p q (x ∷ xs) = ground (arith, any-or p q xs)

pub any-either :
    {A : Type 0} (p q : A → Bool) (xs : List A)
    → (any (λ x. p x && q x) xs || any (λ x. p x && true) xs) ≡ any p xs
any-either p q [] = refl
any-either p q (x ∷ xs) = ground (arith, any-either p q xs)
