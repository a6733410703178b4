-- ===== src/Dependents/Builder/World.antt =====
-- The answers of the dependents of api/compute/dependent/dependent.go in a world that does not
-- change: the programs run on the answers that the clients give about one list of machines.
pub mod Answers
pub mod Machines
use poollet.Base.{
  String, Bool, true, false, ◌==◌, ◌&&◌, ◌||◌, List, [], ◌∷◌, Option, none, some, ◌≡◌, refl,
}
use poollet.Base.Dict.{Dict, lookup}
use poollet.Errors.{Result, ok, err}
use poollet.Api.Metadata.{machine}
use poollet.Api.Objects.{Machine}
use poollet.Helpers.{has_name, refers_to, machine_runs_in_machine_pool, machine_spec_secret_names}
use poollet.Prog.{Op, Reply, Prog, done, call, ◌>>=◌, ListOptions, cached, live, source, list}
use poollet.Dependents.Builder.Setups.{
  extract_machine_secret_names, machine_spec_secret_names_field, machine_spec_machine_pool_ref_name,
}

module _ (answer : (o : Op) → Reply o) where
  abbrev pub eval : {A : Type 0} → Prog A → A
  eval (done a) = a
  eval (call o k) = eval (k (answer o))

  pub eval-bind : {A B : Type 0} (p : Prog A) (f : A → Prog B) → eval (p >>= f) ≡ eval (f (eval p))
  eval-bind (done a) f = refl
  eval-bind (call o k) f = eval-bind (k (answer o)) f

module _ {A : Type 0} where
  abbrev pub keep : Bool → A → List A → List A
  keep true x xs = x ∷ xs
  keep false x xs = xs

  abbrev pub filter : (A → Bool) → List A → List A
  filter p [] = []
  filter p (x ∷ xs) = keep (p x) x (filter p xs)

  abbrev pub any : (A → Bool) → List A → Bool
  any p [] = false
  any p (x ∷ xs) = p x || any p xs

-- What the index of a field has for a machine, for the two fields that the dependents ask for.
abbrev pub pool_or_empty : Option String → String
pool_or_empty none = ""
pool_or_empty (some name) = name

abbrev pub indexed : String → Machine → List String
indexed field m = elim (field == machine_spec_secret_names_field) [
  | true ↦ extract_machine_secret_names m
  | false ↦ elim (field == machine_spec_machine_pool_ref_name) [
    | true ↦ pool_or_empty m.machine_pool_ref ∷ []
    | false ↦ []
  ]
]

abbrev pub in_namespace_of : Option String → Machine → Bool
in_namespace_of none m = true
in_namespace_of (some namespace) m = m.metadata.namespace == namespace

abbrev pub has_fields : Dict String → Machine → Bool
has_fields [] m = true
has_fields ((field, value) ∷ fields) m = has_name (indexed field m) value && has_fields fields m

abbrev pub has_label : Option String → String → Bool
has_label = refers_to

abbrev pub has_labels : Dict String → Machine → Bool
has_labels [] m = true
has_labels ((k, v) ∷ labels) m = has_label (lookup k m.metadata.labels) v && has_labels labels m

-- Which machines a list call with these options has.
abbrev pub selects : ListOptions → Machine → Bool
selects options m =
    in_namespace_of options.namespace m
    && (has_fields options.fields m && has_labels options.labels m)

-- The cache has the field indexes; the server is only asked without fields and labels.
pub record IsWorldOf (answer : (o : Op) → Reply o) (machines : List Machine) : Type 0 where
  pub lists_cached :
      (options : ListOptions)
      → answer (list (cached source) machine options) ≡ ok (filter (selects options) machines)
  pub lists_live :
      (namespace : Option String)
      → answer
          (list (live source) machine (record { namespace = namespace; fields = []; labels = [] }))
        ≡ ok
            (filter (selects (record { namespace = namespace; fields = []; labels = [] })) machines)

-- A machine of the pool that refers to a secret of this name.
abbrev pub uses : String → String → Machine → Bool
uses pool_name name m =
    machine_runs_in_machine_pool m pool_name && has_name (machine_spec_secret_names m) name
