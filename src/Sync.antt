-- ===== src/Sync.antt =====
-- broker/sync/sync.go: the mutations of a target object that are collected before it is applied.
pub mod Partial
use poollet.Base.{
  String, Bool, true, false, ◌&&◌, List, [], ◌∷◌, ◌++◌, ◌==◌, if◌then◌else◌, Option, none, some,
}
use poollet.Errors.{Result, ok, err, Error, no_partial_create, wrap}

-- A mutation is a closure over the target, so it is a function on the target.
pub record CompositeMutationBuilder (O : Type 0) : Type 0 where
  pub mutations : List (O → O)
  pub partial_sync : Bool

abbrev pub empty_builder : {O : Type 0} → CompositeMutationBuilder O
empty_builder = record { mutations = []; partial_sync = false }

module _ {O : Type 0} where
  unfoldable pub add : (O → O) → CompositeMutationBuilder O → CompositeMutationBuilder O
  add f b = record b { mutations = b.mutations ++ f ∷ [] }

  unfoldable pub set_partial : CompositeMutationBuilder O → CompositeMutationBuilder O
  set_partial b = record b { partial_sync = true }

  abbrev pub run_all : List (O → O) → O → O
  run_all [] obj = obj
  run_all (mutate ∷ rest) obj = run_all rest (mutate obj)

  -- The closure that `Mutate` returns; the first argument reads the object's resource version.
  unfoldable pub mutate : (O → String) → CompositeMutationBuilder O → O → Result O
  mutate resource_version b obj =
      if resource_version obj == "" && b.partial_sync
      then err no_partial_create
      else ok (run_all b.mutations obj)

-- `errors.Is(err, errNoPartialCreate)` for an error that is not nil.
abbrev pub as_partial_create : Error → Bool
as_partial_create no_partial_create = true
as_partial_create (wrap text e) = as_partial_create e
as_partial_create _ = false

unfoldable pub is_partial_create : Option Error → Bool
is_partial_create none = false
is_partial_create (some e) = as_partial_create e

unfoldable pub ignore_partial_create : Option Error → Option Error
unfolding is_partial_create
ignore_partial_create e = if is_partial_create e then none else e
