-- ===== src/Dependents.antt =====
-- broker/dependents/dependent.go: whether some dependent object refers to an object. A referencer
-- is an interface, so it is a program for each referenced object.
pub mod References
pub mod Listing
pub mod Builder
use poollet.Base.{String, Bool, true, false, List, [], ◌∷◌, ◌++◌}
use poollet.Errors.{Result, ok, err, Error}
use poollet.Api.Metadata.{MetaObject}
use poollet.Prog.{Prog, done, ◌>>=◌}

abbrev pub Referencer : Type 0
Referencer = MetaObject → Prog (Result Bool)

pub record Dependent : Type 0 where
  pub cached_referencer : Referencer
  pub live_referencer : Referencer

abbrev pub Mixin : Type 0
Mixin = List Dependent

-- `Mixin.Dependent`
unfoldable pub add_dependent : Dependent → Mixin → Mixin
add_dependent dependent dependents = dependents ++ dependent ∷ []

-- `if ok, err := …; err != nil || ok { return ok, err }`, and the rest otherwise
abbrev pub or_else : Prog (Result Bool) → Result Bool → Prog (Result Bool)
or_else rest (err e) = done (err e)
or_else rest (ok true) = done (ok true)
or_else rest (ok false) = rest

unfoldable pub is_referenced_cached : Mixin → Referencer
is_referenced_cached [] referenced = done (ok false)
is_referenced_cached (d ∷ dependents) referenced =
    d.cached_referencer referenced >>= or_else (is_referenced_cached dependents referenced)

unfoldable pub is_referenced_live : Mixin → Referencer
is_referenced_live [] referenced = done (ok false)
is_referenced_live (d ∷ dependents) referenced =
    d.live_referencer referenced >>= or_else (is_referenced_live dependents referenced)

unfoldable pub is_referenced : Mixin → Referencer
unfolding is_referenced_cached is_referenced_live
is_referenced dependents referenced =
    is_referenced_cached dependents referenced
    >>= or_else (is_referenced_live dependents referenced)
