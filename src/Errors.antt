-- ===== src/Errors.antt =====
-- broker/errors/errors.go, and the error values of the other packages. A Go `error` is an
-- `Option Error`, with `none` for nil; a pair `(value, error)` is a `Result`.
pub mod Ignore
use poollet.Base.{
  String, Bool, true, false, ◌||◌, Option, none, some, if◌then◌else◌, ◌≡◌, refl, ◌⊎◌, inl, inr,
}
use poollet.Multicluster.Reference.{OwnerReference}

-- `wrap` is `fmt.Errorf("…: %w", err)`, through which `errors.As`, `errors.Is` and the API
-- machinery's `IsNotFound` look; `message` is any error value with nothing inside.
pub data Error : Type 0 where
  not_found : Error
  not_synced : String → String → Error
  already_owned : OwnerReference → Error
  no_partial_create : Error
  message : String → Error
  wrap : String → Error → Error

pub data Result {ℓ} (A : Type ℓ) : Type ℓ where
  ok : A → Result A
  err : Error → Result A

infixl 5 ◌>>=◌
abbrev pub ◌>>=◌ {ℓ κ} : {A : Type ℓ} {B : Type κ} → Result A → (A → Result B) → Result B
ok a >>= f = f a
err e >>= f = err e

unfoldable pub new_not_synced : String → String → Error
new_not_synced resource source_name = not_synced resource source_name

-- `errors.As(err, new(*notSyncedError))` for an error that is not nil.
abbrev pub as_not_synced : Error → Bool
as_not_synced (not_synced resource source_name) = true
as_not_synced (wrap text e) = as_not_synced e
as_not_synced _ = false

unfoldable pub is_not_synced : Option Error → Bool
is_not_synced none = false
is_not_synced (some e) = as_not_synced e

unfoldable pub ignore_not_synced : Option Error → Option Error
unfolding is_not_synced
ignore_not_synced e = if is_not_synced e then none else e

-- The API machinery's test, as it documents it: it looks through wrapped errors.
abbrev pub as_not_found : Error → Bool
as_not_found not_found = true
as_not_found (wrap text e) = as_not_found e
as_not_found _ = false

unfoldable pub is_not_found : Option Error → Bool
is_not_found none = false
is_not_found (some e) = as_not_found e

unfoldable pub ignore_not_found : Option Error → Option Error
unfolding is_not_found
ignore_not_found e = if is_not_found e then none else e

unfoldable pub is_not_synced_or_not_found : Option Error → Bool
unfolding is_not_synced is_not_found
is_not_synced_or_not_found e = is_not_synced e || is_not_found e

-- To split on a computed result and keep the equation.
pub Result-cases {ℓ} :
    {A : Type ℓ} (r : Result A) → ((a : A) × (r ≡ ok a)) ⊎ ((e : Error) × (r ≡ err e))
Result-cases (ok a) = inl (a, refl)
Result-cases (err e) = inr (e, refl)
