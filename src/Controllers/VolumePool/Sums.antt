-- ===== src/Controllers/VolumePool/Sums.antt =====
-- What the volume pool controller accumulates, against the sums over the target pools.
use poollet.Base.{
  ℕ, ◌+◌, String, Bool, false, ◌||◌, ◌≡◌, refl, List, [], ◌∷◌, ◌++◌, Option, none, some, arith, ◌∙◌,
}
use poollet.Base.Dict.{Dict, lookup}
use poollet.Api.Objects.{VolumePool}
use poollet.Helpers.{has_name}
use poollet.Controllers.Common.{Config}
use poollet.Controllers.VolumePool.{accumulate, Accumulated, PoolLibrary, total, nothing}

abbrev quantity_or_zero : Option ℕ → ℕ
quantity_or_zero none = 0
quantity_or_zero (some n) = n

-- The quantity of a resource, which is zero if the list does not name it.
abbrev pub quantity : String → Dict ℕ → ℕ
unfolding lookup
quantity name resources = quantity_or_zero (lookup name resources)

abbrev pub sum_over : (VolumePool → ℕ) → List VolumePool → ℕ
sum_over f [] = 0
sum_over f (pool ∷ pools) = f pool + sum_over f pools

abbrev pub any_pool : (VolumePool → Bool) → List VolumePool → Bool
any_pool f [] = false
any_pool f (pool ∷ pools) = f pool || any_pool f pools

-- What is relied on: a sum has the sums of the quantities, and a set has the names that were put
-- into it.
pub record IsPoolLibrary (library : PoolLibrary) : Type 0 where
  pub adds :
      (a b : Dict ℕ) (name : String)
      → quantity name (library.add a b) ≡ quantity name a + quantity name b
  pub lists :
      (names : List String) (name : String)
      → has_name (library.list_of names) name ≡ has_name names name

has_name-append :
    (xs ys : List String) (name : String)
    → has_name (xs ++ ys) name ≡ has_name xs name || has_name ys name
has_name-append [] ys name = refl
has_name-append (x ∷ xs) ys name = ground (arith, has_name-append xs ys name)

module _ (library : PoolLibrary) (law : IsPoolLibrary library) where
  accumulate-quantity :
      (name : String) (pools : List VolumePool) (acc : Accumulated)
      → (quantity name (accumulate library.add pools acc).available
          ≡ quantity name acc.available + sum_over (λ p. quantity name p.available) pools)
        × (quantity name (accumulate library.add pools acc).used
            ≡ quantity name acc.used + sum_over (λ p. quantity name p.used) pools)
  unfolding accumulate
  accumulate-quantity name [] acc = omega arith
  accumulate-quantity name (pool ∷ pools) acc =
      let ih = accumulate-quantity name pools (record {
        names = acc.names ++ pool.available_volume_classes;
        available = library.add acc.available pool.available;
        used = library.add acc.used pool.used;
      }) in
      omega (arith, law.adds acc.available pool.available name, law.adds acc.used pool.used name)

  accumulate-has_name :
      (name : String) (pools : List VolumePool) (acc : Accumulated)
      → has_name (accumulate library.add pools acc).names name
        ≡ has_name acc.names name || any_pool (λ p. has_name p.available_volume_classes name) pools
  unfolding accumulate
  accumulate-has_name name [] acc = ground arith
  accumulate-has_name name (pool ∷ pools) acc = ground (
    arith,
    accumulate-has_name name pools (record {
      names = acc.names ++ pool.available_volume_classes;
      available = library.add acc.available pool.available;
      used = library.add acc.used pool.used;
    }),
    has_name-append acc.names pool.available_volume_classes name,
  )

  -- If sums of resource lists and lists of string sets do what they say: the status of the pool has
  -- a class exactly if some target pool has it, and of each resource it has as much available and
  -- used as the target pools have together.
  pub total_sums :
      (r : Config) (pools : List VolumePool) (name : String)
      → (has_name (total r library pools).names name
          ≡ any_pool (λ p. has_name p.available_volume_classes name) pools)
        × (quantity name (total r library pools).available
            ≡ sum_over (λ p. quantity name p.available) pools)
        × (quantity name (total r library pools).used ≡ sum_over (λ p. quantity name p.used) pools)
  unfolding total quantity
  total_sums r pools name =
      let sums = accumulate-quantity name pools nothing in
      (
        law.lists (accumulate library.add pools nothing).names name
            ∙ accumulate-has_name name pools nothing,
        omega arith,
        omega arith,
      )
