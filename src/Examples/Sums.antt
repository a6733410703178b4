-- ===== src/Examples/Sums.antt =====
-- Resource lists that are added entry by entry, and the sums of the volume pool controller.
use poollet.Base.{
  ℕ, ◌+◌, ◌≡◌, refl, List, [], ◌∷◌, String, arith, ap, eq_iff, inl, inr, Bool-cases, ◌==◌,
}
use poollet.Base.Dict.{Dict, lookup}
use poollet.Api.Objects.{VolumePool}
use poollet.Helpers.{has_name}
use poollet.Controllers.VolumePool.{PoolLibrary, total}
use poollet.Controllers.VolumePool.Sums.{IsPoolLibrary, total_sums, quantity, sum_over, any_pool}
use poollet.Examples.Objects.{config, source_metadata}

abbrev pub add_all : Dict ℕ → Dict ℕ → Dict ℕ
unfolding lookup
add_all [] b = b
add_all ((name, n) ∷ a) b = (name, n + quantity name b) ∷ add_all a b

abbrev pub library : PoolLibrary
library = record { list_of = λ names. names; add = add_all }

quantity-add_all :
    (a b : Dict ℕ) (name : String) → quantity name (add_all a b) ≡ quantity name a + quantity name b
unfolding lookup
quantity-add_all [] b name = omega arith
quantity-add_all ((k, n) ∷ a) b name = elim (Bool-cases (k == name)) [
  | inl same ↦ rw same (ap (λ x. n + quantity x b) (ground (arith, eq_iff k name)))
  | inr other ↦ rw other (quantity-add_all a b name)
]

library-IsPoolLibrary : IsPoolLibrary library
library-IsPoolLibrary = record { adds = quantity-add_all; lists = λ names name. refl }

abbrev pub pool : VolumePool
pool = record {
  metadata = source_metadata "pool" [];
  provider_id = "";
  state = "Pending";
  available_volume_classes = [];
  available = [];
  used = [];
}

abbrev pub first_target : VolumePool
first_target = record pool {
  available_volume_classes = "fast" ∷ [];
  available = ("storage", 10) ∷ ("tier", 1) ∷ [];
  used = ("storage", 2) ∷ [];
}

abbrev second_target : VolumePool
second_target = record pool {
  available_volume_classes = "slow" ∷ "fast" ∷ [];
  available = ("storage", 5) ∷ [];
}

abbrev targets : List VolumePool
targets = first_target ∷ second_target ∷ []

total_sums_example :
    (has_name (total config library targets).names "storage"
      ≡ any_pool (λ p. has_name p.available_volume_classes "storage") targets)
    × (quantity "storage" (total config library targets).available
        ≡ sum_over (λ p. quantity "storage" p.available) targets)
    × (quantity "storage" (total config library targets).used
        ≡ sum_over (λ p. quantity "storage" p.used) targets)
total_sums_example = total_sums library library-IsPoolLibrary config targets "storage"
