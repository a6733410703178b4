-- ===== src/Examples/Hashed.antt =====
-- The hash of a pool's name, which is a label of the name of its leader election.
use Prim.Native.Nat.{ℕ, ◌<◌, ◌^◌}
use poollet.Base.{String, List, [], ◌∷◌, ◌≡◌, refl}
use poollet.Domain.{split, subdomain}
use poollet.Hash.{fnv32a, write, offset32}
use poollet.Hash.Digits.{fnv32a_lem, read_hex, all_bytes}

-- The bytes of the one text of the example, "ab".
abbrev bytes : String → List ℕ
bytes s = 97 ∷ 98 ∷ []

-- The published hash of "ab".
hash_of_ab : fnv32a bytes ("ab" ∷ []) ≡ "4d2505ca"
unfolding fnv32a
hash_of_ab = refl

fnv32a_lem_example :
    (read_hex 0 (fnv32a bytes ("ab" ∷ [])) ≡ write (all_bytes bytes ("ab" ∷ [])) offset32)
    × (write (all_bytes bytes ("ab" ∷ [])) offset32 < 2 ^ 32)
    × (split (subdomain "broker.onmetal.de" (fnv32a bytes ("ab" ∷ [])))
        ≡ (fnv32a bytes ("ab" ∷ []), "broker.onmetal.de"))
fnv32a_lem_example = fnv32a_lem bytes ("ab" ∷ []) "broker.onmetal.de"
