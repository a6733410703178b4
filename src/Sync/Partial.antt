-- ===== src/Sync/Partial.antt =====
-- The order in which collected mutations run on a target object.
use poollet.Base.{◌≡◌, refl, List, [], ◌∷◌, ◌++◌}
use poollet.Sync.{CompositeMutationBuilder, add, run_all}

module _ {O : Type 0} where
  run_all-append :
      (fs gs : List (O → O)) (obj : O) → run_all (fs ++ gs) obj ≡ run_all gs (run_all fs obj)
  run_all-append [] gs obj = refl
  run_all-append (f ∷ fs) gs obj = run_all-append fs gs (f obj)

  -- The mutation that is added last runs last, on what the earlier ones have made.
  pub run_all-add :
      (f : O → O) (b : CompositeMutationBuilder O) (obj : O)
      → run_all (add f b).mutations obj ≡ f (run_all b.mutations obj)
  unfolding add
  run_all-add f b obj = run_all-append b.mutations (f ∷ []) obj
