-- ===== src/Controllers/MachinePool/Order.antt =====
-- The machine pool controller keeps its finalizer for its machines, and sums up the target pools.
use poollet.Base.{
  ◌++◌, true, false, ap, String, not, ◌≡◌, refl, List, [], ◌∷◌, Option, none, some, Bool-cases, inl,
  inr, ◌==◌, ◌⊎◌, ℕ, if◌then◌else◌,
}
use mathlib.Core.List.{foldr}
use poollet.Errors.{Result, ok, err, is_not_found, Error, wrap}
use poollet.Api.Metadata.{machine, machine_pool}
use poollet.Api.Objects.{Machine, MachinePool}
use poollet.Prog.{
  Prog, Op, Reply, ObjectKey, source, target, cached, list, get, delete as delete_object,
  patch_status, remove_finalizer,
}
use poollet.Prog.Trace.{Runs, Exchange, Accepts, Accepts-Runs, Safe, Safe-bind}
use poollet.Controllers.Common.{Config, ReconcileResult, contains_finalizer}
use poollet.Controllers.Apply.{key_of}
use poollet.Controllers.MachinePool.{
  delete_each, class_names, finalizer, delete_machines, delete, target_pools, accumulate_pools,
  with_status, reconcile, reconcile_exists, list_machines_running_in_machine_pool,
  patch_pool_status,
}

-- The machines that were listed, and the class names of the target pools that were read.
pub record Seen : Type 0 where
  pub machines : Option (List Machine)
  pub pools : Option (List MachinePool)

abbrev pub unseen : Seen
unseen = record { machines = none; pools = none }

-- The class names of the pools, one pool after the other.
abbrev pub names_of : List MachinePool → List String
names_of = foldr (λ p names. p.available_machine_classes ++ names) []

class_names-names_of : (pools : List MachinePool) → class_names pools ≡ names_of pools
unfolding class_names
class_names-names_of [] = refl
class_names-names_of (p ∷ pools) =
    ap (λ names. p.available_machine_classes ++ names) (class_names-names_of pools)

abbrev pub see : Seen → (o : Op) → Reply o → Seen
see s (list (cached source) machine options) (ok ms) = record s { machines = some ms }
see s (list (cached target) machine_pool options) (ok ps) = record s { pools = some ps }
see s (get (cached target) machine_pool key) (ok p) = record s { pools = some (p ∷ []) }
see s (get (cached target) machine_pool key) (err e) =
    if is_not_found (some e) then record s { pools = some [] } else s
see s o r = s

abbrev pub IsListed : ObjectKey → List Machine → Type 0
IsListed key [] = ⊥
IsListed key (m ∷ ms) = (key ≡ key_of m.metadata) ⊎ IsListed key ms

module _ (r : Config) (list_of : List String → List String) (pool : MachinePool) where
  -- The pool is being deleted, and has the finalizer.
  abbrev pub IsDeleting : Type 0
  IsDeleting =
      ((t : ℕ) × (pool.metadata.deletion_timestamp ≡ some t))
      × (contains_finalizer pool.metadata.finalizers (finalizer r) ≡ true)

  abbrev pub AllowedPool : Seen → Op → Type 0
  AllowedPool s (delete_object source machine key) =
      IsDeleting × (ms : List Machine) × (s.machines ≡ some ms) × IsListed key ms
  AllowedPool s (remove_finalizer source machine_pool obj f) =
      IsDeleting × (s.machines ≡ some []) × (obj ≡ pool) × (f ≡ finalizer r)
  AllowedPool s (patch_status source machine_pool base obj) =
      (pools : List MachinePool) × (s.pools ≡ some pools)
      × (base ≡ pool)
      × (obj ≡ with_status pool "Ready" (list_of (names_of pools)))
  AllowedPool s (list (cached source) machine options) = options ≡ record {
    namespace = none;
    fields = (".spec.machinePoolRef.name", r.pool_name) ∷ [];
    labels = [];
  }
  AllowedPool s (list (cached target) machine_pool options) =
      ((r.target_pool_name == "") ≡ true)
      × (options ≡ record { namespace = none; fields = []; labels = r.target_pool_labels })
  AllowedPool s (get (cached target) machine_pool key) =
      ((r.target_pool_name == "") ≡ false)
      × (key ≡ record { namespace = ""; name = r.target_pool_name })
  AllowedPool s _ = ⊥

  abbrev Keeps : {A : Type 0} → Seen → Prog A → Type 0
  Keeps = Safe see AllowedPool (λ s a. Unit)

  abbrev with_machines : List Machine → Seen
  with_machines ms = record unseen { machines = some ms }

  delete_each-Safe :
      IsDeleting
      → (all ms : List Machine) → ((key : ObjectKey) → IsListed key ms → IsListed key all)
      → Safe see AllowedPool (λ s a. s ≡ with_machines all) (with_machines all) (delete_each ms)
  unfolding delete_each
  delete_each-Safe deleting all [] sub = refl
  delete_each-Safe deleting all (m ∷ ms) sub = (
    (deleting, all, refl, sub (key_of m.metadata) (inl refl)),
    λ reply. delete_each-Safe deleting all ms (λ key listed. sub key (inr listed)),
  )

  delete_machines-Keeps :
      IsDeleting → (ms : List Machine) → Keeps (with_machines ms) (delete_machines r pool ms)
  unfolding delete_machines delete_each
  delete_machines-Keeps deleting [] =
      ((deleting, refl, refl, refl), elim [ err e ↦ tt | ok _ ↦ tt ])
  delete_machines-Keeps deleting (m ∷ ms) =
      Safe-bind see AllowedPool (λ s a. s ≡ with_machines (m ∷ ms)) (λ s a. Unit)
        (with_machines (m ∷ ms)) (delete_each (m ∷ ms)) _
        (delete_each-Safe deleting (m ∷ ms) (m ∷ ms) (λ key listed. listed)) λ s a h. tt

  delete-Keeps : (t : ℕ) → pool.metadata.deletion_timestamp ≡ some t → Keeps unseen (delete r pool)
  unfolding delete list_machines_running_in_machine_pool
  delete-Keeps t deleted =
      elim (Bool-cases (contains_finalizer pool.metadata.finalizers (finalizer r))) [
        | inl present ↦ rw present (
            (
              refl,
              elim [
                | err e ↦ tt
                | ok machines ↦ delete_machines-Keeps ((t, deleted), present) machines
              ],
            ))
        | inr absent ↦ rw absent tt
      ]

  -- The target pools that were read.
  abbrev Read : Seen → Result (List MachinePool) → Type 0
  Read s (err e) = Unit
  Read s (ok pools) = s.pools ≡ some pools

  get_error-Safe :
      (e : Error)
      → Read
          (see unseen
            (get (cached target) machine_pool (record { namespace = ""; name = "" }))
            (err e))
          (if not (is_not_found (some e)) then err (wrap "error getting target pool" e) else ok [])
  get_error-Safe e = elim (Bool-cases (is_not_found (some e))) [
    | inl missing ↦ rw missing refl
    | inr other ↦ rw other tt
  ]

  target_pools-Safe : Safe see AllowedPool Read unseen (target_pools r)
  unfolding target_pools
  target_pools-Safe = elim (Bool-cases (r.target_pool_name == "")) [
    | inl any ↦ rw any ((any, refl), elim [ err e ↦ tt | ok pools ↦ refl ])
    | inr one ↦ rw one ((one, refl), elim [ err e ↦ get_error-Safe e | ok p ↦ refl ])
  ]

  abbrev Summed : Seen → Result (List String) → Type 0
  Summed s (err e) = Unit
  Summed s (ok classes) =
      (pools : List MachinePool) × (s.pools ≡ some pools) × (classes ≡ list_of (names_of pools))

  accumulate_pools-Safe : Safe see AllowedPool Summed unseen (accumulate_pools r list_of)
  unfolding accumulate_pools
  accumulate_pools-Safe =
      Safe-bind see AllowedPool Read Summed unseen (target_pools r) _ target_pools-Safe λ s. elim [
        | err e ↦ λ h. tt
        | ok pools ↦ λ h. (pools, h, ap list_of (class_names-names_of pools))
      ]

  reconcile-Keeps : Keeps unseen (reconcile r list_of pool)
  unfolding reconcile patch_pool_status
  reconcile-Keeps =
      Safe-bind see AllowedPool Summed (λ s a. Unit) unseen (accumulate_pools r list_of) _
        accumulate_pools-Safe
        λ s. elim [
          | err e ↦ λ h. tt
          | ok classes ↦ λ (pools, read, same). (
            (pools, read, refl, ap (with_status pool "Ready") same),
            elim [ err e ↦ tt | ok _ ↦ tt ],
          )
        ]

  exists-Keeps :
      (deletion_timestamp : Option ℕ)
      → pool.metadata.deletion_timestamp ≡ deletion_timestamp
      → Keeps unseen
          (elim deletion_timestamp [ some _ ↦ delete r pool | none ↦ reconcile r list_of pool ])
  exists-Keeps (some t) deleted = delete-Keeps t deleted
  exists-Keeps none kept = reconcile-Keeps

  reconcile_exists-Keeps : Keeps unseen (reconcile_exists r list_of pool)
  unfolding reconcile_exists
  reconcile_exists-Keeps = exists-Keeps pool.metadata.deletion_timestamp refl

-- In every run of the machine pool controller: the only machines that are listed are those that the
-- field .spec.machinePoolRef.name gives for the pool's name; only machines of that list are
-- deleted; the finalizer is removed, from the pool only, and only after that list was empty; the
-- deletions and the removal happen only if the pool is being deleted and has the finalizer; the
-- target pools are the one of the configured name, or if none is configured those with the
-- configured labels; of the pool, the status is only patched to ready with the list of the set of
-- the class names of the target pools that were read; and nothing else is written in either
-- cluster.
pub machine_pool_run-Accepts :
    (r : Config) (list_of : List String → List String) (pool : MachinePool) {trace : List Exchange}
    {result : ReconcileResult}
    → Runs (reconcile_exists r list_of pool) trace result
    → Accepts see (AllowedPool r list_of pool) unseen trace
machine_pool_run-Accepts r list_of pool run =
    (Accepts-Runs see (AllowedPool r list_of pool) (λ s a. Unit) run unseen
      (reconcile_exists-Keeps r list_of pool)).0
