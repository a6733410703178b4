-- ===== src/Controllers/VolumePool/Order.antt =====
-- The volume pool controller keeps its finalizer for its volumes, and sums up the target pools.
use poollet.Base.{
  true, false, ap, not, ◌≡◌, refl, List, [], ◌∷◌, Option, none, some, Bool-cases, inl, inr, ◌==◌,
  ◌⊎◌, ℕ, if◌then◌else◌,
}
use poollet.Errors.{Result, ok, err, is_not_found, Error, wrap}
use poollet.Api.Metadata.{volume, volume_pool}
use poollet.Api.Objects.{Volume, VolumePool}
use poollet.Prog.{
  Prog, Op, Reply, ObjectKey, source, target, cached, list, get, delete as delete_object,
  patch_status, remove_finalizer,
}
use poollet.Prog.Trace.{Runs, Exchange, Accepts, Accepts-Runs, Safe, Safe-bind}
use poollet.Controllers.Common.{Config, ReconcileResult, contains_finalizer}
use poollet.Controllers.Apply.{key_of}
use poollet.Controllers.VolumePool.{
  delete_each, Accumulated, PoolLibrary, total, finalizer, delete_volumes, delete, target_pools,
  accumulate_pools, with_status, reconcile, reconcile_exists, list_volumes_running_on_volume_pool,
  patch_pool_status,
}

-- The volumes that were listed, and the target pools that were read.
pub record Seen : Type 0 where
  pub volumes : Option (List Volume)
  pub pools : Option (List VolumePool)

abbrev pub unseen : Seen
unseen = record { volumes = none; pools = none }

abbrev pub see : Seen → (o : Op) → Reply o → Seen
see s (list (cached source) volume options) (ok ms) = record s { volumes = some ms }
see s (list (cached target) volume_pool options) (ok ps) = record s { pools = some ps }
see s (get (cached target) volume_pool key) (ok p) = record s { pools = some (p ∷ []) }
see s (get (cached target) volume_pool key) (err e) =
    if is_not_found (some e) then record s { pools = some [] } else s
see s o r = s

abbrev pub IsListed : ObjectKey → List Volume → Type 0
IsListed key [] = ⊥
IsListed key (m ∷ ms) = (key ≡ key_of m.metadata) ⊎ IsListed key ms

module _ (r : Config) (library : PoolLibrary) (pool : VolumePool) where
  -- The pool is being deleted, and has the finalizer.
  abbrev pub IsDeleting : Type 0
  IsDeleting =
      ((t : ℕ) × (pool.metadata.deletion_timestamp ≡ some t))
      × (contains_finalizer pool.metadata.finalizers (finalizer r) ≡ true)

  abbrev pub AllowedPool : Seen → Op → Type 0
  AllowedPool s (delete_object source volume key) =
      IsDeleting × (ms : List Volume) × (s.volumes ≡ some ms) × IsListed key ms
  AllowedPool s (remove_finalizer source volume_pool obj f) =
      IsDeleting × (s.volumes ≡ some []) × (obj ≡ pool) × (f ≡ finalizer r)
  AllowedPool s (patch_status source volume_pool base obj) =
      (pools : List VolumePool) × (s.pools ≡ some pools)
      × (base ≡ pool)
      × (obj ≡ with_status pool "Available" (total r library pools))
  AllowedPool s (list (cached source) volume options) = options ≡ record {
    namespace = none;
    fields = (".spec.volumePoolRef.name", r.pool_name) ∷ [];
    labels = [];
  }
  AllowedPool s (list (cached target) volume_pool options) =
      ((r.target_pool_name == "") ≡ true)
      × (options ≡ record { namespace = none; fields = []; labels = r.target_pool_labels })
  AllowedPool s (get (cached target) volume_pool key) =
      ((r.target_pool_name == "") ≡ false)
      × (key ≡ record { namespace = ""; name = r.target_pool_name })
  AllowedPool s _ = ⊥

  abbrev Keeps : {A : Type 0} → Seen → Prog A → Type 0
  Keeps = Safe see AllowedPool (λ s a. Unit)

  abbrev with_volumes : List Volume → Seen
  with_volumes ms = record unseen { volumes = some ms }

  delete_each-Safe :
      IsDeleting
      → (all ms : List Volume) → ((key : ObjectKey) → IsListed key ms → IsListed key all)
      → Safe see AllowedPool (λ s a. s ≡ with_volumes all) (with_volumes all) (delete_each ms)
  unfolding delete_each
  delete_each-Safe deleting all [] sub = refl
  delete_each-Safe deleting all (m ∷ ms) sub = (
    (deleting, all, refl, sub (key_of m.metadata) (inl refl)),
    λ reply. delete_each-Safe deleting all ms (λ key listed. sub key (inr listed)),
  )

  delete_volumes-Keeps :
      IsDeleting → (ms : List Volume) → Keeps (with_volumes ms) (delete_volumes r pool ms)
  unfolding delete_volumes delete_each
  delete_volumes-Keeps deleting [] = ((deleting, refl, refl, refl), elim [ err e ↦ tt | ok _ ↦ tt ])
  delete_volumes-Keeps deleting (m ∷ ms) =
      Safe-bind see AllowedPool (λ s a. s ≡ with_volumes (m ∷ ms)) (λ s a. Unit)
        (with_volumes (m ∷ ms)) (delete_each (m ∷ ms)) _
        (delete_each-Safe deleting (m ∷ ms) (m ∷ ms) (λ key listed. listed)) λ s a h. tt

  delete-Keeps : (t : ℕ) → pool.metadata.deletion_timestamp ≡ some t → Keeps unseen (delete r pool)
  unfolding delete list_volumes_running_on_volume_pool
  delete-Keeps t deleted =
      elim (Bool-cases (contains_finalizer pool.metadata.finalizers (finalizer r))) [
        | inl present ↦ rw present (
            (
              refl,
              elim [
                | err e ↦ tt
                | ok volumes ↦ delete_volumes-Keeps ((t, deleted), present) volumes
              ],
            ))
        | inr absent ↦ rw absent tt
      ]

  -- The target pools that were read.
  abbrev Read : Seen → Result (List VolumePool) → Type 0
  Read s (err e) = Unit
  Read s (ok pools) = s.pools ≡ some pools

  get_error-Safe :
      (e : Error)
      → Read
          (see unseen
            (get (cached target) volume_pool (record { namespace = ""; name = "" }))
            (err e))
          (if not (is_not_found (some e)) then err (wrap "error getting target pool" e) else ok [])
  get_error-Safe e = elim (Bool-cases (is_not_found (some e))) [
    | inl missing ↦ rw missing refl
    | inr other ↦ rw other tt
  ]

  target_pools-Safe : Safe see AllowedPool Read unseen (target_pools r)
  unfolding target_pools
  target_pools-Safe = elim (Bool-cases (r.target_pool_name == "")) [
    | inl any ↦ rw any ((any, refl), elim [ err e ↦ tt | ok pools ↦ refl ])
    | inr one ↦ rw one ((one, refl), elim [ err e ↦ get_error-Safe e | ok p ↦ refl ])
  ]

  abbrev Summed : Seen → Result Accumulated → Type 0
  Summed s (err e) = Unit
  Summed s (ok sums) =
      (pools : List VolumePool) × (s.pools ≡ some pools) × (sums ≡ total r library pools)

  accumulate_pools-Safe : Safe see AllowedPool Summed unseen (accumulate_pools r library)
  unfolding accumulate_pools
  accumulate_pools-Safe =
      Safe-bind see AllowedPool Read Summed unseen (target_pools r) _ target_pools-Safe
        λ s. elim [ err e ↦ λ h. tt | ok pools ↦ λ h. (pools, h, refl) ]

  reconcile-Keeps : Keeps unseen (reconcile r library pool)
  unfolding reconcile patch_pool_status
  reconcile-Keeps =
      Safe-bind see AllowedPool Summed (λ s a. Unit) unseen (accumulate_pools r library) _
        accumulate_pools-Safe
        λ s. elim [
          | err e ↦ λ h. tt
          | ok sums ↦ λ (pools, read, same). (
            (pools, read, refl, ap (with_status pool "Available") same),
            elim [ err e ↦ tt | ok _ ↦ tt ],
          )
        ]

  exists-Keeps :
      (deletion_timestamp : Option ℕ)
      → pool.metadata.deletion_timestamp ≡ deletion_timestamp
      → Keeps unseen
          (elim deletion_timestamp [ some _ ↦ delete r pool | none ↦ reconcile r library pool ])
  exists-Keeps (some t) deleted = delete-Keeps t deleted
  exists-Keeps none kept = reconcile-Keeps

  reconcile_exists-Keeps : Keeps unseen (reconcile_exists r library pool)
  unfolding reconcile_exists
  reconcile_exists-Keeps = exists-Keeps pool.metadata.deletion_timestamp refl

-- In every run of the volume pool controller: the only volumes that are listed are those that the
-- field .spec.volumePoolRef.name gives for the pool's name; only volumes of that list are deleted;
-- the finalizer is removed, from the pool only, and only after that list was empty; the deletions
-- and the removal happen only if the pool is being deleted and has the finalizer; the target pools
-- are the one of the configured name, or if none is configured those with the configured labels; of
-- the pool, the status is only patched to available with the list of the set of the class names and
-- the sums of the resources of the target pools that were read; and nothing else is written in
-- either cluster.
pub volume_pool_run-Accepts :
    (r : Config) (library : PoolLibrary) (pool : VolumePool) {trace : List Exchange}
    {result : ReconcileResult}
    → Runs (reconcile_exists r library pool) trace result
    → Accepts see (AllowedPool r library pool) unseen trace
volume_pool_run-Accepts r library pool run =
    (Accepts-Runs see (AllowedPool r library pool) (λ s a. Unit) run unseen
      (reconcile_exists-Keeps r library pool)).0
