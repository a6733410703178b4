-- ===== src/Controllers/VolumePool.antt =====
-- broker/controllers/storage/volumepool_controller.go, and the list of the volumes of a pool of
-- api/storage/client/index/index.go. `PoolLibrary` has the list of a string
-- set with given insertions, and the sum of two resource lists.
pub mod Order
pub mod Sums
use poollet.Base.Dict.{Dict}
use poollet.Base.{
  ℕ, String, Bool, true, false, not, ◌==◌, List, [], ◌∷◌, ◌++◌, Option, none, some, if◌then◌else◌,
}
use poollet.Errors.{Result, ok, err, Error, wrap, is_not_found, ignore_not_found}
use poollet.Api.Metadata.{volume, volume_pool}
use poollet.Api.Objects.{Volume, VolumePool}
use poollet.Prog.{
  Prog, done, perform, ◌>>=◌, ObjectKey, source, target, cached, get, list, delete as delete_object,
  patch_status, remove_finalizer,
}
use poollet.Domain.{subdomain, slash}
use poollet.Controllers.Common.{Config, ReconcileResult, no_requeue, returned, contains_finalizer}
use poollet.Controllers.Apply.{key_of}

abbrev pub volume_spec_volume_pool_ref_name : String
volume_spec_volume_pool_ref_name = ".spec.volumePoolRef.name"

unfoldable pub list_volumes_running_on_volume_pool : String → Prog (Result (List Volume))
list_volumes_running_on_volume_pool pool_name =
    perform (
      list (cached source) volume (record {
        namespace = none;
        fields = (volume_spec_volume_pool_ref_name, pool_name) ∷ [];
        labels = [];
      }))
    >>= elim [
      | err e ↦ done (err (wrap "error listing volumes running on volume pool" e))
      | ok volumes ↦ done (ok volumes)
    ]

-- The loop that deletes the volumes; an error is only logged.
unfoldable pub delete_each : List Volume → Prog (Unit {0})
delete_each [] = done tt
delete_each (m ∷ volumes) =
    perform (delete_object source volume (key_of m.metadata)) >>= λ _. delete_each volumes

pub record PoolLibrary : Type 0 where
  pub list_of : List String → List String
  pub add : Dict ℕ → Dict ℕ → Dict ℕ

-- What the loop over the target pools accumulates; the names in the order of their insertion.
pub record Accumulated : Type 0 where
  pub names : List String
  pub available : Dict ℕ
  pub used : Dict ℕ

abbrev pub nothing : Accumulated
nothing = record { names = []; available = []; used = [] }

unfoldable pub accumulate : (Dict ℕ → Dict ℕ → Dict ℕ) → List VolumePool → Accumulated → Accumulated
accumulate add [] acc = acc
accumulate add (pool ∷ pools) acc = accumulate add pools (record {
  names = acc.names ++ pool.available_volume_classes;
  available = add acc.available pool.available;
  used = add acc.used pool.used;
})

abbrev pub with_status : VolumePool → String → Accumulated → VolumePool
with_status pool state total = record pool {
  state = state;
  available_volume_classes = total.names;
  available = total.available;
  used = total.used;
}

module _ (r : Config) where
  unfoldable pub finalizer : String
  unfolding subdomain slash
  finalizer = slash (subdomain r.base_domain r.pool_name) "volumepool"

  abbrev remove_pool_finalizer : VolumePool → Prog ReconcileResult
  unfolding finalizer
  remove_pool_finalizer pool =
      perform (remove_finalizer source volume_pool pool finalizer)
      >>= elim [ err e ↦ done (err (wrap "error removing finalizer" e)) | ok _ ↦ done no_requeue ]

  -- The rest of `delete` with the volumes that were listed.
  unfoldable pub delete_volumes : VolumePool → List Volume → Prog ReconcileResult
  unfolding delete_each remove_pool_finalizer
  delete_volumes pool [] = delete_each [] >>= λ _. remove_pool_finalizer pool
  delete_volumes pool (m ∷ volumes) = delete_each (m ∷ volumes) >>= λ _. done no_requeue

  unfoldable pub delete : VolumePool → Prog ReconcileResult
  unfolding finalizer list_volumes_running_on_volume_pool delete_volumes
  delete pool =
      if not (contains_finalizer pool.metadata.finalizers finalizer)
      then done no_requeue
      else list_volumes_running_on_volume_pool r.pool_name
        >>= elim [ err e ↦ done (err e) | ok volumes ↦ delete_volumes pool volumes ]

  unfoldable pub target_pools : Prog (Result (List VolumePool))
  target_pools =
      if not (r.target_pool_name == "")
      then perform
          (get (cached target) volume_pool (record { namespace = ""; name = r.target_pool_name }))
        >>= elim [
          | err e ↦ done (
              if not (is_not_found (some e))
              then err (wrap "error getting target pool" e)
              else ok [])
          | ok pool ↦ done (ok (pool ∷ []))
        ]
      else perform (
          list (cached target) volume_pool
            (record { namespace = none; fields = []; labels = r.target_pool_labels }))
        >>= elim [
          | err e ↦ done (err (wrap "error listing target pools" e))
          | ok pools ↦ done (ok pools)
        ]

  module _ (library : PoolLibrary) where
    -- The available classes are the list of the set of the names.
    abbrev pub total : List VolumePool → Accumulated
    unfolding accumulate
    total pools =
        let acc = accumulate library.add pools nothing in
        record acc { names = library.list_of acc.names }

    unfoldable pub accumulate_pools : Prog (Result Accumulated)
    unfolding target_pools accumulate
    accumulate_pools =
        target_pools >>= elim [ err e ↦ done (err e) | ok pools ↦ done (ok (total pools)) ]

    unfoldable pub patch_pool_status : VolumePool → String → Accumulated → Prog (Result (Unit {0}))
    patch_pool_status pool state sums =
        perform (patch_status source volume_pool pool (with_status pool state sums))
        >>= elim [ err e ↦ done (err (wrap "error patching status" e)) | ok _ ↦ done (ok tt) ]

    unfoldable pub reconcile : VolumePool → Prog ReconcileResult
    unfolding accumulate_pools patch_pool_status
    reconcile pool = accumulate_pools >>= elim [
      | err e ↦ done (err (wrap "error getting available volume classes" e))
      | ok sums ↦
          patch_pool_status pool "Available" sums
          >>= elim [ err e ↦ done (err (wrap "error patching status" e)) | ok _ ↦ done no_requeue ]
    ]

    unfoldable pub reconcile_exists : VolumePool → Prog ReconcileResult
    unfolding delete reconcile
    reconcile_exists pool = elim pool.metadata.deletion_timestamp [
      | some _ ↦ delete pool
      | none ↦ reconcile pool
    ]

    -- `Reconcile`, which gets the configured pool whatever the request.
    unfoldable pub handle : Prog ReconcileResult
    unfolding reconcile_exists
    handle =
        perform (get (cached source) volume_pool (record { namespace = ""; name = r.pool_name }))
        >>= elim [
          | err e ↦ done (returned (ignore_not_found (some e)))
          | ok pool ↦ reconcile_exists pool
        ]
