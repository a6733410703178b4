-- ===== src/BrokerClient.antt =====
-- broker/client/client.go: applying a target object that is controlled by the object that it is
-- synced from, in the other cluster.
pub mod Mutate
use poollet.Base.{String, Bool, true, false, not, ◌==◌, if◌then◌else◌, Option, none, some}
use poollet.Errors.{Result, ok, err, Error, message}
use poollet.Api.Metadata.{Kind, Metadata, MetaObject, Machinery}
use poollet.Api.Objects.{Obj, metadata_of, with_metadata}
use poollet.Multicluster.Meta.{is_controlled_by}
use poollet.Multicluster.OwnerRefs.{set_controller_reference}
use poollet.Prog.{Prog, Side, create_or_patch, perform}

abbrev pub not_controlled : Error
not_controlled = message "object is not broker-controlled by broker owner"

module _ (k : Machinery) (cluster_name : String) (broker_owner : MetaObject) (kind : Kind) where
  -- `SetControllerReference` on an object that `f` has changed.
  abbrev pub set_controller : Obj kind → Result (Obj kind)
  set_controller obj =
      elim (set_controller_reference k cluster_name broker_owner (metadata_of kind obj)) [
        | err e ↦ err e
        | ok metadata ↦ ok (with_metadata kind obj metadata)
      ]

  abbrev pub then_set_controller : Result (Obj kind) → Result (Obj kind)
  then_set_controller (err e) = err e
  then_set_controller (ok obj) = set_controller obj

  unfoldable pub broker_controlled_mutate :
      (Obj kind → Result (Obj kind)) → Obj kind → Result (Obj kind)
  broker_controlled_mutate f obj =
      if not ((metadata_of kind obj).resource_version == "")
      then (if not (is_controlled_by k cluster_name broker_owner.metadata (metadata_of kind obj))
          then err not_controlled
          else f obj)
      else then_set_controller (f obj)

  unfoldable pub broker_controlled_create_or_patch :
      Side → Obj kind → (Obj kind → Result (Obj kind)) → Prog (Result (Obj kind))
  unfolding broker_controlled_mutate
  broker_controlled_create_or_patch side obj f =
      perform (create_or_patch side kind obj (broker_controlled_mutate f))
