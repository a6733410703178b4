-- ===== src/SingleClient.antt =====
-- client/client.go, and what broker/client/client.go makes of it: finding the one object that a list
-- call answers with.
pub mod Generate
use poollet.Base.{String, not, List, [], ◌∷◌, if◌then◌else◌}
use poollet.Errors.{Result, ok, err, not_found, message}
use poollet.Api.Metadata.{Kind, Machinery, MetaObject}
use poollet.Api.Objects.{Obj, metadata_of}
use poollet.Multicluster.Meta.{is_controlled_by}
use poollet.Prog.{Prog, done, perform, ◌>>=◌, ◌>>?◌, Side, Reader, ListOptions, list, delete}
use poollet.BrokerClient.{not_controlled}
use poollet.Controllers.Apply.{key_of}

-- The object of a list that has exactly one.
abbrev pub single : {A : Type 0} → List A → Result A
single [] = err not_found
single (x ∷ []) = ok x
single (x ∷ y ∷ rest) = err (message "list single returned more than 1 objects")

module _ (k : Machinery) (kind : Kind) where
  abbrev single_of : Result (List (Obj kind)) → Prog (Result (Obj kind))
  single_of (err e) = done (err e)
  single_of (ok objs) = done (single objs)

  -- `ListSingle`, with the namespace of the object, if it has one, among the options.
  unfoldable pub list_single : Reader → ListOptions → Prog (Result (Obj kind))
  list_single reader options = elim (k.gvk_for_object kind) [
    | err e ↦ done (err e)
    | ok gvk ↦ perform (list reader kind options) >>= single_of
  ]

  unfoldable pub list_single_and_delete : Reader → Side → ListOptions → Prog (Result (Unit {0}))
  unfolding list_single
  list_single_and_delete reader side options = list_single reader options >>? λ obj.
      perform (delete side kind (key_of (metadata_of kind obj)))

  module _ (cluster_name : String) (broker_owner : MetaObject) where
    abbrev pub if_controlled : Obj kind → Prog (Result (Obj kind))
    if_controlled obj =
        if not (is_controlled_by k cluster_name broker_owner.metadata (metadata_of kind obj))
        then done (err not_controlled)
        else done (ok obj)

    unfoldable pub broker_controlled_list_single : Reader → ListOptions → Prog (Result (Obj kind))
    unfolding list_single is_controlled_by
    broker_controlled_list_single reader options = list_single reader options >>? if_controlled

    unfoldable pub broker_controlled_list_single_and_delete :
        Reader → Side → ListOptions → Prog (Result (Unit {0}))
    unfolding broker_controlled_list_single
    broker_controlled_list_single_and_delete reader side options =
        broker_controlled_list_single reader options >>? λ obj.
        perform (delete side kind (key_of (metadata_of kind obj)))
