-- ===== src/SingleClient/Generate.antt =====
-- client/client.go and broker/client/client.go: the one object of a list call that is patched, or
-- created under a generated name. Controllers in the same cluster are those of the API machinery,
-- which is a parameter.
use poollet.Base.{String, Bool, not, ◌==◌, ◌&&◌, Option, none, some, if◌then◌else◌}
use poollet.Errors.{Result, ok, err, Error, is_not_found, message}
use poollet.Api.Metadata.{Kind, Machinery, Metadata, MetaObject}
use poollet.Api.Objects.{Obj, metadata_of, with_metadata}
use poollet.Prog.{
  Prog, done, perform, ◌>>=◌, ◌>>?◌, Side, Reader, ListOptions, create, patch, delete,
}
use poollet.BrokerClient.{broker_controlled_mutate}
use poollet.Controllers.Apply.{key_of}
use poollet.SingleClient.{list_single}

-- metav1.IsControlledBy(obj, owner) and ctrl.SetControllerReference(owner, obj).
pub record LocalControllers : Type 0 where
  pub is_controlled_by : Metadata → Metadata → Bool
  pub set_controller_reference : MetaObject → Metadata → Result Metadata

abbrev pub not_owned : Error
not_owned = message "object is not controlled by owner"

-- `none` is no error.
unfoldable pub check_can_generate : Metadata → Option Error
check_can_generate obj =
    if obj.generate_name == ""
    then some (message "must specify metadata.generateName")
    else if not (obj.name == "")
    then some (message "must not specify metadata.name")
    else none

-- `listOpts.Namespace = namespace`, if the object has one.
abbrev pub with_namespace_of : Metadata → ListOptions → ListOptions
with_namespace_of obj options =
    if not (obj.namespace == "") then record options { namespace = some obj.namespace } else options

abbrev pub same_key : Metadata → Metadata → Bool
same_key a b = a.namespace == b.namespace && a.name == b.name

module _ (k : Machinery) (kind : Kind) where
  module _ (reader : Reader) (side : Side) where
    -- After the mutation of an object that is to be created.
    abbrev pub create_mutated : Obj kind → Result (Obj kind) → Prog (Result (Obj kind))
    create_mutated obj (err e) = done (err e)
    create_mutated obj (ok mutated) =
        if not ((metadata_of kind mutated).namespace == (metadata_of kind obj).namespace)
        then done (err (message "may not mutate namespace"))
        else elim (check_can_generate (metadata_of kind mutated)) [
          | some e ↦ done (err e)
          | none ↦ perform (create side kind mutated)
        ]

    -- After the mutation of an object that was found.
    abbrev pub patch_mutated : Obj kind → Result (Obj kind) → Prog (Result (Obj kind))
    patch_mutated base (err e) = done (err e)
    patch_mutated base (ok mutated) =
        if not (same_key (metadata_of kind base) (metadata_of kind mutated))
        then done (err (message "may not mutate namespace/name"))
        else perform (patch side kind base mutated)

    abbrev pub generate_or_patch :
        Obj kind → (Obj kind → Result (Obj kind)) → Result (Obj kind) → Prog (Result (Obj kind))
    generate_or_patch obj f (ok existing) = patch_mutated existing (f existing)
    generate_or_patch obj f (err e) =
        if not (is_not_found (some e)) then done (err e) else create_mutated obj (f obj)

    unfoldable pub list_single_generate_or_patch :
        Obj kind → (Obj kind → Result (Obj kind)) → ListOptions → Prog (Result (Obj kind))
    unfolding list_single check_can_generate
    list_single_generate_or_patch obj f options = elim (check_can_generate (metadata_of kind obj)) [
      | some e ↦ done (err e)
      | none ↦
          list_single k kind reader (with_namespace_of (metadata_of kind obj) options)
          >>= generate_or_patch obj f
    ]

    unfoldable pub broker_controlled_list_single_generate_or_patch :
        String
        → MetaObject
        → Obj kind
        → (Obj kind → Result (Obj kind))
        → ListOptions
        → Prog (Result (Obj kind))
    unfolding list_single_generate_or_patch broker_controlled_mutate
    broker_controlled_list_single_generate_or_patch cluster_name parent_owner obj f =
        list_single_generate_or_patch obj
          (broker_controlled_mutate k cluster_name parent_owner kind f)

  module _ (local : LocalControllers) (owner : MetaObject) where
    abbrev pub if_owned : Obj kind → Prog (Result (Obj kind))
    if_owned obj =
        if not (local.is_controlled_by (metadata_of kind obj) owner.metadata)
        then done (err not_owned)
        else done (ok obj)

    unfoldable pub controlled_list_single : Reader → ListOptions → Prog (Result (Obj kind))
    unfolding list_single
    controlled_list_single reader options = list_single k kind reader options >>? if_owned

    unfoldable pub controlled_list_single_and_delete :
        Reader → Side → ListOptions → Prog (Result (Unit {0}))
    unfolding controlled_list_single
    controlled_list_single_and_delete reader side options =
        controlled_list_single reader options >>? λ obj.
        perform (delete side kind (key_of (metadata_of kind obj)))

    abbrev pub then_own : Result (Obj kind) → Result (Obj kind)
    then_own (err e) = err e
    then_own (ok obj) = elim (local.set_controller_reference owner (metadata_of kind obj)) [
      | err e ↦ err e
      | ok metadata ↦ ok (with_metadata kind obj metadata)
    ]

    -- The closure that `ControlledListSingleGenerateOrPatch` passes on.
    unfoldable pub controlled_mutate : (Obj kind → Result (Obj kind)) → Obj kind → Result (Obj kind)
    controlled_mutate f obj =
        if not ((metadata_of kind obj).resource_version == "")
        then (if not (local.is_controlled_by (metadata_of kind obj) owner.metadata)
            then err not_owned
            else f obj)
        else then_own (f obj)

    unfoldable pub controlled_list_single_generate_or_patch :
        Reader
        → Side
        → Obj kind
        → (Obj kind → Result (Obj kind))
        → ListOptions
        → Prog (Result (Obj kind))
    unfolding list_single_generate_or_patch controlled_mutate
    controlled_list_single_generate_or_patch reader side obj f =
        list_single_generate_or_patch reader side obj (controlled_mutate f)
