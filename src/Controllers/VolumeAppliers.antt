-- ===== src/Controllers/VolumeAppliers.antt =====
-- broker/controllers/storage/volume.go: the ways to apply, find and delete the target of a volume.
pub mod Proxy
pub mod Sync
use poollet.Base.{String, Bool, true, false, not, ◌==◌, [], Option, none, some, if◌then◌else◌}
use poollet.Base.Dict.{Dict}
use poollet.Errors.{
  Result, ok, err, Error, message, wrap, is_not_found, ignore_not_synced, new_not_synced,
}
use poollet.Api.Metadata.{Machinery, Metadata, volume, secret, machine}
use poollet.Api.Objects.{Volume, LocalUidReference, meta_object}
use poollet.Multicluster.Reference.{OwnerReference}
use poollet.Multicluster.Meta.{get_controller_of}
use poollet.Multicluster.OwnerRefs.{
  set_owner_reference, remove_owner_reference, has_owner_reference,
}
use poollet.Prog.{
  Prog, done, perform, ◌>>=◌, ◌>>?◌, ObjectKey, source, target, cached, get, patch,
  delete_if_exists,
}
use poollet.Provider.{target_namespace_for}
use poollet.Sync.{CompositeMutationBuilder, empty_builder, add, set_partial}
use poollet.BrokerClient.{broker_controlled_create_or_patch}
use poollet.Controllers.Common.{Config, key_in, target_object}
use poollet.Controllers.Apply.{key_beside, with_target, apply_builder}

-- The interface `VolumeApplier`.
pub record VolumeApplier : Type 0 where
  pub apply_target : Volume → Prog (Result (Option Volume × Bool))
  pub get_target : Volume → Prog (Result Volume)
  pub delete_target : Volume → Prog (Result Bool)

abbrev pub no_broker_controller : Error
no_broker_controller = message "volume does not have broker controller set"

-- `return true, err` where `err` may be nil
abbrev pub done_or : Option Error → Result Bool
done_or none = ok true
done_or (some e) = err e

abbrev pub key_of_ref : OwnerReference → ObjectKey
key_of_ref ref = record { namespace = ref.namespace; name = ref.name }

module _ (k : Machinery) (cluster_name : String) where
  -- The patch of the proxied target that stores its new metadata.
  abbrev pub attach : Volume → Result Metadata → Prog (Result (Option Volume × Bool))
  attach t (err e) = done (err (wrap "error setting target broker owner reference" e))
  attach t (ok metadata) =
      perform (patch target volume t (record t { metadata = metadata })) >>= elim [
        | err e ↦ done (err (wrap "error patching target" e))
        | ok patched ↦ done (ok (some patched, false))
      ]

  unfoldable pub proxy_apply_target : Volume → Prog (Result (Option Volume × Bool))
  unfolding get_controller_of set_owner_reference
  proxy_apply_target obj = elim (get_controller_of k obj.metadata) [
    | none ↦ done (err no_broker_controller)
    | some ctrl ↦ perform (get (cached target) volume (key_of_ref ctrl)) >>= elim [
      | err e ↦ done (err (wrap "error getting brokered target" e))
      | ok t ↦ attach t (set_owner_reference k cluster_name (meta_object volume obj) t.metadata)
    ]
  ]

  abbrev if_owned : Volume → Volume → Result Bool → Result Volume
  if_owned obj t (err e) = err e
  if_owned obj t (ok true) = ok t
  if_owned obj t (ok false) = err (new_not_synced "volumes" obj.metadata.name)

  unfoldable pub proxy_get_target : Volume → Prog (Result Volume)
  unfolding get_controller_of has_owner_reference
  proxy_get_target obj = elim (get_controller_of k obj.metadata) [
    | none ↦ done (err no_broker_controller)
    | some ctrl ↦ perform (get (cached target) volume (key_of_ref ctrl)) >>= elim [
      | err e ↦ done (err e)
      | ok t ↦
          done (
            if_owned obj t (has_owner_reference k cluster_name (meta_object volume obj) t.metadata))
    ]
  ]

  abbrev pub done_if_not_found : String → Error → Result Bool
  done_if_not_found text e = if not (is_not_found (some e)) then err (wrap text e) else ok true

  abbrev pub release : Volume → Result Metadata → Prog (Result Bool)
  release t (err e) = done (err (wrap "error removing target owner reference" e))
  release t (ok metadata) =
      perform (patch target volume t (record t { metadata = metadata })) >>= elim [
        | err e ↦ done (done_if_not_found "error patching target" e)
        | ok _ ↦ done (ok true)
      ]

  unfoldable pub proxy_delete_target : Volume → Prog (Result Bool)
  unfolding get_controller_of remove_owner_reference
  proxy_delete_target obj = elim (get_controller_of k obj.metadata) [
    | none ↦ done (err no_broker_controller)
    | some ctrl ↦ perform (get (cached target) volume (key_of_ref ctrl)) >>= elim [
      | err e ↦ done (done_if_not_found "error getting target" e)
      | ok t ↦ release t (remove_owner_reference k cluster_name (meta_object volume obj) t.metadata)
    ]
  ]

  unfoldable pub proxy_volume_applier : VolumeApplier
  unfolding proxy_apply_target proxy_get_target proxy_delete_target
  proxy_volume_applier = record {
    apply_target = proxy_apply_target;
    get_target = proxy_get_target;
    delete_target = proxy_delete_target;
  }

abbrev pub Builder : Type 0
Builder = CompositeMutationBuilder Volume

abbrev set_pull_secret : Option String → Volume → Volume
set_pull_secret ref t = record t { image_pull_secret_ref = ref }

abbrev set_claim : Option LocalUidReference → Volume → Volume
set_claim ref t = record t { claim_ref = ref }

module _ (k : Machinery) (r : Config) (unclaimable : Bool) where
  unfoldable pub register_image_pull_secret_mutation : Volume → Builder → Prog (Result Builder)
  unfolding add set_partial with_target
  register_image_pull_secret_mutation obj b = elim obj.image_pull_secret_ref [
    | none ↦ done (ok (add (set_pull_secret none) b))
    | some name ↦
        with_target secret (key_beside obj.metadata name)
          "error getting target image pull secret key" (done tt) (set_partial b)
          λ s. add (set_pull_secret (some s.metadata.name)) b
  ]

  unfoldable pub register_claim_mutation : Volume → Builder → Prog (Result Builder)
  unfolding add with_target
  register_claim_mutation obj b =
      if unclaimable
      then done (ok (add (λ (t : Volume). record t { claim_ref = none; unclaimable = true }) b))
      else elim obj.claim_ref [
        | none ↦ done (ok (add (set_claim none) b))
        | some ref ↦
            with_target machine (key_beside obj.metadata ref.name) "error getting machine target"
              (done tt) (add (set_claim none) b)
              λ m.
                add (set_claim (some (record { name = m.metadata.name; uid = m.metadata.uid }))) b
      ]

  abbrev pool_ref : Option String → Option String
  pool_ref (some name) = some name
  pool_ref none = if r.target_pool_name == "" then none else some r.target_pool_name

  abbrev set_defaults : Volume → Volume → Volume
  set_defaults obj t = record t {
    volume_class_ref = obj.volume_class_ref;
    volume_pool_selector = r.target_pool_labels;
    volume_pool_ref = pool_ref t.volume_pool_ref;
    resources = obj.resources;
    image = obj.image;
  }

  unfoldable pub register_default_mutation : Volume → Builder → Result Builder
  unfolding add
  register_default_mutation obj b = ok (add (set_defaults obj) b)

  abbrev pub fresh_target : String → Volume → Volume
  fresh_target target_namespace obj = record {
    metadata = target_object target_namespace obj.metadata.name;
    volume_class_ref = "";
    volume_pool_selector = [];
    volume_pool_ref = none;
    claim_ref = none;
    unclaimable = false;
    resources = "";
    image = "";
    image_pull_secret_ref = none;
    state = "";
    last_state_transition_time = none;
    access = none;
  }

  unfoldable pub register_all : Volume → Prog (Result Builder)
  unfolding register_image_pull_secret_mutation register_claim_mutation register_default_mutation
  register_all obj =
      register_image_pull_secret_mutation obj empty_builder
      >>? (λ b. done (register_default_mutation obj b))
      >>? register_claim_mutation obj

  unfoldable pub sync_apply_target : Volume → Prog (Result (Option Volume × Bool))
  unfolding target_namespace_for register_all
  sync_apply_target obj = target_namespace_for obj.metadata >>? λ target_namespace.
      register_all obj
      >>? apply_builder k r.cluster_name volume volume obj (fresh_target target_namespace obj)

  unfoldable pub sync_get_target : Volume → Prog (Result Volume)
  unfolding target_namespace_for
  sync_get_target obj = target_namespace_for obj.metadata >>? λ target_namespace.
      perform (get (cached target) volume (key_in target_namespace obj.metadata)) >>= elim [
        | ok t ↦ done (ok t)
        | err e ↦ done (
            err (
              if not (is_not_found (some e))
              then wrap "error getting target volume" e
              else new_not_synced "volumes" obj.metadata.name))
      ]

  unfoldable pub sync_delete_target : Volume → Prog (Result Bool)
  unfolding target_namespace_for
  sync_delete_target obj = target_namespace_for obj.metadata >>= elim [
    | err e ↦ done (done_or (ignore_not_synced (some e)))
    | ok target_namespace ↦
        perform (delete_if_exists target volume (key_in target_namespace obj.metadata)) >>= elim [
          | err e ↦ done (err (wrap "error deleting volume" e))
          | ok existed ↦ done (ok (not existed))
        ]
  ]

  unfoldable pub sync_volume_applier : VolumeApplier
  unfolding sync_apply_target sync_get_target sync_delete_target
  sync_volume_applier = record {
    apply_target = sync_apply_target;
    get_target = sync_get_target;
    delete_target = sync_delete_target;
  }
