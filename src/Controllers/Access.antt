-- ===== src/Controllers/Access.antt =====
-- broker/controllers/storage/volume.go: the applier of a volume's access, and the patch of a
-- volume's status. `now` is the time that the patch sets.
pub mod Returned
use Prim.Native.String.{◌++◌}
use poollet.Base.{ℕ, String, not, ◌==◌, [], ◌∷◌, Option, none, some, if◌then◌else◌}
use poollet.Base.Dict.{insert}
use poollet.Errors.{Result, ok, err, wrap}
use poollet.Api.Metadata.{Machinery, volume, secret}
use poollet.Api.Objects.{Volume, VolumeAccess, Secret, meta_object}
use poollet.Prog.{
  Prog, done, perform, ◌>>=◌, ListOptions, source, target, cached, live, get, patch_status,
}
use poollet.Domain.{Domain, slash}
use poollet.SingleClient.Generate.{
  LocalControllers, controlled_list_single_and_delete, controlled_list_single_generate_or_patch,
}
use poollet.Controllers.Common.{target_object}
use poollet.Controllers.Apply.{key_beside}

module _ (k : Machinery) (local : LocalControllers) (domain : Domain) where
  unfoldable pub access_volume_uid_label : String
  unfolding slash
  access_volume_uid_label = slash domain "access-volume-uid"

  -- The options of both list calls, with or without the namespace.
  abbrev pub access_options : Option String → Volume → ListOptions
  access_options namespace obj = record {
    namespace = namespace;
    fields = [];
    labels = (access_volume_uid_label, obj.metadata.uid) ∷ [];
  }

  abbrev pub without_secret : Option VolumeAccess → Option VolumeAccess
  without_secret none = none
  without_secret (some access) = some (record access { secret_ref = none })

  -- The part without an access secret: an error of the deletion is only logged.
  unfoldable pub prune_access : Volume → Option VolumeAccess → Prog (Result (Option VolumeAccess))
  unfolding controlled_list_single_and_delete
  prune_access obj access =
      controlled_list_single_and_delete k secret local (meta_object volume obj) (live source) source
        (access_options (some obj.metadata.namespace) obj)
      >>= λ _. done (ok (without_secret access))

  -- The access secret before its creation.
  unfoldable pub fresh_access_secret : Volume → Secret
  fresh_access_secret obj = record {
    metadata = record (target_object obj.metadata.namespace "") {
      generate_name = obj.metadata.name ++ "-access-";
    };
    contents = [];
  }

  -- The mutation of the access secret.
  unfoldable pub copy_access : Volume → Secret → Secret → Result Secret
  unfolding access_volume_uid_label insert
  copy_access obj target_access_secret s = ok (record s {
    metadata = record s.metadata {
      labels = insert access_volume_uid_label obj.metadata.uid s.metadata.labels;
    };
    contents = target_access_secret.contents;
  })

  unfoldable pub apply_access_secret :
      Volume → VolumeAccess → Secret → Prog (Result (Option VolumeAccess))
  unfolding controlled_list_single_generate_or_patch fresh_access_secret copy_access
  apply_access_secret obj access target_access_secret =
      controlled_list_single_generate_or_patch k secret local (meta_object volume obj) (live source)
        source (fresh_access_secret obj) (copy_access obj target_access_secret)
        (access_options none obj)
      >>= elim [
        | err e ↦ done (err (wrap "error generating / patching access secret" e))
        | ok s ↦ done (ok (some (record access { secret_ref = some s.metadata.name })))
      ]

  -- With a reference to an access secret of the target.
  abbrev pub with_secret :
      Volume → Volume → VolumeAccess → Option String → Prog (Result (Option VolumeAccess))
  with_secret obj target_volume access none = prune_access obj (some access)
  with_secret obj target_volume access (some name) =
      perform (get (cached target) secret (key_beside target_volume.metadata name)) >>= elim [
        | err e ↦ done (err (wrap "error getting target access secret" e))
        | ok s ↦ apply_access_secret obj access s
      ]

  abbrev pub apply_access_of :
      Volume → Volume → Option VolumeAccess → Prog (Result (Option VolumeAccess))
  apply_access_of obj target_volume none = prune_access obj none
  apply_access_of obj target_volume (some access) =
      with_secret obj target_volume access access.secret_ref

  unfoldable pub apply_access : Volume → Volume → Prog (Result (Option VolumeAccess))
  unfolding prune_access apply_access_secret
  apply_access obj target_volume = apply_access_of obj target_volume target_volume.access

-- What the status is patched to.
unfoldable pub with_volume_status : ℕ → Volume → String → Option VolumeAccess → Volume
with_volume_status now obj state access = record obj {
  state = state;
  access = access;
  last_state_transition_time =
      if not (obj.state == state) then some now else obj.last_state_transition_time;
}

unfoldable pub patch_volume_status :
    ℕ → Volume → String → Option VolumeAccess → Prog (Result (Unit {0}))
unfolding with_volume_status
patch_volume_status now obj state access =
    perform (patch_status source volume obj (with_volume_status now obj state access))
    >>= elim [ err e ↦ done (err (wrap "error patching volume status" e)) | ok _ ↦ done (ok tt) ]
