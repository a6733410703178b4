-- ===== src/Examples/Volumes.antt =====
-- The theorems on volumes and on the tests of usage, each at a concrete run.
use poollet.BrokerClient.{broker_controlled_create_or_patch}
use poollet.Helpers.{machine_runs_in_machine_pool}
use poollet.Base.{true, false, [], ◌∷◌, some, ◌≡◌, refl}
use poollet.Base.Dict.{insert, remove, lookup}
use poollet.Errors.{ignore_not_found, ok, err, not_found, not_synced}
use poollet.Api.Metadata.{namespace}
use poollet.Api.Objects.{Namespace, Volume}
use poollet.Prog.Trace.{Accepts, after}
use poollet.Prog.Replay.{Replies, trace_of, run_of, result_of}
use poollet.Multicluster.OwnerRefs.{upsert_owner_ref, set_controller_reference}
use poollet.Multicluster.Meta.{
  set_object_meta, set_owner_references, get_controller_of, get_object_meta, get_owner_references,
  object_meta_annotation,
}
use poollet.Usage.{
  is_volume_used_by_machine_in_machine_pool_cached, is_network_interface_used_live,
  is_network_interface_used_cached, is_network_interface_used_cached_or_live,
  is_volume_used_cached_or_live,
}
use poollet.Usage.Answer.{
  see, unasked, AllowedNic, AnswersNic, AllowedVolume, AnswersVolume,
  is_network_interface_used-answer, is_volume_used-answer,
}
use poollet.Controllers.VolumeAppliers.{proxy_apply_target, sync_apply_target, sync_delete_target}
use poollet.Examples.Codec.{machinery, encode}
use poollet.Examples.Objects.{
  config, shared, source_nic, source_machine, source_volume, target_namespace, owned_by,
  source_namespace,
}

-- The cache has no machine, and the server has the one that uses the interface.
abbrev nic_replies : Replies (is_network_interface_used_cached_or_live shared "pool" source_nic)
unfolding is_network_interface_used_cached_or_live is_network_interface_used_cached ignore_not_found
    is_network_interface_used_live machine_runs_in_machine_pool
nic_replies = (err not_found, (ok source_machine, tt))

is_network_interface_used-answer_example :
    Accepts see
      (AllowedNic shared "pool" source_nic)
      unasked
      (trace_of (is_network_interface_used_cached_or_live shared "pool" source_nic) nic_replies)
    × AnswersNic shared "pool" source_nic
        (after see (AllowedNic shared "pool" source_nic) unasked (
          trace_of (is_network_interface_used_cached_or_live shared "pool" source_nic) nic_replies))
        (result_of (is_network_interface_used_cached_or_live shared "pool" source_nic) nic_replies)
is_network_interface_used-answer_example =
    is_network_interface_used-answer shared "pool" source_nic
      (run_of (is_network_interface_used_cached_or_live shared "pool" source_nic) nic_replies)

-- A volume that a machine claims, and that is controlled by a machine of the other cluster.
abbrev claimed : Volume
claimed = record source_volume {
  metadata = record (owned_by (some true)) { name = "disk" };
  claim_ref = some (record { name = "m"; uid = "1234" });
}

abbrev volume_replies : Replies (is_volume_used_cached_or_live shared "pool" claimed)
unfolding is_volume_used_cached_or_live is_volume_used_by_machine_in_machine_pool_cached
    machine_runs_in_machine_pool
volume_replies = (ok source_machine, tt)

is_volume_used-answer_example :
    Accepts see
      (AllowedVolume shared "pool" claimed)
      unasked
      (trace_of (is_volume_used_cached_or_live shared "pool" claimed) volume_replies)
    × AnswersVolume shared "pool" claimed
        (after see
          (AllowedVolume shared "pool" claimed)
          unasked
          (trace_of (is_volume_used_cached_or_live shared "pool" claimed) volume_replies))
        (result_of (is_volume_used_cached_or_live shared "pool" claimed) volume_replies)
is_volume_used-answer_example =
    is_volume_used-answer shared "pool" claimed
      (run_of (is_volume_used_cached_or_live shared "pool" claimed) volume_replies)

abbrev proxy_replies : Replies (proxy_apply_target machinery "main" claimed)
unfolding proxy_apply_target get_owner_references get_object_meta lookup
proxy_replies = (ok source_volume, (ok source_volume, tt))

abbrev apply_replies : Replies (sync_apply_target machinery config false claimed)
unfolding sync_apply_target broker_controlled_create_or_patch
apply_replies = (ok target_namespace, (ok source_machine, (ok source_volume, tt)))

-- The namespace is not synced, so the deletion is done at once.
abbrev delete_replies : Replies (sync_delete_target machinery config false claimed)
unfolding sync_delete_target
delete_replies = (err (not_synced "namespaces" "default"), tt)

-- A target namespace, with the source namespace as its controller.
abbrev pub controlled_namespace : Namespace
controlled_namespace = record {
  metadata = record target_namespace.metadata {
    annotations =
        (
          object_meta_annotation,
          encode (
              record {
                cluster_name = "main";
                api_version = "v1";
                kind = "Namespace";
                namespace = "";
                name = "default";
                uid = "99";
                controller = some true;
              }
              ∷ []),
        )
        ∷ [];
  };
}

pub made_controlled :
    set_controller_reference machinery "main"
      (record { kind = some namespace; metadata = source_namespace.metadata })
      target_namespace.metadata
    ≡ ok controlled_namespace.metadata
unfolding set_controller_reference get_controller_of get_owner_references get_object_meta lookup
    upsert_owner_ref set_owner_references set_object_meta remove insert
made_controlled = refl
