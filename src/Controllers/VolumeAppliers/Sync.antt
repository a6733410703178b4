-- ===== src/Controllers/VolumeAppliers/Sync.antt =====
-- The sync applier reads while it collects its mutations, and what it deletes and reports.
use poollet.Base.{String, Bool, true, ◌≡◌, none, some, ◌⊎◌}
use poollet.Errors.{Result, ok, err}
use poollet.Api.Metadata.{Machinery, volume, namespace}
use poollet.Api.Objects.{Volume}
use poollet.Prog.{done, ObjectKey, Op, target, delete_if_exists, provider_target}
use poollet.Protocol.{Progress, start}
use poollet.Protocol.Quiet.{Quiet, Quiet-then, Quiet-if, Quiet-option}
use poollet.Sync.{empty_builder}
use poollet.Controllers.Common.{Config}
use poollet.Controllers.Apply.{with_target-Quiet}
use poollet.Controllers.VolumeAppliers.{
  register_all, register_image_pull_secret_mutation, register_claim_mutation,
  register_default_mutation,
}

module _ (k : Machinery) (r : Config) (unclaimable : Bool) (obj : Volume) where
  pub register_all-Quiet : Quiet (register_all k r unclaimable obj)
  unfolding register_all register_image_pull_secret_mutation register_claim_mutation
  register_all-Quiet =
      Quiet-then _ (register_claim_mutation k r unclaimable obj)
        (Quiet-then (register_image_pull_secret_mutation k r unclaimable obj empty_builder)
          (λ b. done (register_default_mutation k r unclaimable obj b))
          (Quiet-option obj.image_pull_secret_ref _ _ tt λ ref. search with_target-Quiet) λ b. tt)
        λ b.
          Quiet-if unclaimable _ _ tt
            (Quiet-option obj.claim_ref _ _ tt λ ref. search with_target-Quiet)

  -- The key is that of the target: the volume's own name in the target namespace.
  abbrev pub IsTarget : Progress → ObjectKey → Type 0
  IsTarget s key = (s.target_namespace ≡ some key.namespace) × (key.name ≡ obj.metadata.name)

  -- The one write is the deletion of the target.
  abbrev pub AllowedDelete : Progress → Op → Type 0
  AllowedDelete s (delete_if_exists target volume key) = IsTarget s key
  AllowedDelete s (provider_target namespace key) =
      key ≡ record { namespace = ""; name = obj.metadata.namespace }
  AllowedDelete s _ = ⊥

  -- Done means that the target is gone, or that no target namespace was named at all.
  abbrev pub IsDone : Progress → Result Bool → Type 0
  IsDone s (ok true) =
      (s.target_namespace ≡ none) ⊎ ((key : ObjectKey) × (s.gone ≡ some key) × IsTarget s key)
  IsDone s _ = Unit

  -- The lookup of the target namespace: named, or not.
  abbrev Looked : Progress → Result String → Type 0
  Looked s (ok ns) = s ≡ record start { target_namespace = some ns }
  Looked s (err e) = s.target_namespace ≡ none
