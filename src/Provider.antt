-- ===== src/Provider.antt =====
-- broker/provider/provider.go: the registry of target providers, and how a handler finds the target
-- namespace of an object.
pub mod Registered
use poollet.Base.{
  String, Bool, true, false, ◌==◌, if◌then◌else◌, List, [], ◌∷◌, Option, none, some, ◌&&◌,
}
use poollet.Errors.{Result, ok, err, Error, message}
use poollet.Api.Metadata.{Kind, Metadata, GroupVersionKind, Machinery, namespace}
use poollet.Prog.{Prog, done, call, ObjectKey, provider_target, or_fail, ◌>>?◌, perform}

unfoldable pub target_namespace_for : Metadata → Prog (Result String)
target_namespace_for obj =
    if obj.namespace == ""
    then done (err (message "object does not have a namespace set"))
    else perform (provider_target namespace (record { namespace = ""; name = obj.namespace }))
      >>? λ target_namespace. done (ok target_namespace.metadata.name)

-- The registry maps the type of an object to its provider, which has the type `P`.
abbrev pub Providers : Type 0 → Type 0
Providers P = List (GroupVersionKind × P)

abbrev pub gvk_eq : GroupVersionKind → GroupVersionKind → Bool
gvk_eq a b =
    a.group_version.group == b.group_version.group
    && (a.group_version.version == b.group_version.version && a.kind == b.kind)

module _ {P : Type 0} where
  unfoldable pub find_provider : GroupVersionKind → Providers P → Option P
  find_provider gvk [] = none
  find_provider gvk ((g, p) ∷ rest) = if gvk_eq g gvk then some p else find_provider gvk rest

  abbrev or_missing : Option P → Result P
  or_missing none = err (message "no provider registered")
  or_missing (some p) = ok p

  abbrev absent_or : Option P → Result (Providers P) → Result (Providers P)
  absent_or none r = r
  absent_or (some p) r = err (message "already registered provider")

module _ (k : Machinery) {P : Type 0} where
  unfoldable pub type_provider_for : Providers P → Kind → Result P
  unfolding find_provider
  type_provider_for providers object = elim (k.gvk_for_object object) [
    | err e ↦ err e
    | ok gvk ↦ or_missing (find_provider gvk providers)
  ]

  unfoldable pub register : Providers P → Kind → P → Result (Providers P)
  unfolding find_provider
  register providers object provider = elim (k.gvk_for_object object) [
    | err e ↦ err e
    | ok gvk ↦ absent_or (find_provider gvk providers) (ok ((gvk, provider) ∷ providers))
  ]
