-- ===== src/Provider/Registered.antt =====
-- Registering a provider: once, and without an effect on the other types.
use poollet.Base.{true, ◌≡◌, eq_iff, arith, inl, inr, ◌≢◌}
use poollet.Errors.{ok, Result-cases}
use poollet.Api.Metadata.{Kind, GroupVersionKind, Machinery}
use poollet.Provider.{Providers, gvk_eq, find_provider, type_provider_for, register}

pub gvk_eq_self : (g : GroupVersionKind) → gvk_eq g g ≡ true
gvk_eq_self g =
    let group = g.group_version.group in
    let version = g.group_version.version in
    ground (arith, eq_iff group group, eq_iff version version, eq_iff g.kind g.kind)

pub gvk_eq-eq : (g h : GroupVersionKind) → gvk_eq g h ≡ true → g ≡ h
gvk_eq-eq g h e = ground (
  arith,
  eq_iff g.group_version.group h.group_version.group,
  eq_iff g.group_version.version h.group_version.version,
  eq_iff g.kind h.kind,
)

module _ {P : Type 0} (k : Machinery) (providers providers' : Providers P) (object : Kind)
    (p : P) where
  found-register :
      register k providers object p ≡ ok providers'
      → (type_provider_for k providers' object ≡ ok p)
        × ((q : P) (again : Providers P) → register k providers' object q ≢ ok again)
  unfolding type_provider_for register find_provider
  found-register h = elim (Result-cases (k.gvk_for_object object)) [
    | inr (e, failed) ↦ absurd (ground arith)
    | inl (gvk, found) ↦
        (ground (arith, gvk_eq_self gvk), λ q again. ground (arith, gvk_eq_self gvk))
  ]

  other-register :
      (other : Kind) (g h : GroupVersionKind)
      → k.gvk_for_object object ≡ ok g
      → k.gvk_for_object other ≡ ok h
      → g ≢ h
      → register k providers object p ≡ ok providers'
      → type_provider_for k providers' other ≡ type_provider_for k providers other
  unfolding type_provider_for register find_provider
  other-register other g h eg eh ne r = ground (arith, gvk_eq-eq g h)

  -- A provider that was registered is found for its type, registering again for that type is
  -- refused, and the provider of a type with another group, version or kind stays as it was.
  pub type_provider_for-register :
      (other : Kind) (g h : GroupVersionKind)
      → k.gvk_for_object object ≡ ok g
      → k.gvk_for_object other ≡ ok h
      → g ≢ h
      → register k providers object p ≡ ok providers'
      → (type_provider_for k providers' object ≡ ok p)
        × ((q : P) (again : Providers P) → register k providers' object q ≢ ok again)
        × (type_provider_for k providers' other ≡ type_provider_for k providers other)
  type_provider_for-register other g h eg eh ne r =
      let (found, refused) = found-register r in
      (found, refused, other-register other g h eg eh ne r)
