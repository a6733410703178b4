-- ===== src/Usage/Reading.antt =====
-- The tests of usage only read.
use poollet.Base.{Option, if◌then◌else◌, Bool, true, false, not, none, some, List, [], ◌∷◌, String}
use poollet.Errors.{Result, ok, err, is_not_found}
use poollet.Api.Metadata.{Metadata}
use poollet.Api.Objects.{NetworkInterface, Network, AliasPrefix, VirtualIp, LocalUidReference}
use poollet.Prog.{Prog, Reader, done, ◌>>=◌}
use poollet.Protocol.Reads.{Reads, Reads-bind}
use poollet.Dependents.{or_else}
use poollet.Dependents.References.{or_else-Reads}
use poollet.Helpers.{Shared, network_interface_references_network_name}
use poollet.Usage.{
  is_network_interface_used_cached, is_network_interface_used_live,
  is_network_interface_used_cached_or_live, any_destination_used, is_alias_prefix_used_cached,
  is_alias_prefix_used_live, is_alias_prefix_used_cached_or_live, any_nic_used,
  any_nic_of_network_used, list_network_interfaces_referencing_network_key, is_network_used_cached,
  is_network_used_live, is_network_used_cached_or_live, is_virtual_ip_used_cached,
  is_virtual_ip_used_live, is_virtual_ip_used_cached_or_live,
}

-- The test by the cache, then by the server, then no.
or_else_twice-Reads :
    (p q : Prog (Result Bool))
    → Reads p
    → Reads q
    → Reads (p >>= or_else (q >>= or_else (done (ok false))))
or_else_twice-Reads p q hp hq =
    Reads-bind p _ hp λ r. or_else-Reads _ r (Reads-bind q _ hq λ r'. or_else-Reads _ r' tt)

-- A test of an object that may be absent.
when_some-Reads :
    {R : Type 0} (ref : Option R) (f : R → Prog (Result Bool))
    → ((r : R) → Reads (f r))
    → Reads (elim ref [ none ↦ done (ok false) | some r ↦ f r ])
when_some-Reads none f h = tt
when_some-Reads (some r) f h = h r

if-Reads : (b : Bool) (p q : Prog (Result Bool)) → Reads p → Reads q → Reads (if b then p else q)
if-Reads true p q hp hq = hp
if-Reads false p q hp hq = hq

module _ (sh : Shared) (pool_name : String) where
  nic_cached-Reads :
      (nic : NetworkInterface) → Reads (is_network_interface_used_cached sh pool_name nic)
  unfolding is_network_interface_used_cached
  nic_cached-Reads nic = when_some-Reads nic.machine_ref _ λ ref. elim [ err e ↦ tt | ok m ↦ tt ]

  nic_live-Reads :
      (nic : NetworkInterface) → Reads (is_network_interface_used_live sh pool_name nic)
  unfolding is_network_interface_used_live
  nic_live-Reads nic = when_some-Reads nic.machine_ref _ λ ref. elim [ err e ↦ tt | ok m ↦ tt ]

  pub is_network_interface_used-Reads :
      (nic : NetworkInterface) → Reads (is_network_interface_used_cached_or_live sh pool_name nic)
  unfolding is_network_interface_used_cached_or_live
  is_network_interface_used-Reads nic =
      or_else_twice-Reads _ _ (nic_cached-Reads nic) (nic_live-Reads nic)

  any_destination_used-Reads :
      (used : NetworkInterface → Prog (Result Bool)) (reader : Reader) (obj : Metadata)
      (destinations : List LocalUidReference)
      → ((nic : NetworkInterface) → Reads (used nic))
      → Reads (any_destination_used sh pool_name used reader obj destinations)
  unfolding any_destination_used
  any_destination_used-Reads used reader obj [] h = tt
  any_destination_used-Reads used reader obj (d ∷ destinations) h =
      let rest = any_destination_used-Reads used reader obj destinations h in
      elim [
        | err e ↦ if-Reads (not (is_not_found (some e))) _ _ tt rest
        | ok nic ↦ Reads-bind (used nic) _ (h nic) λ r. or_else-Reads _ r rest
      ]

  alias_prefix_cached-Reads :
      (obj : AliasPrefix) → Reads (is_alias_prefix_used_cached sh pool_name obj)
  unfolding is_alias_prefix_used_cached
  alias_prefix_cached-Reads obj = elim [
    | err e ↦ tt
    | ok routing ↦ any_destination_used-Reads _ _ obj.metadata routing.destinations nic_cached-Reads
  ]

  alias_prefix_live-Reads : (obj : AliasPrefix) → Reads (is_alias_prefix_used_live sh pool_name obj)
  unfolding is_alias_prefix_used_live
  alias_prefix_live-Reads obj = elim [
    | err e ↦ tt
    | ok routing ↦ any_destination_used-Reads _ _ obj.metadata routing.destinations nic_live-Reads
  ]

  pub is_alias_prefix_used-Reads :
      (obj : AliasPrefix) → Reads (is_alias_prefix_used_cached_or_live sh pool_name obj)
  unfolding is_alias_prefix_used_cached_or_live
  is_alias_prefix_used-Reads obj =
      or_else_twice-Reads _ _ (alias_prefix_cached-Reads obj) (alias_prefix_live-Reads obj)

  any_nic_used-Reads :
      (used : NetworkInterface → Prog (Result Bool)) (nics : List NetworkInterface)
      → ((nic : NetworkInterface) → Reads (used nic))
      → Reads (any_nic_used sh pool_name used nics)
  unfolding any_nic_used
  any_nic_used-Reads used [] h = tt
  any_nic_used-Reads used (nic ∷ nics) h =
      Reads-bind (used nic) _ (h nic) λ r. or_else-Reads _ r (any_nic_used-Reads used nics h)

  any_nic_of_network_used-Reads :
      (used : NetworkInterface → Prog (Result Bool)) (network_name : String)
      (nics : List NetworkInterface)
      → ((nic : NetworkInterface) → Reads (used nic))
      → Reads (any_nic_of_network_used sh pool_name used network_name nics)
  unfolding any_nic_of_network_used
  any_nic_of_network_used-Reads used network_name [] h = tt
  any_nic_of_network_used-Reads used network_name (nic ∷ nics) h =
      let rest = any_nic_of_network_used-Reads used network_name nics h in
      if-Reads (not (network_interface_references_network_name nic network_name)) _ _ rest
        (Reads-bind (used nic) _ (h nic) λ r. or_else-Reads _ r rest)

  network_cached-Reads : (obj : Network) → Reads (is_network_used_cached sh pool_name obj)
  unfolding is_network_used_cached list_network_interfaces_referencing_network_key
  network_cached-Reads obj = elim [
    | err e ↦ tt
    | ok nics ↦ any_nic_used-Reads _ nics nic_cached-Reads
  ]

  network_live-Reads : (obj : Network) → Reads (is_network_used_live sh pool_name obj)
  unfolding is_network_used_live
  network_live-Reads obj = elim [
    | err e ↦ tt
    | ok nics ↦ any_nic_of_network_used-Reads _ obj.metadata.name nics nic_live-Reads
  ]

  pub is_network_used-Reads :
      (obj : Network) → Reads (is_network_used_cached_or_live sh pool_name obj)
  unfolding is_network_used_cached_or_live
  is_network_used-Reads obj =
      or_else_twice-Reads _ _ (network_cached-Reads obj) (network_live-Reads obj)

  virtual_ip_cached-Reads : (obj : VirtualIp) → Reads (is_virtual_ip_used_cached sh pool_name obj)
  unfolding is_virtual_ip_used_cached
  virtual_ip_cached-Reads obj =
      when_some-Reads obj.target_ref _ λ ref. elim [ err e ↦ tt | ok nic ↦ nic_cached-Reads nic ]

  virtual_ip_live-Reads : (obj : VirtualIp) → Reads (is_virtual_ip_used_live sh pool_name obj)
  unfolding is_virtual_ip_used_live
  virtual_ip_live-Reads obj =
      when_some-Reads obj.target_ref _ λ ref. elim [ err e ↦ tt | ok nic ↦ nic_live-Reads nic ]

  pub is_virtual_ip_used-Reads :
      (obj : VirtualIp) → Reads (is_virtual_ip_used_cached_or_live sh pool_name obj)
  unfolding is_virtual_ip_used_cached_or_live
  is_virtual_ip_used-Reads obj =
      or_else_twice-Reads _ _ (virtual_ip_cached-Reads obj) (virtual_ip_live-Reads obj)
