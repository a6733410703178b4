-- ===== src/Usage/Answer.antt =====
-- What the answer of a test of usage says of the machines that were read, and which are read.
use poollet.Base.{
  String, Bool, true, false, ◌≡◌, ◌==◌, refl, ◌⊎◌, inl, inr, Bool-cases, Option, none, some, List,
  [], ◌∷◌, arith, eq_iff, if◌then◌else◌,
}
use poollet.Errors.{Result, ok, err, is_not_found, ignore_not_found}
use poollet.Api.Metadata.{Metadata, machine}
use poollet.Api.Objects.{Machine, NetworkInterface, Volume, LocalUidReference}
use poollet.Prog.{
  Prog, Op, Reply, Reader, ObjectKey, cached, live, source, done, ◌>>=◌, get, perform,
}
use poollet.Prog.Trace.{Runs, Exchange, Accepts, Accepts-Runs, after, Safe}
use poollet.Dependents.{or_else}
use poollet.Helpers.{Shared, has_name, refers_to, machine_runs_in_machine_pool}
use poollet.Usage.{
  claims, false_or, key_beside, is_network_interface_used_cached, is_network_interface_used_live,
  is_network_interface_used_cached_or_live, is_volume_used_cached_or_live,
  is_volume_used_by_machine_in_machine_pool_cached, is_volume_used_by_machine_in_machine_pool_live,
}

-- What each reader has said: nothing yet, or that there is no such machine, or the machine.
pub record Seen : Type 0 where
  pub by_cache : Option (Option Machine)
  pub by_server : Option (Option Machine)

abbrev pub unasked : Seen
unasked = record { by_cache = none; by_server = none }

abbrev pub said : Result Machine → Option (Option Machine)
said (ok m) = some (some m)
said (err e) = if is_not_found (some e) then some none else none

abbrev pub see : Seen → (o : Op) → Reply o → Seen
see s (get (cached source) machine key) r = record s { by_cache = said r }
see s (get (live source) machine key) r = record s { by_server = said r }
see s o r = s

abbrev pub IsAmong : String → List String → Type 0
IsAmong name [] = ⊥
IsAmong name (n ∷ names) = (n ≡ name) ⊎ IsAmong name names

refers_to-cases :
    (ref : Option String) (name : String)
    → ((refers_to ref name ≡ true) × (ref ≡ some name))
      ⊎ ((refers_to ref name ≡ false) × ¬ (ref ≡ some name))
refers_to-cases none name = inr (refl, λ h. ground arith)
refers_to-cases (some n) name = elim (Bool-cases (n == name)) [
  | inl same ↦ inl (same, ground (arith, eq_iff n name))
  | inr other ↦ inr (other, λ h. ground (arith, eq_iff n name))
]

has_name-cases :
    (names : List String) (name : String)
    → ((has_name names name ≡ true) × IsAmong name names)
      ⊎ ((has_name names name ≡ false) × ¬ IsAmong name names)
has_name-cases [] name = inr (refl, λ h. h)
has_name-cases (n ∷ names) name = elim (Bool-cases (n == name)) [
  | inl same ↦ inl (rw same refl, inl ((eq_iff n name).0 same))
  | inr other ↦ elim (has_name-cases names name) [
    | inl found ↦ inl (rw (other, found.0) refl, inr found.1)
    | inr absent ↦ inr (
      rw (other, absent.0) refl,
      elim [ inl same ↦ ground (arith, eq_iff n name) | inr found ↦ absent.1 found ],
    )
  ]
]

-- An object with `subject` as its metadata, which may refer to a machine, and the names that a
-- machine lists.
module _ (sh : Shared) (pool_name : String) (names : Machine → List String)
    (subject : Metadata) where
  -- The machine runs in the pool, has the UID of the reference, and lists the object.
  abbrev pub Uses : LocalUidReference → Machine → Type 0
  Uses ref m =
      (m.machine_pool_ref ≡ some pool_name)
      × (ref.uid ≡ m.metadata.uid)
      × IsAmong subject.name (names m)

  -- The reader has found no such machine, or one that does not use the object.
  abbrev pub SaysNo : LocalUidReference → Option (Option Machine) → Type 0
  SaysNo ref none = ⊥
  SaysNo ref (some none) = Unit
  SaysNo ref (some (some m)) = ¬ Uses ref m

  -- The machine with the name of the reference, beside the object.
  abbrev pub IsMachineKey : LocalUidReference → ObjectKey → Type 0
  IsMachineKey ref key = key ≡ record { namespace = subject.namespace; name = ref.name }

  abbrev pub AllowedRead : Option LocalUidReference → Seen → Op → Type 0
  AllowedRead (some ref) s (get (cached source) machine key) = IsMachineKey ref key
  AllowedRead (some ref) s (get (live source) machine key) =
      IsMachineKey ref key × SaysNo ref s.by_cache
  AllowedRead ref s o = ⊥

  abbrev pub Answers : Option LocalUidReference → Seen → Result Bool → Type 0
  Answers ref s (err e) = Unit
  Answers none s (ok used) = used ≡ false
  Answers (some ref) s (ok true) =
      (m : Machine) × ((s.by_cache ≡ some (some m))
        ⊎ (SaysNo ref s.by_cache × (s.by_server ≡ some (some m))))
      × Uses ref m
  Answers (some ref) s (ok false) = SaysNo ref s.by_cache × SaysNo ref s.by_server

  claims-cases :
      (ref : LocalUidReference) (m : Machine)
      → ((claims sh pool_name (names m) ref subject.name m ≡ true) × Uses ref m)
        ⊎ ((claims sh pool_name (names m) ref subject.name m ≡ false) × ¬ Uses ref m)
  unfolding machine_runs_in_machine_pool
  claims-cases ref m = elim (refers_to-cases m.machine_pool_ref pool_name) [
    | inr elsewhere ↦ inr (rw (elsewhere.0) refl, λ h. elsewhere.1 h.0)
    | inl here ↦ elim (Bool-cases (ref.uid == m.metadata.uid)) [
      | inr other ↦
          inr (rw (here.0, other) refl, λ h. ground (arith, eq_iff ref.uid m.metadata.uid))
      | inl same ↦ elim (has_name-cases (names m) subject.name) [
        | inl listed ↦ inl (
          rw (here.0, same, listed.0) refl,
          (here.1, (eq_iff ref.uid m.metadata.uid).0 same, listed.1),
        )
        | inr absent ↦ inr (rw (here.0, same, absent.0) refl, λ h. absent.1 (h.2))
      ]
    ]
  ]

  abbrev used_by : Reader → Option LocalUidReference → Prog (Result Bool)
  used_by reader ref = elim ref [
    | none ↦ done (ok false)
    | some r ↦ perform (get reader machine (key_beside subject r.name)) >>= elim [
      | err e ↦ done (false_or (ignore_not_found (some e)))
      | ok m ↦ done (ok (claims sh pool_name (names m) r subject.name m))
    ]
  ]

  live-Safe :
      (ref : LocalUidReference) (s : Seen)
      → SaysNo ref s.by_cache
      → Safe see
          (AllowedRead (some ref))
          (Answers (some ref))
          s
          (used_by (live source) (some ref) >>= or_else (done (ok false)))
  unfolding ignore_not_found
  live-Safe ref s denied = (
    (refl, denied),
    elim [
      | err e ↦ elim (Bool-cases (is_not_found (some e))) [
        | inl gone ↦ rw gone (denied, tt)
        | inr failed ↦ rw failed tt
      ]
      | ok m ↦ elim (claims-cases ref m) [
        | inl used ↦ rw (used.0) (m, inr (denied, refl), used.1)
        | inr unused ↦ rw (unused.0) (denied, unused.1)
      ]
    ],
  )

  either-Safe :
      (ref : Option LocalUidReference)
      → Safe see (AllowedRead ref) (Answers ref) unasked (
          used_by (cached source) ref
          >>= or_else (used_by (live source) ref >>= or_else (done (ok false))))
  unfolding ignore_not_found
  either-Safe none = refl
  either-Safe (some ref) = (
    refl,
    elim [
      | err e ↦ elim (Bool-cases (is_not_found (some e))) [
        | inl gone ↦ rw gone (live-Safe ref (record unasked { by_cache = some none }) tt)
        | inr failed ↦ rw failed tt
      ]
      | ok m ↦ elim (claims-cases ref m) [
        | inl used ↦ rw (used.0) (m, inl refl, used.1)
        | inr unused ↦
            rw (unused.0) (live-Safe ref (record unasked { by_cache = some (some m) }) (unused.1))
      ]
    ],
  )

module _ (sh : Shared) (pool_name : String) where
  abbrev pub AllowedNic : NetworkInterface → Seen → Op → Type 0
  AllowedNic nic =
      AllowedRead sh pool_name (λ m. sh.machine_spec_network_interface_names m) nic.metadata
        nic.machine_ref

  abbrev pub AnswersNic : NetworkInterface → Seen → Result Bool → Type 0
  AnswersNic nic =
      Answers sh pool_name (λ m. sh.machine_spec_network_interface_names m) nic.metadata
        nic.machine_ref

  -- In every run of the test of a network interface: no call is made but reads of the machine that
  -- the reference names, in the namespace of the network interface, first from the cache and then,
  -- only if the cache has said no, from the server; the cache and the server say no by no such
  -- machine, or by one that does not run in the pool, does not have the UID of the reference, or
  -- does not list the object; if the answer is yes, the machine of the cache or else that of the
  -- server runs in the pool, has that UID and lists the object; if it is no, there is no reference,
  -- or both have said no.
  pub is_network_interface_used-answer :
      (nic : NetworkInterface) {trace : List Exchange} {result : Result Bool}
      → Runs (is_network_interface_used_cached_or_live sh pool_name nic) trace result
      → Accepts see (AllowedNic nic) unasked trace
        × AnswersNic nic (after see (AllowedNic nic) unasked trace) result
  unfolding is_network_interface_used_cached_or_live is_network_interface_used_cached
      is_network_interface_used_live
  is_network_interface_used-answer nic run =
      Accepts-Runs see (AllowedNic nic) (AnswersNic nic) run unasked (
        either-Safe sh pool_name (λ m. sh.machine_spec_network_interface_names m) nic.metadata
          nic.machine_ref)

  abbrev pub AllowedVolume : Volume → Seen → Op → Type 0
  AllowedVolume v =
      AllowedRead sh pool_name (λ m. sh.machine_spec_volume_names m) v.metadata v.claim_ref

  abbrev pub AnswersVolume : Volume → Seen → Result Bool → Type 0
  AnswersVolume v =
      Answers sh pool_name (λ m. sh.machine_spec_volume_names m) v.metadata v.claim_ref

  -- In every run of the test of a volume: no call is made but reads of the machine that the claim
  -- names, in the namespace of the volume, first from the cache and then, only if the cache has
  -- said no, from the server; the cache and the server say no by no such machine, or by one that
  -- does not run in the pool, does not have the UID of the claim, or does not list the object; if
  -- the answer is yes, the machine of the cache or else that of the server runs in the pool, has
  -- that UID and lists the object; if it is no, there is no claim, or both have said no.
  pub is_volume_used-answer :
      (v : Volume) {trace : List Exchange} {result : Result Bool}
      → Runs (is_volume_used_cached_or_live sh pool_name v) trace result
      → Accepts see (AllowedVolume v) unasked trace
        × AnswersVolume v (after see (AllowedVolume v) unasked trace) result
  unfolding is_volume_used_cached_or_live is_volume_used_by_machine_in_machine_pool_cached
      is_volume_used_by_machine_in_machine_pool_live
  is_volume_used-answer v run =
      Accepts-Runs see (AllowedVolume v) (AnswersVolume v) run unasked
        (either-Safe sh pool_name (λ m. sh.machine_spec_volume_names m) v.metadata v.claim_ref)
