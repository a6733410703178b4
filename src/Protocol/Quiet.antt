-- ===== src/Protocol/Quiet.antt =====
-- Programs that read, look up targets and report events, and so do not move the protocol.
use poollet.Base.{arith, Bool, true, false, ◌≡◌, refl, if◌then◌else◌, Option, none, some}
use poollet.Errors.{Result, ok, err}
use poollet.Prog.{
  Prog, done, call, get, list, provider_target, event, ◌>>=◌, ◌>>?◌, or_fail, Reply, ObjectKey,
}
use poollet.Prog.Trace.{Safe}
use poollet.Api.Metadata.{
  Kind, Metadata, namespace, secret, config_map, machine, machine_pool, volume, volume_pool,
  network_interface, network, virtual_ip, alias_prefix, alias_prefix_routing,
}
use poollet.Api.Objects.{metadata_of}
use poollet.Protocol.{Progress, advance, Allowed, Subject, Asks}

abbrev pub is_namespace : Kind → Bool
is_namespace namespace = true
is_namespace _ = false

-- Every call is a get, a list, an event or a lookup of a target that is not a namespace.
abbrev pub Quiet : {A : Type 0} → Prog A → Type 0
Quiet (done a) = Unit
Quiet {A} (call (get reader kind key) k) = (r : _) → Quiet {A = A} (k r)
Quiet {A} (call (list reader kind options) k) = (r : _) → Quiet {A = A} (k r)
Quiet {A} (call (event kind key text) k) = (r : _) → Quiet {A = A} (k r)
Quiet {A} (call (provider_target kind key) k) =
    (is_namespace kind ≡ false) × ((r : _) → Quiet {A = A} (k r))
Quiet _ = ⊥

pub Quiet-bind :
    {A B : Type 0} (p : Prog A) (f : A → Prog B)
    → Quiet p
    → ((a : A) → Quiet (f a))
    → Quiet (p >>= f)
Quiet-bind (done a) f h g = g a
Quiet-bind (call (get reader kind key) k) f h g = λ r. Quiet-bind (k r) f (h r) g
Quiet-bind (call (list reader kind options) k) f h g = λ r. Quiet-bind (k r) f (h r) g
Quiet-bind (call (event kind key text) k) f h g = λ r. Quiet-bind (k r) f (h r) g
Quiet-bind (call (provider_target kind key) k) f h g = (h.0, λ r. Quiet-bind (k r) f (h.1 r) g)
Quiet-bind (call _ k) f h g = absurd h

pub Quiet-or_fail :
    {A B : Type 0} (f : A → Prog (Result B)) (r : Result A)
    → ((a : A) → Quiet (f a))
    → Quiet (or_fail f r)
Quiet-or_fail f (ok a) h = h a
Quiet-or_fail f (err e) h = tt

pub Quiet-then :
    {A B : Type 0} (p : Prog (Result A)) (f : A → Prog (Result B))
    → Quiet p
    → ((a : A) → Quiet (f a))
    → Quiet (p >>? f)
Quiet-then p f h g = Quiet-bind p (or_fail f) h λ r. Quiet-or_fail f r g

pub Quiet-if :
    {A : Type 0} (b : Bool) (p q : Prog A) → Quiet p → Quiet q → Quiet (if b then p else q)
Quiet-if true p q hp hq = hp
Quiet-if false p q hp hq = hq

-- A program for an object that may be absent.
pub Quiet-option :
    {R A : Type 0} (ref : Option R) (p : Prog A) (f : R → Prog A)
    → Quiet p
    → ((r : R) → Quiet (f r))
    → Quiet (elim ref [ none ↦ p | some r ↦ f r ])
Quiet-option none p f hp h = hp
Quiet-option (some r) p f hp h = h r

pub advance-provider_target :
    (kind : Kind) (key : _) (s : Progress) (r : Reply (provider_target kind key))
    → is_namespace kind ≡ false
    → advance s (provider_target kind key) r ≡ s
advance-provider_target namespace key s r h = absurd (ground arith)
advance-provider_target secret key s r h = refl
advance-provider_target config_map key s r h = refl
advance-provider_target machine key s r h = refl
advance-provider_target machine_pool key s r h = refl
advance-provider_target volume key s r h = refl
advance-provider_target volume_pool key s r h = refl
advance-provider_target network_interface key s r h = refl
advance-provider_target network key s r h = refl
advance-provider_target virtual_ip key s r h = refl
advance-provider_target alias_prefix key s r h = refl
advance-provider_target alias_prefix_routing key s r h = refl

pub Asks-not_namespace :
    (m : Metadata) (kind : Kind) (key : ObjectKey) → is_namespace kind ≡ false → Asks m kind key
Asks-not_namespace m namespace key h = absurd (ground arith)
Asks-not_namespace m secret key h = tt
Asks-not_namespace m config_map key h = tt
Asks-not_namespace m machine key h = tt
Asks-not_namespace m machine_pool key h = tt
Asks-not_namespace m volume key h = tt
Asks-not_namespace m volume_pool key h = tt
Asks-not_namespace m network_interface key h = tt
Asks-not_namespace m network key h = tt
Asks-not_namespace m virtual_ip key h = tt
Asks-not_namespace m alias_prefix key h = tt
Asks-not_namespace m alias_prefix_routing key h = tt

module _ (x : Subject) where
  pub Quiet-Safe :
      {A : Type 0} (p : Prog A) (s : Progress)
      → Quiet p
      → Safe advance (Allowed x) (λ s' (a : A). s' ≡ s) s p
  Quiet-Safe (done a) s h = refl
  Quiet-Safe (call (get reader k key) f) s h = (tt, λ r. Quiet-Safe (f r) s (h r))
  Quiet-Safe (call (list reader k options) f) s h = (tt, λ r. Quiet-Safe (f r) s (h r))
  Quiet-Safe (call (event k key text) f) s h = (tt, λ r. Quiet-Safe (f r) s (h r))
  Quiet-Safe (call (provider_target k key) f) s h = (
    Asks-not_namespace (metadata_of x.kind x.obj) k key h.0,
    λ r. rw (advance-provider_target k key s r h.0) (Quiet-Safe (f r) s (h.1 r)),
  )
  Quiet-Safe (call _ f) s h = absurd h
