-- ===== src/Protocol/Reads.antt =====
-- Programs that only read, and so do not move the protocol.
use poollet.Base.{◌≡◌, refl}
use poollet.Prog.{Prog, done, call, get, list, ◌>>=◌}
use poollet.Prog.Trace.{Safe}
use poollet.Protocol.{Progress, advance, Allowed, Subject}

-- Every call is a get or a list, whatever the replies.
abbrev pub Reads : {A : Type 0} → Prog A → Type 0
Reads (done a) = Unit
Reads {A} (call (get reader kind key) k) = (r : _) → Reads {A = A} (k r)
Reads {A} (call (list reader kind options) k) = (r : _) → Reads {A = A} (k r)
Reads _ = ⊥

pub Reads-bind :
    {A B : Type 0} (p : Prog A) (f : A → Prog B)
    → Reads p
    → ((a : A) → Reads (f a))
    → Reads (p >>= f)
Reads-bind (done a) f h g = g a
Reads-bind (call (get reader kind key) k) f h g = λ r. Reads-bind (k r) f (h r) g
Reads-bind (call (list reader kind options) k) f h g = λ r. Reads-bind (k r) f (h r) g
Reads-bind (call _ k) f h g = absurd h

module _ (x : Subject) where
  pub Reads-Safe :
      {A : Type 0} (p : Prog A) (s : Progress)
      → Reads p
      → Safe advance (Allowed x) (λ s' (a : A). s' ≡ s) s p
  Reads-Safe (done a) s h = refl
  Reads-Safe (call (get reader k key) f) s h = (tt, λ r. Reads-Safe (f r) s (h r))
  Reads-Safe (call (list reader k options) f) s h = (tt, λ r. Reads-Safe (f r) s (h r))
  Reads-Safe (call _ f) s h = absurd h
