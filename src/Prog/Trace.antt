-- ===== src/Prog/Trace.antt =====
-- Runs of a program, and a rule to prove something of all of them: an automaton reads the calls
-- with their replies, and decides which call may come next.
use poollet.Base.{List, [], ◌∷◌, Bool, true, false, Option, none, some, if◌then◌else◌}
use poollet.Prog.{Op, Reply, Prog, done, call, ◌>>=◌}

pub record Exchange : Type 0 where
  pub op : Op
  pub reply : Reply op

-- The calls and replies of one run, and its result. The replies are arbitrary.
pub data Runs {A : Type 0} : Prog A → List Exchange → A → Type 0 where
  stop : {a : A} → Runs (done a) [] a
  step :
      {o : Op} {k : Reply o → Prog A} {trace : List Exchange} {a : A} (r : Reply o)
      → Runs (k r) trace a
      → Runs (call o k) (record { op = o; reply = r } ∷ trace) a

module _ {S : Type 0} (advance : S → (o : Op) → Reply o → S) (Allowed : S → Op → Type 0) where
  -- Every call of the trace was allowed where it stands.
  abbrev pub Accepts : S → List Exchange → Type 0
  Accepts s [] = Unit
  Accepts s (e ∷ trace) = Allowed s e.op × Accepts (advance s e.op e.reply) trace

  abbrev pub after : S → List Exchange → S
  after s [] = s
  after s (e ∷ trace) = after (advance s e.op e.reply) trace

  module _ {A : Type 0} (Post : S → A → Type 0) where
    -- Whatever the replies, each call is allowed, and the result is as `Post` says.
    abbrev pub Safe : S → Prog A → Type 0
    Safe s (done a) = Post s a
    Safe s (call o k) = Allowed s o × ((r : Reply o) → Safe (advance s o r) (k r))

    pub Accepts-Runs :
        {p : Prog A} {trace : List Exchange} {a : A}
        → Runs p trace a
        → (s : S) → Safe s p
        → Accepts s trace × Post (after s trace) a
    Accepts-Runs stop s safe = (tt, safe)
    Accepts-Runs (step {o = o} r run) s safe =
        let (accepted, post) = Accepts-Runs run (advance s o r) (safe.1 r) in
        ((safe.0, accepted), post)

  pub Safe-if :
      {A : Type 0} (Post : S → A → Type 0) (s : S) (b : Bool) (p q : Prog A)
      → Safe Post s p
      → Safe Post s q
      → Safe Post s (if b then p else q)
  Safe-if Post s true p q hp hq = hp
  Safe-if Post s false p q hp hq = hq

  pub Safe-option :
      {R A : Type 0} (Post : S → A → Type 0) (s : S) (ref : Option R) (p : Prog A) (f : R → Prog A)
      → Safe Post s p
      → ((r : R) → Safe Post s (f r))
      → Safe Post s (elim ref [ none ↦ p | some r ↦ f r ])
  Safe-option Post s none p f hp h = hp
  Safe-option Post s (some r) p f hp h = h r

  pub Safe-bind :
      {A B : Type 0} (Mid : S → A → Type 0) (Post : S → B → Type 0) (s : S) (p : Prog A)
      (f : A → Prog B)
      → Safe Mid s p
      → ((s' : S) (a : A) → Mid s' a → Safe Post s' (f a))
      → Safe Post s (p >>= f)
  Safe-bind Mid Post s (done a) f safe rest = rest s a safe
  Safe-bind Mid Post s (call o k) f safe rest =
      (safe.0, λ r. Safe-bind Mid Post (advance s o r) (k r) f (safe.1 r) rest)

module _ {S : Type 0} (advance : S → (o : Op) → Reply o → S) (Allowed Allowed' : S → Op → Type 0)
    (weaker : (s : S) (o : Op) → Allowed s o → Allowed' s o) where
  -- What is safe stays so where more is allowed.
  pub Safe-weaken :
      {A : Type 0} (Post : S → A → Type 0) (s : S) (p : Prog A)
      → Safe advance Allowed Post s p
      → Safe advance Allowed' Post s p
  Safe-weaken Post s (done a) safe = safe
  Safe-weaken Post s (call o k) safe =
      (weaker s o safe.0, λ r. Safe-weaken Post (advance s o r) (k r) (safe.1 r))

module _ {A : Type 0} (Post : A → Type 0) where
  -- Whatever the replies, the result is as `Post` says.
  abbrev pub Returns : Prog A → Type 0
  Returns (done a) = Post a
  Returns (call o k) = (r : Reply o) → Returns (k r)

  pub Returns-Runs :
      {p : Prog A} {trace : List Exchange} {a : A} → Runs p trace a → Returns p → Post a
  Returns-Runs stop h = h
  Returns-Runs (step r run) h = Returns-Runs run (h r)

pub Returns-bind :
    {A B : Type 0} (Mid : A → Type 0) (Post : B → Type 0) (p : Prog A) (f : A → Prog B)
    → Returns Mid p
    → ((a : A) → Mid a → Returns Post (f a))
    → Returns Post (p >>= f)
Returns-bind Mid Post (done a) f h g = g a h
Returns-bind Mid Post (call o k) f h g = λ r. Returns-bind Mid Post (k r) f (h r) g

pub Returns-map :
    {A : Type 0} (P Q : A → Type 0) (p : Prog A) → Returns P p → ((a : A) → P a → Q a) → Returns Q p
Returns-map P Q (done a) h g = g a h
Returns-map P Q (call o k) h g = λ r. Returns-map P Q (k r) (h r) g
