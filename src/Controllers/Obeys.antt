-- ===== src/Controllers/Obeys.antt =====
-- The shapes that the sync controllers share, and why each of them keeps to the protocol.
use poollet.Base.{
  String, Bool, true, false, ◌≡◌, refl, Option, none, some, Bool-cases, inl, inr, ◌==◌, ℕ, List,
}
use poollet.Errors.{Result, ok, err, Error, wrap}
use poollet.Api.Objects.{metadata_of}
use poollet.Prog.{
  Prog, done, perform, ◌>>=◌, source, target, delete_if_exists, ensure_finalizer, remove_finalizer,
}
use poollet.Prog.Trace.{Safe, Safe-bind, Runs, Exchange, Accepts, Accepts-Runs}
use poollet.Protocol.{Progress, advance, Allowed, start, Subject}
use poollet.Protocol.Reads.{Reads, Reads-Safe}
use poollet.Provider.{target_namespace_for}
use poollet.Controllers.Common.{
  ReconcileResult, no_requeue, requeue, key_in, direct_target_namespace, contains_finalizer,
}

-- A handler whose calls keep to the protocol from a state on.
abbrev pub Obeys : {A : Type 0} → Subject → Progress → Prog A → Type 0
Obeys x = Safe advance (Allowed x) (λ s a. Unit)

-- The state once the target namespace is known, or where the lookup has failed.
abbrev pub Found : Progress → Result String → Type 0
Found s (ok ns) = s ≡ record start { target_namespace = some ns }
Found s (err e) = Unit

abbrev pub Finds : Subject → Prog (Result String) → Type 0
Finds x = Safe advance (Allowed x) Found start

pub target_namespace_for-Finds :
    (x : Subject) → Finds x (target_namespace_for (metadata_of x.kind x.obj))
unfolding target_namespace_for
target_namespace_for-Finds x = elim (Bool-cases ((metadata_of x.kind x.obj).namespace == "")) [
  | inl absent ↦ rw absent tt
  | inr present ↦ rw present (refl, elim [ ok ns ↦ refl | err e ↦ tt ])
]

pub direct_target_namespace-Finds :
    (x : Subject) → Finds x (direct_target_namespace (metadata_of x.kind x.obj))
direct_target_namespace-Finds x = (refl, elim [ ok ns ↦ refl | err e ↦ tt ])

module _ (x : Subject) (find : Prog (Result String)) (found : Finds x find)
    (on_error : Error → ReconcileResult) where
  abbrev pub delete_shape : Prog ReconcileResult
  delete_shape = find >>= elim [
    | err e ↦ done (on_error e)
    | ok target_namespace ↦
        perform
          (delete_if_exists target x.kind (key_in target_namespace (metadata_of x.kind x.obj)))
        >>= elim [
          | err e ↦ done (err (wrap "error deleting target" e))
          | ok true ↦ done requeue
          | ok false ↦ perform (remove_finalizer source x.kind x.obj x.finalizer) >>= elim [
            | err e ↦ done (err (wrap "error removing finalizer" e))
            | ok _ ↦ done no_requeue
          ]
        ]
  ]

  pub delete_shape-Obeys :
      contains_finalizer (metadata_of x.kind x.obj).finalizers x.finalizer ≡ true
      → Obeys x start delete_shape
  delete_shape-Obeys present =
      Safe-bind advance (Allowed x) Found (λ s a. Unit) start find _ found
        λ s. elim [
          | err e ↦ λ h. tt
          | ok ns ↦ λ h. rw h (
            (refl, (refl, refl), present),
            elim [
              | err e ↦ tt
              | ok true ↦ tt
              | ok false ↦ (
                (refl, refl, key_in ns (metadata_of x.kind x.obj), refl, (refl, refl)),
                elim [ err e ↦ tt | ok _ ↦ tt ],
              )
            ],
          )
        ]

  -- The rest of a reconciliation, once the finalizer is in place.
  module _ (apply : String → Prog ReconcileResult) (on_modified : ReconcileResult)
      (applied : (ns : String)
        → Obeys x
            (record { target_namespace = some ns; finalized = true; gone = none; written = none })
            (apply ns)) where
    abbrev pub reconcile_shape : Prog ReconcileResult
    reconcile_shape = find >>= elim [
      | err e ↦ done (on_error e)
      | ok target_namespace ↦ perform (ensure_finalizer source x.kind x.obj x.finalizer) >>= elim [
        | err e ↦ done (err e)
        | ok true ↦ done on_modified
        | ok false ↦ apply target_namespace
      ]
    ]

    pub reconcile_shape-Obeys : Obeys x start reconcile_shape
    reconcile_shape-Obeys =
        Safe-bind advance (Allowed x) Found (λ s a. Unit) start find _ found
          λ s. elim [
            | err e ↦ λ h. tt
            | ok ns ↦
                λ h. rw h ((refl, refl), elim [ err e ↦ tt | ok true ↦ tt | ok false ↦ applied ns ])
          ]

module _ (x : Subject) where
  -- A test that only reads, and then one of two programs that keep to the protocol.
  abbrev pub used_shape :
      Prog (Result Bool) → Prog ReconcileResult → Prog ReconcileResult → Prog ReconcileResult
  used_shape test delete reconcile =
      test >>= elim [ err e ↦ done (err e) | ok false ↦ delete | ok true ↦ reconcile ]

  pub used_shape-Obeys :
      (test : Prog (Result Bool)) (delete reconcile : Prog ReconcileResult)
      → Reads test
      → Obeys x start delete
      → Obeys x start reconcile
      → Obeys x start (used_shape test delete reconcile)
  used_shape-Obeys test delete reconcile reads d r =
      Safe-bind advance (Allowed x) (λ s' a. s' ≡ start) (λ s a. Unit) start test _
        (Reads-Safe x test start reads)
        λ s. elim [ err e ↦ λ h. tt | ok false ↦ λ h. rw h d | ok true ↦ λ h. rw h r ]

  -- An object that is being deleted, or one that is kept.
  pub exists_shape-Obeys :
      (deletion_timestamp : Option ℕ) (delete rest : Prog ReconcileResult)
      → Obeys x start delete
      → Obeys x start rest
      → Obeys x start (elim deletion_timestamp [ some _ ↦ delete | none ↦ rest ])
  exists_shape-Obeys (some _) delete rest d r = d
  exists_shape-Obeys none delete rest d r = r

  -- What obeying means for the runs: every call of every run is allowed where it stands.
  pub Obeys-Runs :
      {A : Type 0} (p : Prog A) {trace : List Exchange} {a : A}
      → Obeys x start p
      → Runs p trace a
      → Accepts advance (Allowed x) start trace
  Obeys-Runs p safe run = (Accepts-Runs advance (Allowed x) (λ s a. Unit) run start safe).0
