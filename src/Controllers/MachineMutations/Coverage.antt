-- ===== src/Controllers/MachineMutations/Coverage.antt =====
-- No volume or network interface of a machine is dropped from its target without notice: each is
-- either handled, or the mutation is partial and what the target has under its name is kept.
use poollet.Base.{
  String, true, List, [], ◌∷◌, Option, none, some, ◌≡◌, refl, arith, ◌⊎◌, inl, inr, eq_refl,
  Bool-cases,
}
use poollet.Base.Lists.{All, Any, Any-append_left, Any-append_right}
use poollet.Errors.{Result, ok, err}
use poollet.Prog.{Prog}
use poollet.Prog.Trace.{Returns, Returns-bind, Returns-map}
use poollet.Helpers.{has_name, insert_name}
use poollet.Controllers.MachineMutations.{
  Sourced, Gathered, gather, gather_one, keep_unhandled, added_target,
}

has_name-insert_name_self :
    (name : String) (names : List String) → has_name (insert_name name names) name ≡ true
has_name-insert_name_self name names = elim (Bool-cases (has_name names name)) [
  | inl e ↦ rw e e
  | inr e ↦ rw e (ground (arith, eq_refl name))
]

has_name-insert_name :
    (name : String) (names : List String) (m : String)
    → has_name names m ≡ true
    → has_name (insert_name name names) m ≡ true
has_name-insert_name name names m h = elim (Bool-cases (has_name names name)) [
  | inl e ↦ rw e h
  | inr e ↦ rw e (ground arith)
]

module _ {V S : Type 0} (name_of : V → String) (with_src : V → S → V) where
  -- A source is given whenever the item counts as synced.
  abbrev pub IsSourced : Result (Sourced S) → Type 0
  IsSourced (err e) = Unit
  IsSourced (ok s) = s.synced ≡ true → (x : S) × (s.src ≡ some x)

  abbrev pub IsTargeted : List V → V → Type 0
  IsTargeted targets v = Any (λ t. (s : S) × (t ≡ with_src v s)) targets

  abbrev pub IsCovered : Gathered V → V → Type 0
  IsCovered g v =
      IsTargeted g.targets v
      ⊎ ((has_name g.unhandled_names (name_of v) ≡ true) × (g.partial_sync ≡ true))

  added_target-keeps :
      (v : V) (src : Option S) (targets : List V) (w : V)
      → IsTargeted targets w
      → IsTargeted (added_target name_of with_src v src targets) w
  added_target-keeps v none targets w h = h
  added_target-keeps v (some s) targets w h = Any-append_left _ targets _ h

  gather_one-keeps :
      (v : V) (s : Sourced S) (g : Gathered V) (w : V)
      → IsCovered g w
      → IsCovered (gather_one name_of with_src v s g) w
  unfolding gather_one
  gather_one-keeps v s g w (inl h) = inl (added_target-keeps v s.src g.targets w h)
  gather_one-keeps v s g w (inr h) = inr (elim (Bool-cases s.synced) [
    | inl e ↦ rw e h
    | inr e ↦ rw e (has_name-insert_name (name_of v) g.unhandled_names (name_of w) h.0, refl)
  ])

  gather_one-covers :
      (v : V) (s : Sourced S) (g : Gathered V)
      → IsSourced (ok s)
      → IsCovered (gather_one name_of with_src v s g) v
  unfolding gather_one
  gather_one-covers v s g h = elim (Bool-cases s.synced) [
    | inl e ↦
        let (x, given) = h e in
        inl (rw given (Any-append_right _ g.targets (with_src v x ∷ []) (inl (x, refl))))
    | inr e ↦ inr (rw e (has_name-insert_name_self (name_of v) g.unhandled_names, refl))
  ]

  -- What the loop has collected covers all that was covered before, and each of its items.
  abbrev pub Covers : Gathered V → List V → Result (Gathered V) → Type 0
  Covers g vs (err e) = Unit
  Covers g vs (ok g') = ((w : V) → IsCovered g w → IsCovered g' w) × All (IsCovered g') vs

  module _ (text : String) (source_for : V → Prog (Result (Sourced S)))
      (sources : (v : V) → Returns IsSourced (source_for v)) where
    pub gather-Covers :
        (vs : List V) (g : Gathered V)
        → Returns (Covers g vs) (gather name_of with_src text source_for vs g)
    unfolding gather
    gather-Covers [] g = (λ w h. h, tt)
    gather-Covers (v ∷ vs) g =
        Returns-bind IsSourced (Covers g (v ∷ vs)) (source_for v) _ (sources v) elim [
          | err e ↦ λ h. tt
          | ok s ↦ λ h.
              let g1 = gather_one name_of with_src v s g in
              Returns-map (Covers g1 vs) (Covers g (v ∷ vs)) _ (gather-Covers vs g1) elim [
                | err e ↦ λ c. tt
                | ok g' ↦ λ c. (
                  λ w covered. c.0 w (gather_one-keeps v s g w covered),
                  (c.0 v (gather_one-covers v s g h), c.1),
                )
              ]
        ]

  pub keep_unhandled-keeps :
      (names : List String) (vs : List V) (old : V)
      → has_name names (name_of old) ≡ true
      → Any (λ v. v ≡ old) vs
      → Any (λ v. v ≡ old) (keep_unhandled name_of with_src names vs)
  unfolding keep_unhandled
  keep_unhandled-keeps names [] old h any = absurd any
  keep_unhandled-keeps names (v ∷ vs) old h (inl e) = rw e (rw h (inl refl))
  keep_unhandled-keeps names (v ∷ vs) old h (inr any) =
      elim (Bool-cases (has_name names (name_of v))) [
        | inl e ↦ rw e (inr (keep_unhandled-keeps names vs old h any))
        | inr e ↦ rw e (keep_unhandled-keeps names vs old h any)
      ]
