-- ===== src/Dependents/References.antt =====
-- Looking for references only reads, if the referencers do.
use poollet.Base.{Bool, true, false, [], ◌∷◌, ◌≡◌, refl}
use poollet.Base.Lists.{All}
use poollet.Errors.{Result, ok, err}
use poollet.Api.Metadata.{MetaObject}
use poollet.Prog.{Prog, Op, Reply, ◌>>=◌}
use poollet.Prog.Trace.{Safe, Safe-bind}
use poollet.Protocol.Reads.{Reads, Reads-bind}
use poollet.Dependents.{
  Dependent, Mixin, is_referenced, is_referenced_cached, is_referenced_live, or_else,
}

pub record IsReadOnly (d : Dependent) : Type 0 where
  pub cached_reads : (referenced : MetaObject) → Reads (d.cached_referencer referenced)
  pub live_reads : (referenced : MetaObject) → Reads (d.live_referencer referenced)

pub or_else-Reads :
    (rest : Prog (Result Bool)) (r : Result Bool) → Reads rest → Reads (or_else rest r)
or_else-Reads rest (err e) h = tt
or_else-Reads rest (ok true) h = tt
or_else-Reads rest (ok false) h = h

cached-Reads :
    (dependents : Mixin) (referenced : MetaObject)
    → All IsReadOnly dependents
    → Reads (is_referenced_cached dependents referenced)
unfolding is_referenced_cached
cached-Reads [] referenced h = tt
cached-Reads (d ∷ dependents) referenced h =
    Reads-bind (d.cached_referencer referenced) _ (h.0.cached_reads referenced)
      λ r. or_else-Reads _ r (cached-Reads dependents referenced h.1)

live-Reads :
    (dependents : Mixin) (referenced : MetaObject)
    → All IsReadOnly dependents
    → Reads (is_referenced_live dependents referenced)
unfolding is_referenced_live
live-Reads [] referenced h = tt
live-Reads (d ∷ dependents) referenced h =
    Reads-bind (d.live_referencer referenced) _ (h.0.live_reads referenced)
      λ r. or_else-Reads _ r (live-Reads dependents referenced h.1)

-- Whether an object is referenced is found out by reads alone, if the referencers of the dependents
-- only read: no call of `IsReferenced` writes to a cluster.
pub is_referenced-Reads :
    (dependents : Mixin) (referenced : MetaObject)
    → All IsReadOnly dependents
    → Reads (is_referenced dependents referenced)
unfolding is_referenced
is_referenced-Reads dependents referenced h =
    Reads-bind (is_referenced_cached dependents referenced) _ (cached-Reads dependents referenced h)
      λ r. or_else-Reads _ r (live-Reads dependents referenced h)

-- The same for any protocol: calls that do not move it while the referencers' do not.
module _ {S : Type 0} (advance : S → (o : Op) → Reply o → S) (Allowed : S → Op → Type 0) where
  abbrev pub Unmoved : {A : Type 0} → Prog A → Type 0
  Unmoved p = (s : S) → Safe advance Allowed (λ s' a. s' ≡ s) s p

  pub record IsUnmoved (d : Dependent) : Type 0 where
    pub cached_unmoved : (referenced : MetaObject) → Unmoved (d.cached_referencer referenced)
    pub live_unmoved : (referenced : MetaObject) → Unmoved (d.live_referencer referenced)

  or_else-Unmoved :
      (p rest : Prog (Result Bool)) → Unmoved p → Unmoved rest → Unmoved (p >>= or_else rest)
  or_else-Unmoved p rest hp hrest s =
      Safe-bind advance Allowed (λ s' a. s' ≡ s) (λ s' a. s' ≡ s) s p (or_else rest) (hp s)
        λ s'. elim [ err e ↦ λ h. h | ok true ↦ λ h. h | ok false ↦ λ h. rw h (hrest s) ]

  cached-Unmoved :
      (dependents : Mixin) (referenced : MetaObject)
      → All IsUnmoved dependents
      → Unmoved (is_referenced_cached dependents referenced)
  unfolding is_referenced_cached
  cached-Unmoved [] referenced h s = refl
  cached-Unmoved (d ∷ dependents) referenced h s =
      or_else-Unmoved (d.cached_referencer referenced) _ (h.0.cached_unmoved referenced)
        (cached-Unmoved dependents referenced h.1) s

  live-Unmoved :
      (dependents : Mixin) (referenced : MetaObject)
      → All IsUnmoved dependents
      → Unmoved (is_referenced_live dependents referenced)
  unfolding is_referenced_live
  live-Unmoved [] referenced h s = refl
  live-Unmoved (d ∷ dependents) referenced h s =
      or_else-Unmoved (d.live_referencer referenced) _ (h.0.live_unmoved referenced)
        (live-Unmoved dependents referenced h.1) s

  pub is_referenced-Unmoved :
      (dependents : Mixin) (referenced : MetaObject)
      → All IsUnmoved dependents
      → Unmoved (is_referenced dependents referenced)
  unfolding is_referenced
  is_referenced-Unmoved dependents referenced h =
      or_else-Unmoved (is_referenced_cached dependents referenced) _
        (cached-Unmoved dependents referenced h) (live-Unmoved dependents referenced h)
