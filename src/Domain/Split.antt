-- ===== src/Domain/Split.antt =====
-- `Split` undoes `Subdomain`, and `Subdomain` undoes `Split`.
use Prim.Native.Char.{Char}
use Prim.Native.String.{◌++◌}
use text.Mathlib.TextLemmas.{nil-append, cons-append}
use poollet.Base.{
  String, true, false, ◌≡◌, refl, sym, ◌∙◌, ap, subst, ◌≢◌, Option, none, some, arith, ◌==◌, eq_iff,
  Bool-cases, Option-cases, inl, inr,
}
use poollet.Domain.{Domain, subdomain, split, split_n, is_dot, is_subdomain, parts_of}

-- A label of a domain name holds no dot.
abbrev pub IsLabel : String → Type 0
IsLabel String.[] = Unit
IsLabel (String.◌∷◌ c s) = (is_dot c ≡ false) × IsLabel s

split_n-label : (s : String) (d : Domain) → IsLabel s → split_n (s ++ ("." ++ d)) ≡ some (s, d)
unfolding split_n
split_n-label String.[] d h = rw (nil-append, cons-append, nil-append)
split_n-label (String.◌∷◌ c s) d h = rw cons-append (ground (arith, split_n-label s d h.1))

split_n-dot :
    (c : Char) (s : String) (parts : String × Domain)
    → is_dot c ≡ true
    → ("", s) ≡ parts
    → String.◌∷◌ c s ≡ parts.0 ++ ("." ++ parts.1)
split_n-dot c s parts dot e =
    let same : String.◌∷◌ c "" ++ s ≡ "." ++ s =
      ap (λ t. t ++ s) ((eq_iff (String.◌∷◌ c "") ".").0 dot) in
    let front : String.◌∷◌ c "" ++ s ≡ String.◌∷◌ c s = rw (cons-append, nil-append) in
    rw (← e) (rw nil-append (sym front ∙ same))

split_n-other :
    (c : Char) (s : String) (parts : String × Domain) (rest : Option (String × Domain))
    → ((q : String × Domain) → rest ≡ some q → s ≡ q.0 ++ ("." ++ q.1))
    → elim rest [ none ↦ none | some q ↦ some (String.◌∷◌ c q.0, q.1) ] ≡ some parts
    → String.◌∷◌ c s ≡ parts.0 ++ ("." ++ parts.1)
split_n-other c s parts none ih e = ground arith
split_n-other c s parts (some q) ih e =
    let same : ◌≡◌ {A = String × Domain} (String.◌∷◌ c q.0, q.1) parts = cc in
    subst (λ (p : String × Domain). String.◌∷◌ c s ≡ p.0 ++ ("." ++ p.1)) same
      (rw cons-append (ap (String.◌∷◌ c) (ih q refl)))

split_n-some :
    (d : Domain) (parts : String × Domain)
    → split_n d ≡ some parts
    → d ≡ parts.0 ++ ("." ++ parts.1)
unfolding split_n
split_n-some String.[] parts h = ground arith
split_n-some (String.◌∷◌ c s) parts h = elim (Bool-cases (is_dot c)) [
  | inl dot ↦ split_n-dot c s parts dot (ground arith)
  | inr other ↦ split_n-other c s parts (split_n s) (split_n-some s) (ground arith)
]

pub split-subdomain :
    (d : Domain) (s : String) → s ≢ "" → IsLabel s → split (subdomain d s) ≡ (s, d)
unfolding split subdomain
split-subdomain d s nonempty label =
    let named : (s == "") ≡ false = ground (arith, eq_iff s "") in
    rw named (ap (parts_of (s ++ ("." ++ d))) (split_n-label s d label))

subdomain-split : (d : Domain) → is_subdomain d ≡ true → subdomain (split d).1 (split d).0 ≡ d
unfolding is_subdomain split subdomain
subdomain-split d h = elim (Option-cases (split_n d)) [
  | inl one ↦
      let empty : (split d).0 ≡ "" = ap (λ o. (parts_of d o).0) one in
      absurd (ground (arith, eq_iff (split d).0 ""))
  | inr (parts, two) ↦
      let same : split d ≡ parts = ap (parts_of d) two in
      ground (arith, split_n-some d parts two, eq_iff (split d).0 "")
]

-- Splitting a subdomain with a nonempty label that holds no dot gives that label and the domain
-- that it was made from; and if a domain has a nonempty part before its first dot, putting together
-- what it is split into gives the domain back.
pub split-inverse :
    (d : Domain) (s : String) (whole : Domain)
    → s ≢ ""
    → IsLabel s
    → is_subdomain whole ≡ true
    → (split (subdomain d s) ≡ (s, d)) × (subdomain (split whole).1 (split whole).0 ≡ whole)
split-inverse d s whole nonempty label h =
    (split-subdomain d s nonempty label, subdomain-split whole h)
