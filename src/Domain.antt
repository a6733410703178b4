-- ===== src/Domain.antt =====
-- broker/domain/domain.go: domain names, and the names made from them.
pub mod Split
use Prim.Native.Char.{Char}
use Prim.Native.String
use Prim.Native.String.{◌++◌}
use poollet.Base.{String, Bool, true, false, not, ◌==◌, if◌then◌else◌, Option, none, some}

abbrev pub Domain : Type 0
Domain = String

-- fmt.Sprintf("%s.%s", subdomainName, d)
unfoldable pub subdomain : Domain → String → Domain
subdomain d subdomain_name = if subdomain_name == "" then d else subdomain_name ++ ("." ++ d)

-- fmt.Sprintf("%s/%s", d, name)
unfoldable pub slash : Domain → String → String
slash d name = d ++ ("/" ++ name)

unfoldable pub subdomain_slash : Domain → String → String → String
unfolding subdomain slash
subdomain_slash d subdomain_name name = slash (subdomain d subdomain_name) name

unfoldable pub is_zero : Domain → Bool
is_zero d = d == ""

abbrev pub is_dot : Char → Bool
is_dot c = String.◌∷◌ c "" == "."

-- strings.SplitN(text, ".", 2): `none` is the one part.
unfoldable pub split_n : String → Option (String × String)
split_n String.[] = none
split_n (String.◌∷◌ c rest) = elim (is_dot c) [
  | true ↦ some ("", rest)
  | false ↦ elim (split_n rest) [ none ↦ none | some parts ↦ some (String.◌∷◌ c parts.0, parts.1) ]
]

abbrev pub parts_of : Domain → Option (String × String) → String × Domain
parts_of d none = ("", d)
parts_of d (some parts) = parts

unfoldable pub split : Domain → String × Domain
unfolding split_n
split d = parts_of d (split_n d)

unfoldable pub is_subdomain : Domain → Bool
unfolding split
is_subdomain d = not ((split d).0 == "")
