-- ===== src/Examples/Codec.antt =====
-- A concrete encoder of owner references, and the API machinery of the examples that uses it.
use Prim.Native.Char.{Char}
use Prim.Native.String.{◌++◌}
use poollet.Base.{
  String, Bool, true, false, List, [], ◌∷◌, ◌≡◌, refl, ap, Option, none, some, if◌then◌else◌, ◌==◌,
}
use poollet.Errors.{Result, ok, err, message}
use poollet.Api.Metadata.{
  Machinery, Kind, GroupVersion, GroupVersionKind, namespace, secret, config_map, machine,
  machine_pool, volume, volume_pool, network_interface, network, virtual_ip, alias_prefix,
  alias_prefix_routing,
}
use poollet.Multicluster.Reference.{OwnerReference}
use poollet.Multicluster.Meta.Annotation.{IsLossless}
use poollet.Multicluster.OwnerRefs.Objects.{ParsesPrinted}

-- Every character of a token is marked by a plus, and its end by a minus.
abbrev escape : String → String → String
escape String.[] rest = String.◌∷◌ "-" rest
escape (String.◌∷◌ c s) rest = String.◌∷◌ "+" (String.◌∷◌ c (escape s rest))

abbrev push : Char → List String → List String
push c [] = String.◌∷◌ c "" ∷ []
push c (t ∷ ts) = String.◌∷◌ c t ∷ ts

abbrev is_plus : Char → Bool
is_plus c = String.◌∷◌ c "" == "+"

abbrev tokens : String → List String
tokens String.[] = []
tokens (String.◌∷◌ c String.[]) = "" ∷ []
tokens (String.◌∷◌ c (String.◌∷◌ d r)) =
    let marked = push d (tokens r) in
    let ended = "" ∷ tokens (String.◌∷◌ d r) in if is_plus c then marked else ended

tokens-escape : (s rest : String) → tokens (escape s rest) ≡ s ∷ tokens rest
tokens-escape String.[] String.[] = refl
tokens-escape String.[] (String.◌∷◌ d r) = refl
tokens-escape (String.◌∷◌ c s) rest = ap (push c) (tokens-escape s rest)

abbrev flag : Option Bool → String
flag none = ""
flag (some true) = "true"
flag (some false) = "false"

abbrev read_flag : String → Option Bool
read_flag s = if s == "" then none else if s == "true" then some true else some false

read_flag-flag : (f : Option Bool) → read_flag (flag f) ≡ f
read_flag-flag none = refl
read_flag-flag (some true) = refl
read_flag-flag (some false) = refl

abbrev pub encode : List OwnerReference → String
encode [] = ""
encode (r ∷ refs) = escape r.cluster_name (
    escape r.api_version (
      escape r.kind (
        escape r.namespace
          (escape r.name (escape r.uid (escape (flag r.controller) (encode refs)))))))

abbrev references : List String → List OwnerReference
references (c ∷ v ∷ k ∷ ns ∷ n ∷ u ∷ f ∷ rest) =
    record {
      cluster_name = c;
      api_version = v;
      kind = k;
      namespace = ns;
      name = n;
      uid = u;
      controller = read_flag f;
    }
    ∷ references rest
references _ = []

references-tokens-encode : (refs : List OwnerReference) → references (tokens (encode refs)) ≡ refs
references-tokens-encode [] = refl
references-tokens-encode (r ∷ refs) =
    simp (tokens-escape, read_flag-flag, references-tokens-encode refs)

abbrev group_of : Kind → String
group_of namespace = ""
group_of secret = ""
group_of config_map = ""
group_of machine = "compute.api.onmetal.de"
group_of machine_pool = "compute.api.onmetal.de"
group_of volume = "storage.api.onmetal.de"
group_of volume_pool = "storage.api.onmetal.de"
group_of _ = "networking.api.onmetal.de"

abbrev kind_name : Kind → String
kind_name namespace = "Namespace"
kind_name secret = "Secret"
kind_name config_map = "ConfigMap"
kind_name machine = "Machine"
kind_name machine_pool = "MachinePool"
kind_name volume = "Volume"
kind_name volume_pool = "VolumePool"
kind_name network_interface = "NetworkInterface"
kind_name network = "Network"
kind_name virtual_ip = "VirtualIP"
kind_name alias_prefix = "AliasPrefix"
kind_name alias_prefix_routing = "AliasPrefixRouting"

abbrev version_of : Kind → String
version_of kind = if group_of kind == "" then "v1" else "v1alpha1"

abbrev print : GroupVersion → String
print gv = if gv.group == "" then gv.version else gv.group ++ ("/" ++ gv.version)

abbrev parse : String → Result GroupVersion
parse text =
    if text == "v1"
    then ok (record { group = ""; version = "v1" })
    else if text == "compute.api.onmetal.de/v1alpha1"
    then ok (record { group = "compute.api.onmetal.de"; version = "v1alpha1" })
    else if text == "storage.api.onmetal.de/v1alpha1"
    then ok (record { group = "storage.api.onmetal.de"; version = "v1alpha1" })
    else if text == "networking.api.onmetal.de/v1alpha1"
    then ok (record { group = "networking.api.onmetal.de"; version = "v1alpha1" })
    else err (message "unexpected GroupVersion string")

abbrev pub gvk_for : Kind → GroupVersionKind
gvk_for kind = record {
  group_version = record { group = group_of kind; version = version_of kind };
  kind = kind_name kind;
}

abbrev pub machinery : Machinery
machinery = record {
  parse_group_version = parse;
  print_group_version = print;
  gvk_for_object = λ kind. ok (gvk_for kind);
  marshal = λ meta. ok (encode meta.owner_references);
  unmarshal_meta = λ text. ok (record { owner_references = references (tokens text) });
  unmarshal_owners = λ text. ok (references (tokens text));
}

pub machinery-IsLossless : IsLossless machinery
machinery-IsLossless = record {
  encoded = λ meta. encode meta.owner_references;
  marshal-ok = λ meta. refl;
  unmarshal-encoded = λ meta. rw (references-tokens-encode meta.owner_references);
}

parse-print :
    (kind : Kind) → parse (print (gvk_for kind).group_version) ≡ ok (gvk_for kind).group_version
parse-print namespace = refl
parse-print secret = refl
parse-print config_map = refl
parse-print machine = refl
parse-print machine_pool = refl
parse-print volume = refl
parse-print volume_pool = refl
parse-print network_interface = refl
parse-print network = refl
parse-print virtual_ip = refl
parse-print alias_prefix = refl
parse-print alias_prefix_routing = refl

pub machinery-ParsesPrinted : ParsesPrinted machinery
machinery-ParsesPrinted = record {
  parse-print =
      λ kind {gvk} known. let same : gvk_for kind ≡ gvk = cc in rw (← same) (parse-print kind);
}
