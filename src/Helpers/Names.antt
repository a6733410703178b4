-- ===== src/Helpers/Names.antt =====
-- The names of the secrets that a machine and a volume refer to.
use poollet.Base.{String, ◌≡◌, eq_iff, arith, ◌||◌, Option, none, some, refl, []}
use poollet.Api.Objects.{Machine, SecretKeySelector}
use poollet.Helpers.{has_name, insert_if_some, machine_spec_secret_names, refers_to, selected}

names :
    (pull : Option String) (ignition : Option SecretKeySelector) (name : String)
    → has_name (insert_if_some (selected ignition) (insert_if_some pull [])) name
      ≡ (refers_to pull name || refers_to (selected ignition) name)
names none none name = refl
names none (some s) name = ground arith
names (some p) none name = ground arith
names (some p) (some s) name = ground (arith, eq_iff p s.name)

-- A secret is among a machine's exactly when its image pull secret or its ignition is that secret.
pub has_name-machine_spec_secret_names :
    (m : Machine) (name : String)
    → has_name (machine_spec_secret_names m) name
      ≡ (refers_to m.image_pull_secret_ref name || refers_to (selected m.ignition_ref) name)
unfolding machine_spec_secret_names
has_name-machine_spec_secret_names m name = names m.image_pull_secret_ref m.ignition_ref name
