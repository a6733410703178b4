-- ===== src/Examples/Referenced.antt =====
-- The dependents of secrets and namespaces in a world with one machine, which is in another
-- namespace than the secret.
use poollet.Base.{[], ◌∷◌, List, some, ◌≡◌, refl, ◌&&◌, ◌==◌}
use poollet.Errors.{ok, err, not_found, ◌>>=◌}
use poollet.Api.Metadata.{machine, namespace, secret, MetaObject}
use poollet.Api.Objects.{Machine}
use poollet.Prog.{
  Op, Reply, get, list, create, patch, patch_status, delete, delete_if_exists, create_or_patch,
  ensure_finalizer, ensure_no_finalizer, remove_finalizer, provider_target, event,
}
use poollet.Dependents.{is_referenced, is_referenced_cached}
use poollet.Dependents.Builder.Setups.{setup_machine_to_secret, setup_machine_to_namespace}
use poollet.Dependents.Builder.World.{eval, any, uses, filter, selects, IsWorldOf}
use poollet.Dependents.Builder.World.Machines.{
  is_referenced_cached-setup_machine_to_secret, is_referenced-setup_machine_to_secret,
  is_referenced-setup_machine_to_namespace,
}
use poollet.Examples.Objects.{source_machine, source_metadata, source_namespace}

abbrev machines : List Machine
machines = source_machine ∷ []

-- Lists of machines are answered, and everything else is not found.
abbrev answer : (o : Op) → Reply o
answer (list reader machine options) = ok (filter (selects options) machines)
answer (list reader kind options) = err not_found
answer (get reader kind key) = err not_found
answer (create side kind obj) = err not_found
answer (patch side kind base obj) = err not_found
answer (patch_status side kind base obj) = err not_found
answer (delete side kind key) = err not_found
answer (delete_if_exists side kind key) = err not_found
answer (create_or_patch side kind obj mutate) = err not_found
answer (ensure_finalizer side kind obj finalizer) = err not_found
answer (ensure_no_finalizer side kind obj finalizer) = err not_found
answer (remove_finalizer side kind obj finalizer) = err not_found
answer (provider_target kind key) = err not_found
answer (event kind key text) = tt

world : IsWorldOf answer machines
world = record { lists_cached = λ options. refl; lists_live = λ namespace. refl }

-- A secret of the name that the machine's ignition has, in another namespace.
abbrev elsewhere : MetaObject
elsewhere = record {
  kind = some secret;
  metadata = record (source_metadata "ignition" []) { namespace = "other" };
}

is_referenced_cached-setup_machine_to_secret_example :
    (setup_machine_to_secret [] "pool" >>= λ b.
    eval answer (is_referenced_cached b.dependents elsewhere))
    ≡ ok (
        any
          (λ m.
            (m.metadata.namespace == elsewhere.metadata.namespace)
            && uses "pool" elsewhere.metadata.name m)
          machines)
is_referenced_cached-setup_machine_to_secret_example =
    is_referenced_cached-setup_machine_to_secret answer machines world "pool" elsewhere refl

is_referenced-setup_machine_to_secret_example :
    (setup_machine_to_secret [] "pool" >>= λ b. eval answer (is_referenced b.dependents elsewhere))
    ≡ ok (any (uses "pool" elsewhere.metadata.name) machines)
is_referenced-setup_machine_to_secret_example =
    is_referenced-setup_machine_to_secret answer machines world "pool" elsewhere refl

-- Another pool than the machine's.
abbrev home : MetaObject
home = record { kind = some namespace; metadata = source_namespace.metadata }

is_referenced-setup_machine_to_namespace_example :
    (setup_machine_to_namespace [] "another" >>= λ b. eval answer (is_referenced b.dependents home))
    ≡ ok (any (λ m. m.metadata.namespace == home.metadata.name) machines)
is_referenced-setup_machine_to_namespace_example =
    is_referenced-setup_machine_to_namespace answer machines world "another" home
