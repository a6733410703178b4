-- ===== src/Examples/Requested.antt =====
-- The handlers that make requests from list calls, at a concrete event.
use poollet.Base.{false, [], ◌∷◌, ◌≡◌, refl}
use poollet.Errors.{ok, err, not_found}
use poollet.Api.Metadata.{namespace, secret, machine}
use poollet.Prog.{ObjectKey, cached, live, source}
use poollet.Prog.Trace.{Accepts, after}
use poollet.Prog.Replay.{Replies, trace_of, run_of, result_of}
use poollet.Handlers.{Event, update, create}
use poollet.Requests.{on_event, by_field_reference, on_namespace_created, request_all}
use poollet.Requests.Listed.{by_field_reference-Requested, given, AllowedList, Requested}
use poollet.Requests.NamespaceCreated.{on_namespace_created-set_controller_reference}
use poollet.Examples.Codec.{machinery, machinery-IsLossless, machinery-ParsesPrinted, gvk_for}
use poollet.Examples.Objects.{source_secret, source_machine, source_namespace, target_namespace}
use poollet.Examples.Volumes.{controlled_namespace, made_controlled}

-- A secret has changed, and one machine names it.
abbrev changed : Event
changed = update source_secret.metadata source_secret.metadata

abbrev machine_key : ObjectKey
machine_key = record { namespace = "default"; name = "m" }

abbrev replies :
    Replies
      (on_event (by_field_reference (cached source) machine "machine-spec-secret-names") changed)
unfolding on_event by_field_reference
replies = (err not_found, (ok (source_machine ∷ []), tt))

by_field_reference-Requested_example :
    Accepts
      (given (cached source) machine "machine-spec-secret-names" changed machine_key)
      (AllowedList (cached source) machine "machine-spec-secret-names" changed machine_key)
      false
      (trace_of
        (on_event (by_field_reference (cached source) machine "machine-spec-secret-names") changed)
        replies)
    × Requested
        (cached source)
        machine
        "machine-spec-secret-names"
        changed
        machine_key
        (after
          (given (cached source) machine "machine-spec-secret-names" changed machine_key)
          (AllowedList (cached source) machine "machine-spec-secret-names" changed machine_key)
          false
          (trace_of
            (on_event
              (by_field_reference (cached source) machine "machine-spec-secret-names")
              changed)
            replies))
        (result_of
          (on_event
            (by_field_reference (cached source) machine "machine-spec-secret-names")
            changed)
          replies)
by_field_reference-Requested_example =
    by_field_reference-Requested (cached source) machine "machine-spec-secret-names" machine_key
      changed
      (run_of
        (on_event (by_field_reference (cached source) machine "machine-spec-secret-names") changed)
        replies)

on_namespace_created-set_controller_reference_example :
    on_namespace_created machinery
      (live source)
      "main"
      secret
      (create controlled_namespace.metadata)
    ≡ request_all (live source) secret "default" []
on_namespace_created-set_controller_reference_example =
    on_namespace_created-set_controller_reference machinery (live source) "main" secret namespace
      (gvk_for namespace) source_namespace.metadata target_namespace.metadata
      controlled_namespace.metadata machinery-IsLossless machinery-ParsesPrinted refl
      made_controlled
