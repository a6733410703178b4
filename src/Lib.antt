-- ===== src/Lib.antt =====
-- A verification library for poollet: the brokers that sync machines, volumes and the objects they
-- need from a source cluster to a target cluster.
--
-- How the program is put together: a reconciler per kind of object (broker/controllers/) takes a
-- source object, decides whether it is used, and either deletes its target object or creates and
-- patches it. The target's namespace, and the targets of the objects that it refers to, come from
-- a registry of providers (broker/provider). What is to be written is collected as mutations
-- (broker/sync), and applied to an object that the source object controls (broker/client), by an
-- owner reference that reaches over clusters (multicluster/). An event of a target leads back to
-- its source by that reference (broker/handler).
--
-- The files:
--   Errors, Sync, Domain, Provider: broker/errors, broker/sync, broker/domain, broker/provider.
--   Multicluster/: multicluster/meta (Reference, Meta) and multicluster/controllerutil (OwnerRefs).
--   Api/: the fields of the Kubernetes and onmetal objects that the code uses, and a record of the
--     API machinery that it calls.
--   Prog, Prog/Trace: a handler as a program of client calls. Every reply is left open, so a
--     statement on all runs holds whatever the clusters answer, and other writers are covered.
--   Protocol: the order in which a reconciler may touch the clusters, as an automaton over calls. A
--     Subject fixes the object, the finalizer and what of the object's status may be patched; the
--     namespace and the pool controllers, and Usage/Answer, have automata of their own.
--   BrokerClient, SingleClient, SingleClient/Generate: broker/client/client.go and
--     client/client.go.
--   Dependents: broker/dependents/dependent.go; Dependents/Listing its listreferencer.go,
--     Dependents/Builder its builder/dependent.go, and Builder/Setups the dependents of
--     api/*/dependent. Builder/World runs them on the answers for one list of machines.
--   Helpers, Usage: api/*/helper and api/*/controller.
--   Handlers: broker/handler/enqueuerequestforbrokerowner.go and broker/predicate/predicate.go.
--   Requests: the other handlers, of handler/, broker/handler/ and broker/core/handler/, and the
--     NameLabelsPredicate of broker/predicate/predicate.go.
--   Hash: hash/hash.go. VolatileConditions: predicate/predicate.go.
--   FieldExtractor: broker/client/field.go.
--   Controllers/: a module per file of broker/controllers/. `handle` is Reconcile, `delete`,
--     `reconcile` and `reconcile_exists` have the source's names, `target_for` is Target. Apply and
--     Obeys hold what they share; the child Order of a controller has the theorem on its runs.
--     VolumeAppliers and Access are broker/controllers/storage/volume.go, its interface a record.
--   Controllers/Volumes/: the four reconcilers of volumes, of volumebrokerlet, proxyvolumebrokerlet,
--     partitionlet and machinebrokerlet. Protocol is the order that they share, with what an
--     applier has to keep to (IsApplier), which SyncApplier and ProxyApplier fill; a Policy says for
--     a reconciler whether it proxies volumes and whether it copies access and state back.
--     Controllers/Secret/Clusters runs the secret controller against two clusters that nobody else
--     writes to, whose answers are a parameter with named laws (IsApi).
--   Examples/: concrete objects, an encoder, and each theorem at a concrete input.
--
-- Conventions: a Go error is an `Option Error`, and a value with an error a `Result`. A pointer is
-- an `Option`; a map is an association list, a set the list of its members. A closure over the
-- target object is a function on it. The loops are recursions on their lists, so no fuel is used.
-- The texts of messages and events are kept without their parameters, and log lines are left out.
--
-- Parameters: the scheme, the parser of group versions and the JSON encoder (Machinery), the
-- onmetal helpers in controllers/shared (Shared), the converter to unstructured objects
-- (Unstructured), the list of a string set (list_of), with the sum of two resource lists
-- (PoolLibrary), the owner references inside one cluster (LocalControllers), the selector of labels
-- (matches) and the bytes of a text (bytes). What an event handler extracts from an object, or maps
-- it to, is an argument. Theorems on what is read back from an annotation assume that the encoder
-- loses nothing (IsLossless), and those on an owner's kind that a printed group version is parsed
-- back (ParsesPrinted), which the examples satisfy.
--
-- Not modelled: the managers, builders and commands (broker/manager, broker/builder, the main.go
-- of each binary), the injection of clients, the registration of indexes and watches, and the
-- server-side apply by which the pool controllers make their pool before the manager starts: they
-- only wire up what is modelled, through the controller runtime. Event filters are only handed on.
pub mod Base
pub mod Multicluster
pub mod Errors
pub mod Api
pub mod Prog
pub mod Protocol
pub mod Dependents
pub mod Helpers
pub mod Usage
pub mod Provider
pub mod BrokerClient
pub mod Controllers
pub mod Sync
pub mod Domain
pub mod VolatileConditions
pub mod FieldExtractor
pub mod Handlers
pub mod Requests
pub mod Hash
pub mod SingleClient
pub mod Examples
