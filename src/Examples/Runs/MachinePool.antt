-- ===== src/Examples/Runs/MachinePool.antt =====
-- A run of the machine pool controller: the pool is deleted, and a machine is still in it.
use poollet.Base.{[], ◌∷◌, List, String, some}
use poollet.Errors.{ok}
use poollet.Api.Objects.{MachinePool}
use poollet.Prog.Trace.{Accepts}
use poollet.Prog.Replay.{Replies, trace_of, run_of}
use poollet.Controllers.MachinePool.{reconcile_exists}
use poollet.Controllers.MachinePool.Order.{machine_pool_run-Accepts, AllowedPool, see, unseen}
use poollet.Examples.Objects.{config, source_machine, source_metadata}

abbrev pool : MachinePool
pool = record {
  metadata = record (source_metadata "pool" ("pool.broker.poollet.onmetal.de/machinepool" ∷ [])) {
    deletion_timestamp = some 1;
  };
  provider_id = "";
  state = "Pending";
  available_machine_classes = [];
}

-- A set's list for names that are sorted and distinct.
abbrev as_inserted : List String → List String
as_inserted names = names

abbrev replies : Replies (reconcile_exists config as_inserted pool)
unfolding reconcile_exists
replies = (ok (source_machine ∷ []), (ok tt, tt))

machine_pool_run-Accepts_example :
    Accepts see
      (AllowedPool config as_inserted pool)
      unseen
      (trace_of (reconcile_exists config as_inserted pool) replies)
machine_pool_run-Accepts_example =
    machine_pool_run-Accepts config as_inserted pool
      (run_of (reconcile_exists config as_inserted pool) replies)
