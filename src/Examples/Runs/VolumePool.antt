-- ===== src/Examples/Runs/VolumePool.antt =====
-- A run of the volume pool controller: the status is summed up from the target pools.
use poollet.Errors.{ok}
use poollet.Prog.Trace.{Accepts}
use poollet.Prog.Replay.{Replies, trace_of, run_of}
use poollet.Controllers.VolumePool.{reconcile_exists}
use poollet.Controllers.VolumePool.Order.{volume_pool_run-Accepts, AllowedPool, see, unseen}
use poollet.Examples.Objects.{config}
use poollet.Examples.Sums.{library, pool, first_target}

abbrev replies : Replies (reconcile_exists config library pool)
unfolding reconcile_exists
replies = (ok first_target, (ok pool, tt))

volume_pool_run-Accepts_example :
    Accepts see
      (AllowedPool config library pool)
      unseen
      (trace_of (reconcile_exists config library pool) replies)
volume_pool_run-Accepts_example =
    volume_pool_run-Accepts config library pool
      (run_of (reconcile_exists config library pool) replies)
