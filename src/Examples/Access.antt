-- ===== src/Examples/Access.antt =====
-- A run of the access applier: the access secret is created.
use poollet.Base.{[], some, none}
use poollet.Errors.{is_not_found, ok}
use poollet.Prog.Trace.{after}
use poollet.Prog.Replay.{Replies, trace_of, run_of, result_of}
use poollet.Controllers.Access.{apply_access}
use poollet.Controllers.Access.Returned.{apply_access-Returned, Returned, see_written, AnyCall}
use poollet.Examples.Codec.{machinery}
use poollet.Examples.Objects.{source_secret}
use poollet.Examples.Local.{local, pool_volume, accessible, access, target_secret}

abbrev replies : Replies (apply_access machinery local "onmetal.de" pool_volume accessible)
unfolding apply_access is_not_found
replies = (ok target_secret, (ok [], (ok source_secret, tt)))

apply_access-Returned_example :
    Returned
      (some access)
      (after see_written AnyCall none
        (trace_of (apply_access machinery local "onmetal.de" pool_volume accessible) replies))
      (result_of (apply_access machinery local "onmetal.de" pool_volume accessible) replies)
apply_access-Returned_example =
    apply_access-Returned machinery local "onmetal.de" pool_volume accessible
      (run_of (apply_access machinery local "onmetal.de" pool_volume accessible) replies)
