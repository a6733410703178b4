-- ===== src/Examples/Runs/NamespaceController.antt =====
-- A run of the reconciler of namespaces: there is no target, it is used, and the target is created.
use poollet.Base.Dict.{lookup}
use poollet.Multicluster.Meta.{get_object_meta, get_owner_references}
use poollet.Base.{false, [], refl}
use poollet.Base.Lists.{All}
use poollet.Errors.{is_not_found, ok}
use poollet.Prog.Trace.{Accepts}
use poollet.Prog.Replay.{Replies, trace_of, run_of}
use poollet.Dependents.References.{IsUnmoved}
use poollet.Controllers.NamespaceController.{reconcile_exists}
use poollet.Controllers.NamespaceController.Protocol.{AllowedNamespace, see, unseen}
use poollet.Controllers.NamespaceController.Order.{namespace_run-Accepts}
use poollet.Examples.Codec.{machinery}
use poollet.Examples.Objects.{
  config, source_namespace, source_machine, target_namespace, one_dependent,
}

abbrev replies : Replies (reconcile_exists machinery config one_dependent source_namespace)
unfolding reconcile_exists is_not_found get_owner_references get_object_meta lookup
replies = (ok [], (ok source_machine, (ok source_machine, (ok false, (ok target_namespace, tt)))))

one_dependent-IsUnmoved :
    All (IsUnmoved see (AllowedNamespace machinery config source_namespace)) one_dependent
one_dependent-IsUnmoved = (
  record {
    cached_unmoved = λ referenced s. (tt, λ r. refl);
    live_unmoved = λ referenced s. (tt, λ r. refl);
  },
  tt,
)

namespace_run-Accepts_example :
    Accepts see
      (AllowedNamespace machinery config source_namespace)
      unseen
      (trace_of (reconcile_exists machinery config one_dependent source_namespace) replies)
namespace_run-Accepts_example =
    namespace_run-Accepts machinery config one_dependent source_namespace refl
      one_dependent-IsUnmoved
      (run_of (reconcile_exists machinery config one_dependent source_namespace) replies)
