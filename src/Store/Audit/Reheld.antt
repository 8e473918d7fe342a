-- ===== src/Store/Audit/Reheld.antt =====
-- Where the references that a queue, a promise or the crank buffer holds go when its rows change.
use ocap_kernel.Refs.{kref_eq, kp, ko, KRef}
use ocap_kernel.Store.Audit.Laws.{IsAudited}
use ocap_kernel.Store.Audit.Weights.{occurrences, held, expected_recognizable, expected_reachable}
use ocap_kernel.Prelude.{arith, ◌+◌, ◌≡◌, List}
use ocap_kernel.Dict.{IsDict}
use ocap_kernel.Store.State.{Store}

pub reheld-IsAudited :
    {hand next : List KRef} (s t : Store)
    → t.by_kref ≡ s.by_kref
    → t.gc_actions ≡ s.gc_actions
    → t.object_counts ≡ s.object_counts
    → t.promise_counts ≡ s.promise_counts
    → t.pinned ≡ s.pinned
    → IsDict t.promise_state
    → IsDict t.promise_queue
    → ((k : KRef) → held t k + occurrences k next ≡ held s k + occurrences k hand)
    → IsAudited hand s
    → IsAudited next t
unfolding expected_reachable expected_recognizable
reheld-IsAudited s t e g o p n d q h a = record {
  balanced = elim [
    | ko j ↦ ground (arith, a.balanced (ko j), h (ko j))
    | kp j ↦ ground (arith, a.balanced (kp j), h (kp j))
  ];
  clist_rows = rw (e) a.clist_rows;
  pin_rows = rw (n) a.pin_rows;
  promise_rows = d;
  queue_rows = q;
  kinds = λ i k x r. a.kinds i k x (ground arith);
  retired = λ i k r. rw (o) (a.retired i k (ground arith));
}
