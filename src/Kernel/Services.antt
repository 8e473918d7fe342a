-- ===== src/Kernel/Services.antt =====
-- Messages to the kernel's services.
use ocap_kernel.Prelude.{refl, arith, none, ◌≡◌, false, ℕ, ◌++◌, ◌∷◌, some, List, Option}
use ocap_kernel.Kernel.Routing.{bind-Returns, counted-Returns, Returns}
use ocap_kernel.Store.Audit.Messages.{decrements-Recounts, message_refs, result_refs}
use ocap_kernel.Exec.{pure, for_each, ◌>>◌, ok}
use ocap_kernel.Store.Audit.Reheld.{reheld-IsAudited}
use ocap_kernel.Kernel.State.{K, on_store, KernelQueue}
use ocap_kernel.Store.Audit.Shares.{occurrences-append, same_hand-IsAudited}
use ocap_kernel.Store.Audit.Hand.{decrement-Recounts}
use ocap_kernel.Store.Object.{get_owner}
use ocap_kernel.Store.Promise.{decrement, set_promise_decider}
use ocap_kernel.Store.Revocation.{is_revoked}
use ocap_kernel.Kernel.Router.{
  deliver_to, with_queue_result, route_to_owner, deliver_along, route_as_send, CrankResult,
  Surroundings, route_message, deliver_send, hand_over_result,
}
use ocap_kernel.Refs.{ko, kernel, Owner, KRef}
use ocap_kernel.Store.Audit.Laws.{IsAudited}
use ocap_kernel.Store.Audit.Weights.{held, occurrences}
use ocap_kernel.Store.State.{Message}

hand_over_result-Returns :
    {hand : List KRef} (o : Owner) (k : KRef) (q : KernelQueue)
    → IsAudited (k ∷ hand) q.store
    → Returns hand tt (hand_over_result o k q)
unfolding hand_over_result set_promise_decider held
hand_over_result-Returns o k q a =
    counted-Returns (decrement k) (record q { store = set_promise_decider k o q.store })
      (decrement-Recounts (set_promise_decider k o q.store) k (
        reheld-IsAudited q.store _ refl refl refl refl refl a.promise_rows a.queue_rows (λ j. refl)
          a))

hand_over-Returns :
    {hand : List KRef} (o : Owner) (x : Option KRef) (q : KernelQueue)
    → IsAudited (result_refs x ++ hand) q.store
    → Returns hand tt (with_queue_result x (hand_over_result o) q)
hand_over-Returns o none q a = record { outcome = refl; audited = a }
hand_over-Returns o (some k) q a = hand_over_result-Returns o k q a

-- The target and the slots of a message, with the references that are not of it
apart :
    (j k : KRef) (m : Message) (hand : List KRef)
    → occurrences j (k ∷ (message_refs m ++ hand))
      ≡ occurrences j (result_refs m.result ++ (k ∷ (m.methargs.slots ++ hand)))
apart j k m hand = omega (
  arith,
  occurrences-append j (message_refs m) hand,
  occurrences-append j (result_refs m.result) m.methargs.slots,
  occurrences-append j (result_refs m.result) (k ∷ (m.methargs.slots ++ hand)),
  occurrences-append j m.methargs.slots hand,
)

abbrev kernel_result : Option CrankResult
kernel_result = some (record { did_delivery = kernel; is_aborted = false; terminated = none })

module _ {hand : List KRef} (r : Surroundings) (j k : KRef) (m : Message) where
  -- What is left to give back once the service is called
  closing_up :
      (q : KernelQueue)
      → IsAudited (k ∷ (m.methargs.slots ++ hand)) q.store
      → Returns hand kernel_result (
          (on_store (decrement k)
              >> (on_store (for_each m.methargs.slots decrement) >> pure kernel_result))
            q)
  closing_up q a =
      let x = counted-Returns (decrement k) q (decrement-Recounts q.store k a) in
      let t = (on_store (decrement k) q).1 in
      let y =
        counted-Returns (for_each m.methargs.slots decrement) t
          (decrements-Recounts m.methargs.slots t.store x.audited) in
      bind-Returns q (on_store (decrement k))
        (λ u. on_store (for_each m.methargs.slots decrement) >> pure kernel_result) tt kernel_result
        x
        (bind-Returns t (on_store (for_each m.methargs.slots decrement)) (λ u. pure kernel_result)
          tt kernel_result y (record { outcome = refl; audited = y.audited }))

  service-Returns :
      (q : KernelQueue)
      → ((rest : List KRef) (t : KernelQueue)
          → IsAudited rest t.store
          → Returns rest tt (r.invoke_kernel_service j m t))
      → IsAudited (k ∷ (message_refs m ++ hand)) q.store
      → Returns hand kernel_result (deliver_along r (deliver_to kernel j) k m q)
  unfolding deliver_along
  service-Returns q e a =
      let x =
        hand_over-Returns kernel m.result q
          (same_hand-IsAudited q.store (λ i. apart i k m hand) a) in
      let t = (with_queue_result m.result (hand_over_result kernel) q).1 in
      let y = e (k ∷ (m.methargs.slots ++ hand)) t x.audited in
      let w = (r.invoke_kernel_service j m t).1 in
      let rest : K (Option CrankResult) =
        on_store (decrement k)
        >> (on_store (for_each m.methargs.slots decrement) >> pure kernel_result) in
      bind-Returns q (with_queue_result m.result (hand_over_result kernel))
        (λ u. r.invoke_kernel_service j m >> rest) tt kernel_result x
        (bind-Returns t (r.invoke_kernel_service j m) (λ u. rest) tt kernel_result y
          (closing_up w y.audited))

-- A message whose references are in hand, sent to an object that the kernel owns and that is not revoked,
-- returns a crank result of the kernel and leaves the store audited without them in hand, if the kernel's
-- service returns and keeps every audited store audited.
pub deliver_send-service :
    {hand : List KRef} (r : Surroundings) (n : ℕ) (m : Message) (q : KernelQueue)
    → ((rest : List KRef) (t : KernelQueue)
        → IsAudited rest t.store
        → Returns rest tt (r.invoke_kernel_service (ko n) m t))
    → IsAudited (ko n ∷ (message_refs m ++ hand)) q.store
    → is_revoked (ko n) q.store ≡ false
    → get_owner (ko n) q.store ≡ some kernel
    → ((deliver_send r (ko n) m q).0
        ≡ ok (some (record { did_delivery = kernel; is_aborted = false; terminated = none })))
      × IsAudited hand (deliver_send r (ko n) m q).1.store
unfolding deliver_send route_message route_as_send route_to_owner
deliver_send-service r n m q e a v o =
    let y = service-Returns r (ko n) (ko n) m q e a in rw (v, o) (y.outcome, y.audited)
