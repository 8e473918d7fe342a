-- ===== src/Kernel/Enqueue.antt =====
-- What `KernelQueue` does to enqueue: sends, notifications and the flush of the crank buffer.
use ocap_kernel.Prelude.{ℕ, ltb, length, some, true, [], none, ◌++◌, ◌∷◌, false, Bool, List, Option}
use ocap_kernel.Exec.{
  pure, not_decider, when, gets, require, ◌>>=◌, ◌>>◌, not_unresolved, raise, done, for_each,
  modify, ok,
}
use ocap_kernel.Store.Promise.{
  resolve_kernel_promise, charge_message, get_kernel_promise, settled, pending, KernelPromise,
}
use ocap_kernel.Dict.{has, delete, get}
use ocap_kernel.Refs.{option_owner_beq, kref_eq, Owner, EndpointId, KRef}
use ocap_kernel.Store.RefCount.{plain_ref, increment_ref_count}
use ocap_kernel.Kernel.State.{KernelOneResolution, on_store, K, KernelQueue}
use ocap_kernel.Store.State.{send, CapData, Message, Store, notify, M, RunQueueItem}

-- `#wakeRunLoop`
unfoldable pub wake_run_loop : KernelQueue → KernelQueue
wake_run_loop q = record q { is_asleep = false }

-- `kernelStore.enqueueRun` and `kernelStore.runQueueLength`, on the list that the stored queue holds
abbrev pub append_run : RunQueueItem → Store → Store
append_run i s = record s { run_queue = s.run_queue ++ i ∷ [] }

-- `#enqueueRun`
unfoldable pub enqueue_run_item : RunQueueItem → K (Unit {0})
unfolding wake_run_loop
enqueue_run_item i = do
  on_store (modify (append_run i))
  n ← gets (λ q. length q.store.run_queue)
  when (ltb 0 n) (modify wake_run_loop)

-- `kernelStore.bufferCrankOutput`
abbrev pub buffer_output : RunQueueItem → Store → Store
buffer_output i s = record s { crank_buffer = s.crank_buffer ++ i ∷ [] }

-- To the run queue if `immediate` is true, and to the crank buffer if not
unfoldable pub put_item : Bool → RunQueueItem → K (Unit {0})
unfolding enqueue_run_item
put_item true i = enqueue_run_item i
put_item false i = on_store (modify (buffer_output i))

-- `enqueueSend`
unfoldable pub enqueue_send : KRef → Message → Bool → K (Unit {0})
unfolding put_item
enqueue_send k m immediate = do on_store (charge_message k m); put_item immediate (send k m)

-- `enqueueNotify`
unfoldable pub enqueue_notify : EndpointId → KRef → Bool → K (Unit {0})
unfolding put_item
enqueue_notify e k immediate = do
  on_store (increment_ref_count k plain_ref)
  put_item immediate (notify e k)

abbrev is_rejected : KernelPromise → Bool
is_rejected (pending d subs) = false
is_rejected (settled b v) = b

abbrev value_of : KernelPromise → Option CapData
value_of (pending d subs) = none
value_of (settled b v) = some v

abbrev pub settle_found : KRef → Bool → Option CapData → Option ℕ → KernelQueue → KernelQueue
settle_found k b v none q = q
settle_found k b v (some n) q = record q {
  subscriptions = delete k q.subscriptions;
  settlements = q.settlements ++ record { subscriber = n; rejected = b; value = v } ∷ [];
}

-- `#settleKernelSubscription`
unfoldable pub settle_kernel_subscription : KRef → Bool → Option CapData → KernelQueue → KernelQueue
settle_kernel_subscription k b v q = settle_found k b v (get k q.subscriptions) q

-- `#invokeKernelSubscription`
unfoldable pub invoke_kernel_subscription : KRef → K (Unit {0})
unfolding settle_kernel_subscription
invoke_kernel_subscription k = do
  subscribed ← gets (λ q. has k q.subscriptions)
  when subscribed (do
    p ← on_store (get_kernel_promise k)
    modify (settle_kernel_subscription k (is_rejected p) (value_of p)))

-- `kernelStore.flushCrankBuffer`
abbrev pub take_buffer : M (List RunQueueItem)
take_buffer s = (ok s.crank_buffer, record s { crank_buffer = [] })

-- The call for a notification only
unfoldable pub notified : RunQueueItem → K (Unit {0})
unfolding invoke_kernel_subscription
notified (notify e k) = invoke_kernel_subscription k
notified _ = done

-- The loop over `#resolvedWithKernelSubscription`
unfoldable pub settle_all : List KernelOneResolution → KernelQueue → KernelQueue
unfolding settle_kernel_subscription
settle_all [] q = q
settle_all (r ∷ rs) q =
    settle_all rs (settle_kernel_subscription r.kpid r.rejected (some r.value) q)

unfoldable pub flush_item : RunQueueItem → K (Unit {0})
unfolding enqueue_run_item notified
flush_item i = do enqueue_run_item i; notified i

-- `#flushCrankBuffer`
unfoldable pub flush_crank_buffer : K (Unit {0})
unfolding flush_item settle_all
flush_crank_buffer = do
  items ← on_store take_buffer
  for_each items flush_item
  modify (λ q. record (settle_all q.resolved_with_kernel_subscription q) {
    resolved_with_kernel_subscription = [];
  })

-- The guards of `resolvePromises`: the promise is unresolved and this endpoint decides it.
unfoldable pub permitted_subscribers : Option Owner → KernelPromise → K (List EndpointId)
permitted_subscribers who (settled b v) = raise not_unresolved
permitted_subscribers who (pending d subs) = do
  require (option_owner_beq d who) not_decider
  pure subs

-- After a resolution, subscribers are told at once or at the flush.
unfoldable pub tell_subscriber : Bool → KernelOneResolution → K (Unit {0})
unfolding invoke_kernel_subscription
tell_subscriber true r = invoke_kernel_subscription r.kpid
tell_subscriber false r = do
  subscribed ← gets (λ q. has r.kpid q.subscriptions)
  when subscribed (
      modify (λ q. record q {
        resolved_with_kernel_subscription = q.resolved_with_kernel_subscription ++ r ∷ [];
      }))

-- One round of `resolvePromises`
unfoldable pub resolve_one : Option Owner → Bool → KernelOneResolution → K (Unit {0})
unfolding permitted_subscribers enqueue_notify enqueue_send tell_subscriber
resolve_one who immediate r = do
  p ← on_store (get_kernel_promise r.kpid)
  subs ← permitted_subscribers who p
  on_store (for_each r.value.slots (λ j. increment_ref_count j plain_ref))
  for_each subs (λ e. enqueue_notify e r.kpid immediate)
  ms ← on_store (resolve_kernel_promise r.kpid r.rejected r.value)
  for_each ms (λ p. enqueue_send p.0 p.1 immediate)
  tell_subscriber immediate r

-- `resolvePromises`
unfoldable pub resolve_promises : Option Owner → List KernelOneResolution → Bool → K (Unit {0})
unfolding resolve_one
resolve_promises who rs immediate = for_each rs (resolve_one who immediate)
