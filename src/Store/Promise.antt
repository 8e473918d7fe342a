-- ===== src/Store/Promise.antt =====
-- Kernel promises (packages/ocap-kernel/src/store/methods/promise.ts). A promise's message queue is
-- the list of its entries.
use ocap_kernel.Store.State.{
  includes, fulfilled, rejected, unresolved, Store, M, CapData, Message, PromiseState, set_add,
}
use ocap_kernel.Prelude.{
  not, length, zero, ◌&&◌, suc, ℕ, ◌+◌, Bool, true, false, Option, none, some, List, [], ◌∷◌, ◌++◌,
  if◌then◌else◌, map,
}
use ocap_kernel.Exec.{
  missing_row, not_promise, not_unresolved, ok, out_of_fuel, unknown_promise, pure, raise, modify,
  gets, required, require, for_each, done, ◌>>=◌, ◌>>◌,
}
use ocap_kernel.Refs.{endpoint_eq, kp, is_promise_ref, kref_eq, EndpointId, KRef, Owner}
use ocap_kernel.Dict.{get, put, delete, has}
use ocap_kernel.Store.RefCount.{increment_ref_count, decrement_ref_count, plain_ref}
use ocap_kernel.Text.Decimal.{endpoint_text}
use ocap_kernel.Text.Order.{sort}

-- `KernelPromise`: an unresolved promise has a decider, if one is set, and subscribers; a settled one
-- has a value.
pub data KernelPromise : Type 0 where
  pending : Option Owner → List EndpointId → KernelPromise
  settled : Bool → CapData → KernelPromise

-- `provideStoredQueue(kpid)`: the queue is made if it is not there.
unfoldable pub provide_queue : KRef → Store → Store
provide_queue k s =
    if has k s.promise_queue then s else record s { promise_queue = put k [] s.promise_queue }

abbrev pub queued : Option (List Message) → List Message
queued none = []
queued (some ms) = ms

-- `getNextPromiseId`
unfoldable pub get_next_promise_id : M KRef
get_next_promise_id s =
    (ok (kp s.next_promise_id), record s { next_promise_id = s.next_promise_id + 1 })

-- The rows that `initKernelPromise` writes for a new promise.
unfoldable pub write_new_promise : KRef → Store → Store
unfolding provide_queue
write_new_promise k s =
    let t = provide_queue k s in
    record t {
      promise_state = put k unresolved t.promise_state;
      subscribers = put k [] t.subscribers;
      promise_counts = put k 1 t.promise_counts;
    }

-- `initKernelPromise`
unfoldable pub init_kernel_promise : M KRef
unfolding get_next_promise_id write_new_promise
init_kernel_promise = do k ← get_next_promise_id; modify (write_new_promise k); pure k

-- `getKernelPromise`, by the state that the promise has
unfoldable pub read_promise : KRef → Option PromiseState → M KernelPromise
read_promise k none s = raise unknown_promise s
read_promise k (some unresolved) s =
    (do
      subs ← λ s. required (get k s.subscribers) missing_row s
      d ← gets (λ s. get k s.decider)
      pure (pending d subs))
      s
read_promise k (some fulfilled) s =
    (do v ← λ s. required (get k s.value) missing_row s; pure (settled false v)) s
read_promise k (some rejected) s =
    (do v ← λ s. required (get k s.value) missing_row s; pure (settled true v)) s

unfoldable pub get_kernel_promise : KRef → M KernelPromise
unfolding read_promise
get_kernel_promise k = do
  require (is_promise_ref k) not_promise
  λ s. read_promise k (get k s.promise_state) s

-- `deleteKernelPromise`
unfoldable pub delete_kernel_promise : KRef → Store → Store
delete_kernel_promise k s = record s {
  promise_state = delete k s.promise_state;
  decider = delete k s.decider;
  subscribers = delete k s.subscribers;
  value = delete k s.value;
  promise_counts = delete k s.promise_counts;
  promise_queue = delete k s.promise_queue;
}

-- The subscribers of a promise that may get one more
abbrev pub unresolved_subscribers : KernelPromise → M (List EndpointId)
unresolved_subscribers (pending d subs) = pure subs
unresolved_subscribers (settled b v) = raise not_unresolved

-- `addPromiseSubscriber`
unfoldable pub add_promise_subscriber : EndpointId → KRef → M (Unit {0})
unfolding get_kernel_promise
add_promise_subscriber e k = do
  p ← get_kernel_promise k
  subs ← unresolved_subscribers p
  modify (λ s. record s { subscribers = put k (sort endpoint_text (set_add e subs)) s.subscribers })

-- `setPromiseDecider`
unfoldable pub set_promise_decider : KRef → Owner → Store → Store
set_promise_decider k o s = record s { decider = put k o s.decider }

-- `getKernelPromiseMessageQueue`: the queue is read to its end, which empties it.
unfoldable pub get_kernel_promise_message_queue : KRef → M (List Message)
get_kernel_promise_message_queue k s =
    (ok (queued (get k s.promise_queue)), record s { promise_queue = put k [] s.promise_queue })

abbrev pub with_result : Option KRef → (KRef → M (Unit {0})) → M (Unit {0})
with_result none f = done
with_result (some k) f = f k

abbrev pub decrement : KRef → M (Unit {0})
decrement k = decrement_ref_count k plain_ref >> done

-- `releaseQueuedMessageRefs`
unfoldable pub release_queued_message_refs : KRef → Message → M (Unit {0})
release_queued_message_refs k m = do
  decrement k
  with_result m.result decrement
  for_each m.methargs.slots decrement

-- The references that a queued message takes to its target, its result and its slots
unfoldable pub charge_message : KRef → Message → M (Unit {0})
charge_message k m = do
  increment_ref_count k plain_ref
  with_result m.result (λ j. increment_ref_count j plain_ref)
  for_each m.methargs.slots (λ j. increment_ref_count j plain_ref)

-- `enqueuePromiseMessage`
unfoldable pub enqueue_promise_message : KRef → Message → M (Unit {0})
unfolding charge_message
enqueue_promise_message k m = do
  charge_message k m
  modify (λ s. record s {
    promise_queue = put k (queued (get k s.promise_queue) ++ m ∷ []) s.promise_queue;
  })

-- The rows that `resolveKernelPromise` writes and deletes once the queue is empty.
unfoldable pub write_settled : KRef → Bool → CapData → Store → Store
write_settled k rejecting v s = record s {
  promise_state = put k (if rejecting then rejected else fulfilled) s.promise_state;
  value = put k v s.value;
  decider = delete k s.decider;
  subscribers = delete k s.subscribers;
}

-- `resolveKernelPromise`
unfoldable pub resolve_kernel_promise : KRef → Bool → CapData → M (List (KRef × Message))
unfolding get_kernel_promise_message_queue write_settled release_queued_message_refs
resolve_kernel_promise k rejecting v = do
  ms ← get_kernel_promise_message_queue k
  for_each ms (release_queued_message_refs k)
  modify (write_settled k rejecting v)
  decrement k
  modify (λ s. record s { promise_queue = delete k s.promise_queue })
  pure (map (λ m. (k, m)) ms)

-- A settled promise is scanned in turn; an unresolved one is left out.
unfoldable pub scan_value :
    (KRef → List KRef → List KRef → M (List KRef))
    → KRef
    → List KRef
    → KernelPromise
    → M (List KRef)
scan_value scan k seen (pending d subs) = pure seen
scan_value scan k seen (settled b v) = scan k v.slots seen

-- `getKpidsToRetire`, the loop over the slots of one value; `scan` is the call of `scanPromise`.
unfoldable pub scan_slots :
    (KRef → List KRef → List KRef → M (List KRef)) → List KRef → List KRef → M (List KRef)
unfolding scan_value
scan_slots scan [] seen = pure seen
scan_slots scan (k ∷ ks) seen =
    let rest = scan_slots scan ks in
    (if is_promise_ref k && not (includes k seen)
      then (get_kernel_promise k >>= scan_value scan k seen)
      else pure seen)
    >>= rest

-- `scanPromise`, with fuel for the depth of the recursion
unfoldable pub scan_promise : ℕ → KRef → List KRef → List KRef → M (List KRef)
unfolding scan_slots
scan_promise zero k slots seen = raise out_of_fuel
scan_promise (suc fuel) k slots seen = scan_slots (scan_promise fuel) slots (set_add k seen)

-- `getKpidsToRetire`: each level of the recursion takes up one more promise.
unfoldable pub get_kpids_to_retire : KRef → CapData → M (List KRef)
get_kpids_to_retire k v s = scan_promise (suc (length s.promise_state)) k v.slots [] s
