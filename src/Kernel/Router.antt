-- ===== src/Kernel/Router.antt =====
-- Routing and delivery of queued messages (packages/ocap-kernel/src/KernelRouter.ts).
use ocap_kernel.Prelude.{List, [], false, ◌∷◌, true, none, not, Bool, if◌then◌else◌, some, Option}
use ocap_kernel.Store.Vat.{is_vat_active}
use ocap_kernel.Refs.{
  kernel, is_vat_id, kp, ERef, endpoint, is_promise_ref, ko, EndpointId, KRef, Owner,
}
use ocap_kernel.Exec.{raise, err, for_each, modify, ok, pure, Result, done, ◌>>=◌, ◌>>◌, Error}
use ocap_kernel.Store.Translate.{
  EndpointCapData, translate_message_k_to_e, EndpointMessage, translate_ref_k_to_e,
}
use ocap_kernel.Store.Object.{get_owner}
use ocap_kernel.Store.Promise.{
  enqueue_promise_message, set_promise_decider, decrement, get_kernel_promise,
  release_queued_message_refs, pending, settled, KernelPromise,
}
use ocap_kernel.Kernel.Enqueue.{resolve_promises}
use ocap_kernel.Store.Revocation.{is_revoked}
use ocap_kernel.Kernel.State.{KernelQueue, on_store, K}
use ocap_kernel.Store.State.{CapData, Message}

-- The codes of `makeKernelError` that the router uses
pub data KernelErrorCode : Type 0 where
  object_revoked object_deleted bad_promise_resolution endpoint_unreachable : KernelErrorCode
  delivery_failed : Error → KernelErrorCode

-- `CrankResult`, as far as the router makes one
pub record CrankResult : Type 0 where
  pub did_delivery : Owner
  pub is_aborted : Bool
  pub terminated : Option EndpointId

-- `VatOneResolution`
pub record VatOneResolution : Type 0 where
  pub eref : ERef
  pub rejected : Bool
  pub value : EndpointCapData

-- What `getEndpoint` does: return a handle, throw `VatNotFoundError`, or throw another error.
pub data Lookup : Type 0 where
  found : Lookup
  vat_not_found : Lookup
  lookup_failed : Error → Lookup

-- What the router calls: marshalling, the endpoints and the kernel's services.
pub record Surroundings : Type 0 where
  -- `extractSingleRef`, which unserializes the value
  pub extract_single_ref : CapData → Option KRef
  -- `makeKernelError`
  pub make_kernel_error : KernelErrorCode → CapData
  -- `getEndpoint`
  pub get_endpoint : EndpointId → KernelQueue → Lookup
  -- `endpoint.deliverMessage`
  pub deliver_message : EndpointId → ERef → EndpointMessage → K (Option CrankResult)
  -- `endpoint.deliverNotify`
  pub notify_endpoint : EndpointId → List VatOneResolution → K (Option CrankResult)
  -- `invokeKernelService`
  pub invoke_kernel_service : KRef → Message → K (Unit {0})

-- `MessageRoute`: `null` is a splat.
pub data MessageRoute : Type 0 where
  splat : MessageRoute
  requeue : KRef → MessageRoute
  deliver_to : Owner → KRef → MessageRoute

abbrev pub decider_of : KernelPromise → Option Owner
decider_of (pending d subs) = d
decider_of (settled b v) = none

-- `try … catch`
abbrev pub caught : {A : Type 0} → (Error → K A) → Result A → K A
caught f (ok a) q = (ok a, q)
caught f (err e) q = f e q

abbrev pub attempt : {A : Type 0} → K A → (Error → K A) → K A
attempt m f q = let (r, q') = m q in caught f r q'

-- The result of the message, if it has one, is rejected by its decider.
unfoldable pub reject_result : CapData → KRef → K (Unit {0})
reject_result v k = do
  p ← on_store (get_kernel_promise k)
  resolve_promises (decider_of p) (record { kpid = k; rejected = true; value = v } ∷ []) true

abbrev pub with_queue_result : Option KRef → (KRef → K (Unit {0})) → K (Unit {0})
with_queue_result none f = done
with_queue_result (some k) f = f k

-- The result passes to the endpoint, which decides it from now on.
unfoldable pub hand_over_result : Owner → KRef → K (Unit {0})
hand_over_result o k = do on_store (modify (set_promise_decider k o)); on_store (decrement k)

abbrev pub is_found : Lookup → Bool
is_found found = true
is_found _ = false

module _ (r : Surroundings) where
  -- `routeAsSplat`
  unfoldable pub route_as_splat : Message → CapData → K MessageRoute
  unfolding reject_result
  route_as_splat m v = do with_queue_result m.result (reject_result v); pure splat

  unfoldable pub route_to_owner : KRef → Message → Option Owner → K MessageRoute
  unfolding route_as_splat
  route_to_owner k m none = route_as_splat m (r.make_kernel_error object_deleted)
  route_to_owner k m (some o) = pure (deliver_to o k)

  -- `routeAsSend`
  unfoldable pub route_as_send : KRef → Message → K MessageRoute
  unfolding route_as_splat route_to_owner
  route_as_send k m q =
      if is_revoked k q.store
      then route_as_splat m (r.make_kernel_error object_revoked) q
      else route_to_owner k m (get_owner k q.store) q

  unfoldable pub route_to_ref : Message → Option KRef → K MessageRoute
  unfolding route_as_send route_as_splat
  route_to_ref m none = route_as_splat m (r.make_kernel_error bad_promise_resolution)
  route_to_ref m (some (ko n)) = route_as_send (ko n) m
  route_to_ref m (some (kp n)) = pure (requeue (kp n))

  -- `routeMessage`, by the promise that the target is
  unfoldable pub route_by_promise : KRef → Message → KernelPromise → K MessageRoute
  unfolding route_to_ref route_as_splat
  route_by_promise k m (pending d subs) = pure (requeue k)
  route_by_promise k m (settled true v) = route_as_splat m v
  route_by_promise k m (settled false v) = route_to_ref m (r.extract_single_ref v)

  unfoldable pub route_message : KRef → Message → K MessageRoute
  unfolding route_by_promise route_as_send
  route_message k m =
      if is_promise_ref k
      then on_store (get_kernel_promise k) >>= route_by_promise k m
      else route_as_send k m

  -- `rejectResultIfPending`
  abbrev pub if_pending : Owner → KRef → CapData → KernelPromise → K (Unit {0})
  if_pending o k v (settled b w) = done
  if_pending o k v (pending d subs) =
      resolve_promises (some o) (record { kpid = k; rejected = true; value = v } ∷ []) true

  unfoldable pub reject_result_if_pending : Owner → CapData → KRef → K (Unit {0})
  reject_result_if_pending o v k = on_store (get_kernel_promise k) >>= if_pending o k v

  -- `isVatRunning`
  abbrev pub is_running : Lookup → K Bool
  is_running found = pure true
  is_running vat_not_found = pure false
  is_running (lookup_failed x) = raise x

  -- The vat was lost: if the store still has it, the delivery is rolled back and the vat ended.
  unfoldable pub lost_vat : EndpointId → Error → Bool → K (Option CrankResult)
  lost_vat e x true q = raise x q
  lost_vat e x false q = (
    ok (
        some (record {
          did_delivery = endpoint e;
          is_aborted = is_vat_active e q.store;
          terminated = if is_vat_active e q.store then some e else none;
        })),
    q,
  )

  -- `deliverUnlessLost`, on an error of the delivery
  unfoldable pub lost_delivery : EndpointId → Error → K (Option CrankResult)
  unfolding lost_vat
  lost_delivery e x q =
      if not (is_vat_id e) then raise x q else (is_running (r.get_endpoint e q) >>= lost_vat e x) q

  unfoldable pub deliver_unless_lost : EndpointId → K (Option CrankResult) → K (Option CrankResult)
  unfolding lost_delivery
  deliver_unless_lost e m = attempt m (lost_delivery e)

  -- The endpoint is gone.
  unfoldable pub splat_unreachable : KRef → Message → K (Option CrankResult)
  unfolding reject_result
  splat_unreachable k m = do
    with_queue_result m.result
        (λ j. reject_result (r.make_kernel_error endpoint_unreachable) j >> on_store (decrement j))
    on_store (decrement k)
    on_store (for_each m.methargs.slots decrement)
    pure none

  -- The endpoint is there.
  unfoldable pub send_to_endpoint : EndpointId → KRef → KRef → Message → K (Option CrankResult)
  unfolding hand_over_result deliver_unless_lost reject_result_if_pending
  send_to_endpoint e j k m = do
    with_queue_result m.result (hand_over_result (endpoint e))
    target ← on_store (translate_ref_k_to_e e j false)
    message ← on_store (translate_message_k_to_e e m)
    res ← attempt (deliver_unless_lost e (r.deliver_message e target message)) (λ x.
        with_queue_result m.result
          (reject_result_if_pending (endpoint e) (r.make_kernel_error (delivery_failed x)))
        >> pure none)
    on_store (decrement k)
    on_store (for_each m.methargs.slots decrement)
    pure res

  -- `deliverSend`, by the route
  unfoldable pub deliver_along : MessageRoute → KRef → Message → K (Option CrankResult)
  unfolding splat_unreachable send_to_endpoint hand_over_result
  deliver_along splat k m = do on_store (release_queued_message_refs k m); pure none
  deliver_along (requeue j) k m = do
    on_store (enqueue_promise_message j m)
    on_store (release_queued_message_refs k m)
    pure none
  deliver_along (deliver_to kernel j) k m = do
    with_queue_result m.result (hand_over_result kernel)
    r.invoke_kernel_service j m
    on_store (decrement k)
    on_store (for_each m.methargs.slots decrement)
    pure (some (record { did_delivery = kernel; is_aborted = false; terminated = none }))
  deliver_along (deliver_to (endpoint e) j) k m = λ q.
      if is_found (r.get_endpoint e q) then send_to_endpoint e j k m q else splat_unreachable k m q

  -- `deliverSend`
  unfoldable pub deliver_send : KRef → Message → K (Option CrankResult)
  unfolding route_message deliver_along
  deliver_send k m = do route ← route_message k m; deliver_along route k m
