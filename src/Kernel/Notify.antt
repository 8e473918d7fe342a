-- ===== src/Kernel/Notify.antt =====
-- Delivery of notifications (packages/ocap-kernel/src/KernelRouter.ts).
use ocap_kernel.Prelude.{[], none, false, some, true, ◌∷◌, Bool, Option, List}
use ocap_kernel.Kernel.Router.{
  vat_not_found, found, lookup_failed, CrankResult, VatOneResolution, Lookup, deliver_unless_lost,
  Surroundings,
}
use ocap_kernel.Exec.{◌>>◌, bad_ref, gets, map_each, still_unresolved, raise, require, ◌>>=◌, pure}
use ocap_kernel.Store.CList.{kref_to_eref}
use ocap_kernel.Store.Promise.{
  settled, decrement, get_kpids_to_retire, get_kernel_promise, pending, KernelPromise,
}
use ocap_kernel.Store.Translate.{translate_cap_data_k_to_e, translate_ref_k_to_e}
use ocap_kernel.Refs.{endpoint, is_promise_ref, ERef, KRef, EndpointId}
use ocap_kernel.Kernel.State.{on_store, K}
use ocap_kernel.Store.State.{CapData, M}

-- Whether the promise was rejected, and its value; an unresolved one has none.
abbrev pub resolution_of : KernelPromise → M (Bool × CapData)
resolution_of (pending d subs) = raise still_unresolved
resolution_of (settled b v) = pure (b, v)

-- One round of the loop over the promises that the endpoint is told of
unfoldable pub translate_target : EndpointId → KRef → M VatOneResolution
translate_target e k = get_kernel_promise k >>= resolution_of >>= λ v.
    translate_ref_k_to_e e k true >>= λ eref. translate_cap_data_k_to_e e v.1 >>= λ c.
    pure (record { eref = eref; rejected = v.0; value = c })

module _ (r : Surroundings) where
  -- `lookupEndpoint` where the delivery may not be discarded
  abbrev pub lookup : Lookup → K Bool
  lookup found = pure true
  lookup vat_not_found = pure false
  lookup (lookup_failed x) = raise x

  abbrev pub skipped : EndpointId → K (Option CrankResult)
  skipped e =
      pure (some (record { did_delivery = endpoint e; is_aborted = false; terminated = none }))

  -- The endpoint is there, or the delivery is skipped.
  unfoldable pub notify_of : EndpointId → List KRef → Bool → K (Option CrankResult)
  unfolding translate_target deliver_unless_lost
  notify_of e targets false = skipped e
  notify_of e targets true = on_store (map_each targets (translate_target e)) >>= λ resolutions.
      deliver_unless_lost r e (r.notify_endpoint e resolutions)

  -- Without promises to tell of, there is nothing to deliver.
  unfoldable pub notify_targets : EndpointId → List KRef → K (Option CrankResult)
  unfolding notify_of
  notify_targets e [] = skipped e
  notify_targets e (k ∷ ks) = λ q. (lookup (r.get_endpoint e q) >>= notify_of e (k ∷ ks)) q

  -- Without a c-list entry too.
  unfoldable pub notify_known : EndpointId → KRef → CapData → Option ERef → K (Option CrankResult)
  unfolding notify_targets
  notify_known e k v none = skipped e
  notify_known e k v (some eref) = on_store (get_kpids_to_retire k v) >>= notify_targets e

  -- `deliverNotify`, once the promise is read
  unfoldable pub notify_settled : EndpointId → KRef → Bool × CapData → K (Option CrankResult)
  unfolding notify_known
  notify_settled e k v =
      on_store (decrement k) >>= λ u. gets (λ q. kref_to_eref e k q.store) >>= notify_known e k v.1

  -- `deliverNotify`
  unfoldable pub deliver_notify : EndpointId → KRef → K (Option CrankResult)
  unfolding notify_settled
  deliver_notify e k =
      require (is_promise_ref k) bad_ref
      >> (on_store (get_kernel_promise k >>= resolution_of) >>= notify_settled e k)
