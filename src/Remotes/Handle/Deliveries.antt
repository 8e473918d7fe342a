-- ===== src/Remotes/Handle/Deliveries.antt =====
-- What a message of the peer carries, and the deliveries in it
-- (packages/ocap-kernel/src/remotes/kernel/RemoteHandle.ts). The keys of redemptions are
-- numbers, and what the caller of one is told is not kept.
use ocap_kernel.Refs.{Index, plain, stored, facet}
use ocap_kernel.Exec.{modify, gets, bad_ref, require, map_each, pure, ◌>>◌, ◌>>=◌, Exec}
use ocap_kernel.Prelude.{
  nat_eq, map, true, false, none, not, some, ◌&&◌, ◌++◌, Bool, [], ◌∷◌, List, Option, ℕ,
}
use ocap_kernel.Remotes.Handle.State.{RemoteHandle}
use ocap_kernel.Store.State.{CapData, M}
use ocap_kernel.Refs.{endpoint, direction_beq, export_, import_, Direction, ERef, EndpointId, KRef}
use Prim.Native.String.{String}
use ocap_kernel.Store.Gc.{schedule_reap}
use ocap_kernel.Kernel.Enqueue.{resolve_promises, enqueue_send}
use ocap_kernel.Store.CList.{eref_to_kref}
use ocap_kernel.Store.Translate.{
  translate_resolution, translate_message_e_to_k, translate_ref_e_to_k, EndpointCapData,
  EndpointMessage,
}
use ocap_kernel.Kernel.State.{KernelOneResolution, on_store, K, KernelQueue}
use ocap_kernel.Store.GcHandlers.{
  perform_drop_imports, perform_export_cleanup, perform_retire_imports,
}

-- `DeliveryParams`
pub data DeliveryParams : Type 0 where
  message_delivery : ERef → EndpointMessage → DeliveryParams
  notify_delivery : List (ERef × Bool × EndpointCapData) → DeliveryParams
  drop_exports_delivery : List ERef → DeliveryParams
  retire_exports_delivery : List ERef → DeliveryParams
  retire_imports_delivery : List ERef → DeliveryParams
  bring_out_your_dead_delivery : DeliveryParams

-- The last part of a reply to a redemption: a reference, or any other text
pub data ReplyValue : Type 0 where
  redeemed : ERef → ReplyValue
  text : String → ReplyValue

-- `RemoteMessageBase`
pub data RemoteMessageBase : Type 0 where
  deliver : DeliveryParams → RemoteMessageBase
  redeem_url : String → ℕ → RemoteMessageBase
  redeem_url_reply : Bool → ℕ → ReplyValue → RemoteMessageBase

-- `DeferredCompletion`, and that there is none
pub data DeferredCompletion : Type 0 where
  nothing_deferred : DeferredCompletion
  answers_request : ℕ → Bool → ReplyValue → DeferredCompletion
  completes_reply : ℕ → DeferredCompletion

-- The kernel's queue with its store, and the handle
pub record RemoteSide : Type 0 where
  pub queue : KernelQueue
  pub handle : RemoteHandle RemoteMessageBase

abbrev pub on_queue : {A : Type 0} → K A → Exec RemoteSide A
on_queue m x = let (r, q) = m x.queue in (r, record x { queue = q })

abbrev pub on_handle : {A : Type 0} → Exec (RemoteHandle RemoteMessageBase) A → Exec RemoteSide A
on_handle m x = let (r, h) = m x.handle in (r, record x { handle = h })

abbrev is_plain : Index → Bool
is_plain (plain n) = true
is_plain (stored d a b) = false
is_plain (facet d a b c) = false

-- `isRRef(ref) && ref.startsWith(prefix)`, for `ro+` or `ro-`
abbrev pub has_prefix : Direction → ERef → Bool
has_prefix d eref =
    eref.in_remote
    && (is_plain eref.index && (not eref.is_promise && direction_beq eref.direction d))

abbrev pub kref_list : Option KRef → List KRef
kref_list none = []
kref_list (some k) = k ∷ []

-- A round of `#knownKrefs`
unfoldable pub known_kref : Direction → EndpointId → ERef → M (List KRef)
known_kref d e eref = do
  require (has_prefix d eref) bad_ref
  k ← gets (eref_to_kref e eref)
  pure (kref_list k)

abbrev pub concat : List (List KRef) → List KRef
concat [] = []
concat (ks ∷ rest) = ks ++ concat rest

-- `#knownKrefs`
unfoldable pub known_krefs : Direction → EndpointId → List ERef → M (List KRef)
unfolding known_kref
known_krefs d e erefs = do kss ← map_each erefs (known_kref d e); pure (concat kss)

-- `#dropExports`
unfoldable pub drop_exports : EndpointId → List ERef → M (Unit {0})
unfolding known_krefs
drop_exports e erefs = do ks ← known_krefs import_ e erefs; perform_drop_imports ks e

-- `#retireExports`
unfoldable pub retire_exports : EndpointId → List ERef → M (Unit {0})
unfolding known_krefs
retire_exports e erefs = do ks ← known_krefs import_ e erefs; perform_retire_imports ks e

-- `#retireImports`
unfoldable pub retire_imports : EndpointId → List ERef → M (Unit {0})
unfolding known_krefs
retire_imports e erefs = do ks ← known_krefs export_ e erefs; perform_export_cleanup ks true e

abbrev pub kernel_resolution : KRef × Bool × CapData → KernelOneResolution
kernel_resolution (k, rejecting, v) = record { kpid = k; rejected = rejecting; value = v }

-- `#handleRemoteDeliver`
unfoldable pub handle_remote_deliver : EndpointId → DeliveryParams → K (Unit {0})
unfolding drop_exports retire_exports retire_imports
handle_remote_deliver e (message_delivery target m) = do
  k ← on_store (translate_ref_e_to_k e target)
  km ← on_store (translate_message_e_to_k e m)
  enqueue_send k km true
handle_remote_deliver e (notify_delivery rs) = do
  krs ← on_store (map_each rs (translate_resolution e))
  resolve_promises (some (endpoint e)) (map kernel_resolution krs) false
handle_remote_deliver e (drop_exports_delivery erefs) = on_store (drop_exports e erefs)
handle_remote_deliver e (retire_exports_delivery erefs) = on_store (retire_exports e erefs)
handle_remote_deliver e (retire_imports_delivery erefs) = on_store (retire_imports e erefs)
handle_remote_deliver e bring_out_your_dead_delivery = on_store (modify (schedule_reap e))
