-- ===== src/Kernel/Held.antt =====
-- Requests from outside the run loop, held while a crank is open (KernelQueue.ts). A held write of the
-- host is a function of the queue, with the number by which its caller is told.
use ocap_kernel.Refs.{kref_eq, EndpointId, KRef}
use ocap_kernel.Dict.{put}
use ocap_kernel.Kernel.Enqueue.{enqueue_send, enqueue_run_item}
use ocap_kernel.Prelude.{
  ◌||◌, [], not, some, true, ◌∷◌, false, if◌then◌else◌, ◌++◌, Bool, Option, List, ℕ,
}
use ocap_kernel.Exec.{◌>>◌, err, modify, ok, Result, ◌>>=◌}
use ocap_kernel.Store.RefCount.{kernel_ref_exists}
use ocap_kernel.Store.Promise.{init_kernel_promise}
use ocap_kernel.Kernel.State.{on_store, K, KernelQueue}
use ocap_kernel.Store.State.{terminate_vat, restart_vat, Store, CapData}

pub data HeldRequest : Type 0 where
  held_restart : EndpointId → HeldRequest
  held_terminate : EndpointId → Option CapData → HeldRequest
  held_message : KRef → CapData → ℕ → HeldRequest
  held_write : (KernelQueue → KernelQueue) → ℕ → HeldRequest

abbrev pub told : ℕ → CapData → KernelQueue → KernelQueue
told n v q = record q {
  settlements = q.settlements ++ record { subscriber = n; rejected = true; value = some v } ∷ [];
}

-- `[target, ...slots].find((kref) => !kernelRefExists(kref))`
unfoldable pub some_missing : List KRef → Store → Bool
some_missing [] s = false
some_missing (k ∷ ks) s = not (kernel_ref_exists k s) || some_missing ks s

-- `writeMessage`; `deleted` is the kernel error that the caller gets.
unfoldable pub write_new_message : KRef → CapData → ℕ → K (Unit {0})
write_new_message k c n = do
  result ← on_store init_kernel_promise
  enqueue_send k (record { methargs = c; result = some result }) true
  modify (λ q. record q { subscriptions = put result n q.subscriptions })

unfoldable pub write_message : CapData → KRef → CapData → ℕ → K (Unit {0})
unfolding write_new_message some_missing
write_message deleted k c n q =
    if some_missing (k ∷ c.slots) q.store
    then (ok tt, told n deleted q)
    else write_new_message k c n q

-- `writeRequest`
unfoldable pub write_request : CapData → HeldRequest → K (Unit {0})
unfolding write_message enqueue_run_item
write_request deleted (held_restart v) = enqueue_run_item (restart_vat v)
write_request deleted (held_terminate v c) = enqueue_run_item (terminate_vat v c)
write_request deleted (held_message k c n) = write_message deleted k c n
write_request deleted (held_write f n) = modify f

-- `enqueueRequest`, with the requests held and whether a crank is open
unfoldable pub enqueue_request :
    CapData
    → Bool
    → HeldRequest
    → List HeldRequest
    → KernelQueue
    → (Result (Unit {0}) × KernelQueue) × List HeldRequest
unfolding write_request
enqueue_request deleted true x held q = ((ok tt, q), held ++ x ∷ [])
enqueue_request deleted false x held q = (write_request deleted x q, held)

-- `writeHeldRequests`: one that throws stays held with those after it.
unfoldable pub write_held_requests :
    CapData → List HeldRequest → KernelQueue → (Result (Unit {0}) × KernelQueue) × List HeldRequest
unfolding write_request
write_held_requests deleted [] q = ((ok tt, q), [])
write_held_requests deleted (x ∷ xs) q =
    let (r, q') = write_request deleted x q in
    let rest = write_held_requests deleted xs q' in go r rest (x ∷ xs) q'
  where
    go :
        Result (Unit {0})
        → (Result (Unit {0}) × KernelQueue) × List HeldRequest
        → List HeldRequest
        → KernelQueue
        → (Result (Unit {0}) × KernelQueue) × List HeldRequest
    go (ok u) rest held q = rest
    go (err e) rest held q = ((err e, q), held)
