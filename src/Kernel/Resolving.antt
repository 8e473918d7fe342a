-- ===== src/Kernel/Resolving.antt =====
-- `enqueueSend`, `enqueueNotify` and `resolvePromises`: the counts through each of them.
use ocap_kernel.Kernel.References.{put_item-Runs, then-Runs, done-Runs, on_store-Runs, Runs}
use ocap_kernel.Prelude.{refl, false, [], ◌∙◌, arith, some, true, ◌∷◌, ◌≡◌, ◌++◌, map, Bool, List}
use ocap_kernel.Store.State.{notify, send, CapData, unresolved, Message, Store}
use ocap_kernel.Kernel.Enqueue.{put_item, enqueue_notify, enqueue_send}
use ocap_kernel.Refs.{kref_eq, EndpointId, KRef}
use ocap_kernel.Store.Audit.Resolve.{write_settled-IsAudited, queue_refs}
use ocap_kernel.Kernel.State.{on_store, KernelQueue}
use ocap_kernel.Store.Audit.Shares.{occurrences-append, same_hand-IsAudited}
use ocap_kernel.Store.Audit.Hand.{increment_ref_count-Recounts, held_exists}
use ocap_kernel.Store.Audit.Settling.{emptied-IsAudited, same_counts-exists, emptied}
use ocap_kernel.Store.Audit.Messages.{
  charge_message-Recounts, Exist-split, Exist-transfer, message_refs, Exist,
}
use ocap_kernel.Store.RefCount.{plain_ref, increment_ref_count, kernel_ref_exists}
use ocap_kernel.Store.Promise.{charge_message, queued, write_settled}
use ocap_kernel.Dict.{get}
use ocap_kernel.Store.Audit.Laws.{IsAudited}
use ocap_kernel.Exec.{for_each}

module _ {hand : List KRef} (q : KernelQueue) where
  pub enqueue_send-Runs :
      (k : KRef) (m : Message) (b : Bool)
      → IsAudited hand q.store
      → Exist (k ∷ message_refs m) q.store
      → Runs hand q (enqueue_send k m b q)
  unfolding enqueue_send
  enqueue_send-Runs k m b a h =
      let r = on_store-Runs (charge_message k m) q (charge_message-Recounts k m q.store a h) in
      then-Runs q (on_store (charge_message k m)) (put_item b (send k m)) r
        (put_item-Runs _ (send k m) b r.audited)

  pub enqueue_notify-Runs :
      (e : EndpointId) (k : KRef) (b : Bool)
      → IsAudited hand q.store
      → kernel_ref_exists k q.store ≡ true
      → Runs hand q (enqueue_notify e k b q)
  unfolding enqueue_notify
  enqueue_notify-Runs e k b a h =
      let r =
        on_store-Runs (increment_ref_count k plain_ref) q
          (increment_ref_count-Recounts q.store k a h) in
      then-Runs q (on_store (increment_ref_count k plain_ref)) (put_item b (notify e k)) r
        (put_item-Runs _ (notify e k) b r.audited)

pub notifies-Runs :
    {hand : List KRef} (k : KRef) (b : Bool) (es : List EndpointId) (q : KernelQueue)
    → IsAudited hand q.store
    → kernel_ref_exists k q.store ≡ true
    → Runs hand q (for_each es (λ e. enqueue_notify e k b) q)
unfolding for_each
notifies-Runs k b [] q a h = done-Runs q a
notifies-Runs k b (e ∷ es) q a h =
    let r = enqueue_notify-Runs q e k b a h in
    then-Runs q (enqueue_notify e k b) _ r (notifies-Runs k b es _ r.audited (r.exists k ∙ h))

-- The messages of a queue, with their target
abbrev pub targeted : KRef → List Message → List (KRef × Message)
targeted k ms = map (λ m. (k, m)) ms

pub sends-Runs :
    {hand : List KRef} (k : KRef) (b : Bool) (ms : List Message) (q : KernelQueue)
    → IsAudited hand q.store
    → Exist (queue_refs k ms) q.store
    → Runs hand q (for_each (targeted k ms) (λ p. enqueue_send p.0 p.1 b) q)
unfolding for_each
sends-Runs k b [] q a h = done-Runs q a
sends-Runs k b (m ∷ ms) q a h =
    let (p, n) = Exist-split (k ∷ message_refs m) (queue_refs k ms) q.store h in
    let r = enqueue_send-Runs q k m b a p in
    then-Runs q (enqueue_send k m b) _ r
      (sends-Runs k b ms _ r.audited (Exist-transfer (queue_refs k ms) q.store _ r.exists n))

-- All that is in hand exists.
pub held_all-Exist :
    (hand : List KRef) (ks : List KRef) (s : Store) → IsAudited (ks ++ hand) s → Exist ks s
held_all-Exist hand [] s a = tt
held_all-Exist hand (k ∷ ks) s a = (
  held_exists s k a,
  held_all-Exist (k ∷ hand) ks s (
      same_hand-IsAudited s
        (λ j. omega (arith, occurrences-append j ks hand, occurrences-append j ks (k ∷ hand))) a),
)

module _ {hand : List KRef} (s : Store) (k : KRef) (a : IsAudited hand s) where
  -- An unresolved promise exists: it holds a unit of its own count.
  pub unresolved_exists : get k s.promise_state ≡ some unresolved → kernel_ref_exists k s ≡ true
  unfolding write_settled
  unresolved_exists h =
      let v : CapData = record { body = ""; slots = [] } in
      same_counts-exists k (write_settled k false v s) s refl refl
      ∙ held_exists (write_settled k false v s) k (write_settled-IsAudited s k false v a h)

  -- What the messages of a queue refer to exists.
  pub queued-Exist : Exist (queue_refs k (queued (get k s.promise_queue))) s
  queued-Exist =
      Exist-transfer (queue_refs k (queued (get k s.promise_queue))) (emptied k s) s
        (λ j. same_counts-exists j _ _ refl refl)
        (held_all-Exist hand (queue_refs k (queued (get k s.promise_queue))) (emptied k s)
          (emptied-IsAudited s k a))
