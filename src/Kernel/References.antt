-- ===== src/Kernel/References.antt =====
-- The references through the enqueueing methods of `KernelQueue`.
use ocap_kernel.Prelude.{
  length-append, inr, false, inl, true, Bool-cases, length, ltb, Bool, refl, ◌∙◌, [], arith, ◌+◌,
  ◌∷◌, ◌++◌, ◌≡◌, List,
}
use ocap_kernel.Store.Audit.Settling.{same_counts-exists}
use ocap_kernel.Store.State.{
  terminate_vat, restart_vat, bring_out_your_dead, gc_work, notify, M, send, RunQueueItem,
}
use ocap_kernel.Exec.{err, resume, ok, ◌>>◌, Result}
use ocap_kernel.Store.Audit.Shares.{occurrences-append}
use ocap_kernel.Store.Audit.Hand.{Recounts}
use ocap_kernel.Kernel.Enqueue.{
  wake_run_loop, append_run, buffer_output, enqueue_run_item, put_item,
}
use ocap_kernel.Store.Audit.Messages.{credit_message-refs, message_refs}
use ocap_kernel.Store.Audit.Reheld.{reheld-IsAudited}
use ocap_kernel.Store.RefCount.{kernel_ref_exists}
use ocap_kernel.Kernel.State.{on_store, K, KernelQueue}
use ocap_kernel.Store.Audit.Laws.{IsAudited}
use ocap_kernel.Store.Audit.Weights.{held, occurrences, credit_item, credit_items}
use ocap_kernel.Refs.{KRef}

-- The references that a queued item holds.
abbrev pub item_refs : RunQueueItem → List KRef
item_refs (send k m) = k ∷ message_refs m
item_refs (notify e k) = k ∷ []
item_refs (gc_work t e ks) = []
item_refs (bring_out_your_dead e) = []
item_refs (restart_vat v) = []
item_refs (terminate_vat v reason) = []

pub credit_item-refs : (j : KRef) (i : RunQueueItem) → credit_item j i ≡ occurrences j (item_refs i)
unfolding credit_item
credit_item-refs j (send k m) = omega (arith, credit_message-refs j m)
credit_item-refs j (notify e k) = omega arith
credit_item-refs j (gc_work t e ks) = refl
credit_item-refs j (bring_out_your_dead e) = refl
credit_item-refs j (restart_vat v) = refl
credit_item-refs j (terminate_vat v reason) = refl

pub credit_items-append :
    (j : KRef) (xs ys : List RunQueueItem)
    → credit_items j (xs ++ ys) ≡ credit_items j xs + credit_items j ys
unfolding credit_items
credit_items-append j [] ys = omega arith
credit_items-append j (x ∷ xs) ys = omega (arith, credit_items-append j xs ys)

credit_items-snoc :
    (j : KRef) (xs : List RunQueueItem) (i : RunQueueItem)
    → credit_items j (xs ++ i ∷ []) ≡ credit_items j xs + occurrences j (item_refs i)
unfolding credit_items
credit_items-snoc j xs i = omega (arith, credit_items-append j xs (i ∷ []), credit_item-refs j i)

-- The call returns, leaves these references in hand, and keeps the promises and what krefs exist.
pub record Runs (hand : List KRef) (q : KernelQueue) (p : Result (Unit {0}) × KernelQueue)
    : Type 0 where
  pub outcome : p.0 ≡ ok tt
  pub audited : IsAudited hand p.1.store
  pub exists : (j : KRef) → kernel_ref_exists j p.1.store ≡ kernel_ref_exists j q.store
  pub states : p.1.store.promise_state ≡ q.store.promise_state
  pub values : p.1.store.value ≡ q.store.value
  pub deciders : p.1.store.decider ≡ q.store.decider
  pub listeners : p.1.store.subscribers ≡ q.store.subscribers

pub resumed :
    (f : K (Unit {0})) (r : Result (Unit {0})) (t : KernelQueue)
    → r ≡ ok tt
    → resume r (λ _. f) t ≡ f t
resumed f (ok u) t h = refl
resumed f (err e) t h = cc

-- Two such methods, one after the other.
module _ {hand next : List KRef} (q : KernelQueue) (m f : K (Unit {0})) where
  pub then-Runs : (r : Runs hand q (m q)) → Runs next (m q).1 (f (m q).1) → Runs next q ((m >> f) q)
  then-Runs r n = rw (resumed f (m q).0 (m q).1 r.outcome) (record {
    outcome = n.outcome;
    audited = n.audited;
    exists = λ j. n.exists j ∙ r.exists j;
    states = n.states ∙ r.states;
    values = n.values ∙ r.values;
    deciders = n.deciders ∙ r.deciders;
    listeners = n.listeners ∙ r.listeners;
  })

pub done-Runs :
    {hand : List KRef} (q : KernelQueue) → IsAudited hand q.store → Runs hand q (ok tt, q)
done-Runs q a = record {
  outcome = refl;
  audited = a;
  exists = λ j. refl;
  states = refl;
  values = refl;
  deciders = refl;
  listeners = refl;
}

-- A method of the store that only counts
pub on_store-Runs :
    {hand : List KRef} (m : M (Unit {0})) (q : KernelQueue)
    → Recounts hand q.store (m q.store)
    → Runs hand q (on_store m q)
on_store-Runs m q r = rw (r.outcome) (record {
  outcome = refl;
  audited = r.audited;
  exists = r.exists;
  states = refl;
  values = refl;
  deciders = refl;
  listeners = refl;
})

-- `#enqueueRun` returns with the item at the end of the run queue and the run loop awake.
pub enqueue_run_item-step :
    (q : KernelQueue) (i : RunQueueItem)
    → enqueue_run_item i q ≡ (ok tt, record q { store = append_run i q.store; is_asleep = false })
unfolding enqueue_run_item wake_run_loop
enqueue_run_item-step q i = elim (Bool-cases (ltb 0 (length (append_run i q.store).run_queue))) [
  | inl h ↦ rw (h) refl
  | inr h ↦ absurd (ground (arith, length-append q.store.run_queue (i ∷ [])))
]

module _ {hand : List KRef} (q : KernelQueue) (i : RunQueueItem) where
  append_run-IsAudited :
      IsAudited (item_refs i ++ hand) q.store → IsAudited hand (append_run i q.store)
  unfolding held
  append_run-IsAudited a =
      reheld-IsAudited q.store _ refl refl refl refl refl a.promise_rows a.queue_rows
        (λ j.
          omega (
            arith,
            credit_items-snoc j q.store.run_queue i,
            occurrences-append j (item_refs i) hand,
          ))
        a

  buffer_output-IsAudited :
      IsAudited (item_refs i ++ hand) q.store → IsAudited hand (buffer_output i q.store)
  unfolding held
  buffer_output-IsAudited a =
      reheld-IsAudited q.store _ refl refl refl refl refl a.promise_rows a.queue_rows
        (λ j. omega (
          arith,
          credit_items-snoc j q.store.crank_buffer i,
          occurrences-append j (item_refs i) hand,
        ))
        a

  pub put_item-Runs :
      (b : Bool) → IsAudited (item_refs i ++ hand) q.store → Runs hand q (put_item b i q)
  unfolding put_item
  put_item-Runs true a = rw (enqueue_run_item-step q i) (record {
    outcome = refl;
    audited = append_run-IsAudited a;
    exists = λ j. same_counts-exists j _ _ refl refl;
    states = refl;
    values = refl;
    deciders = refl;
    listeners = refl;
  })
  put_item-Runs false a = record {
    outcome = refl;
    audited = buffer_output-IsAudited a;
    exists = λ j. same_counts-exists j _ _ refl refl;
    states = refl;
    values = refl;
    deciders = refl;
    listeners = refl;
  }
