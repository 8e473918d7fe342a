-- ===== src/Kernel/Ingress.antt =====
-- The references through a message from outside the run loop.
use ocap_kernel.Kernel.Enqueue.{enqueue_send}
use ocap_kernel.Exec.{modify, ok}
use ocap_kernel.Prelude.{
  inr, inl, Bool-cases, some, ℕ, arith, refl, ◌∷◌, false, none, true, [], ◌≡◌, ◌+◌, List,
}
use ocap_kernel.Kernel.References.{resumed}
use ocap_kernel.Kernel.Resolving.{enqueue_send-Runs}
use ocap_kernel.Kernel.Held.{write_message, write_new_message, some_missing}
use ocap_kernel.Store.State.{Message, CapData, unresolved, Store}
use ocap_kernel.Dict.{get-put_self, put-IsDict, get-put, total-put, put, get}
use ocap_kernel.Kernel.State.{KernelQueue}
use ocap_kernel.Refs.{kref_beq_iff, ko, kref_eq, kp, KRef}
use ocap_kernel.Store.Audit.Weights.{
  unit, credit_queue, credit_promise, expected_recognizable, expected_reachable, held,
}
use ocap_kernel.Store.Audit.Messages.{Exist}
use ocap_kernel.Store.Promise.{
  provide_queue, write_new_promise, get_next_promise_id, init_kernel_promise,
}
use ocap_kernel.Store.RefCount.{kernel_ref_exists}
use ocap_kernel.Store.Audit.Laws.{IsAudited}

-- Nothing has the number of the next promise yet.
pub record IsFresh (s : Store) : Type 0 where
  pub no_count : get (kp s.next_promise_id) s.promise_counts ≡ none
  pub no_state : get (kp s.next_promise_id) s.promise_state ≡ none
  pub no_queue : get (kp s.next_promise_id) s.promise_queue ≡ none

-- The store with a new promise
abbrev made : Store → Store
made s = record s {
  next_promise_id = s.next_promise_id + 1;
  promise_queue = put (kp s.next_promise_id) [] s.promise_queue;
  promise_state = put (kp s.next_promise_id) unresolved s.promise_state;
  subscribers = put (kp s.next_promise_id) [] s.subscribers;
  promise_counts = put (kp s.next_promise_id) 1 s.promise_counts;
}

init_kernel_promise-step :
    (s : Store) → IsFresh s → init_kernel_promise s ≡ (ok (kp s.next_promise_id), made s)
unfolding init_kernel_promise get_next_promise_id write_new_promise provide_queue
init_kernel_promise-step s f = rw (f.no_queue) refl

module _ {hand : List KRef} (s : Store) (f : IsFresh s) (a : IsAudited hand s) where
  held-made : (j : KRef) → held (made s) j ≡ held s j + unit j (kp s.next_promise_id)
  unfolding held credit_promise credit_queue
  held-made j = ground (
    arith,
    total-put (credit_promise s.value j) (kp s.next_promise_id) unresolved s.promise_state
        a.promise_rows,
    total-put (credit_queue j) (kp s.next_promise_id) [] s.promise_queue a.queue_rows,
    f.no_state,
    f.no_queue,
  )

  made-IsAudited : IsAudited hand (made s)
  unfolding expected_reachable expected_recognizable
  made-IsAudited = record {
    balanced = elim [
      | ko j ↦ ground (arith, a.balanced (ko j), held-made (ko j))
      | kp j ↦ ground (
        arith,
        a.balanced (kp j),
        held-made (kp j),
        get-put (kp s.next_promise_id) (kp j) 1 s.promise_counts,
        kref_beq_iff (kp s.next_promise_id) (kp j),
        f.no_count,
      )
    ];
    clist_rows = a.clist_rows;
    pin_rows = a.pin_rows;
    promise_rows = put-IsDict (kp s.next_promise_id) unresolved s.promise_state a.promise_rows;
    queue_rows = put-IsDict (kp s.next_promise_id) [] s.promise_queue a.queue_rows;
    kinds = a.kinds;
    retired = a.retired;
  }

  made_exists : (j : KRef) → kernel_ref_exists j s ≡ true → kernel_ref_exists j (made s) ≡ true
  unfolding kernel_ref_exists
  made_exists (ko n) h = h
  made_exists (kp n) h = ground (arith, get-put (kp s.next_promise_id) (kp n) 1 s.promise_counts)

  made-Exist : (ks : List KRef) → some_missing ks s ≡ false → Exist ks (made s)
  unfolding some_missing
  made-Exist [] h = tt
  made-Exist (k ∷ ks) h = (made_exists k (ground arith), made-Exist ks (ground arith))

  made_new : kernel_ref_exists (kp s.next_promise_id) (made s) ≡ true
  unfolding kernel_ref_exists
  made_new = ground (arith, get-put_self (kp s.next_promise_id) 1 s.promise_counts)

abbrev answered : CapData → KRef → Message
answered c k = record { methargs = c; result = some k }

module _ {hand : List KRef} (q : KernelQueue) (k : KRef) (c : CapData) (n : ℕ) where
  write_new_message-IsAudited :
      IsAudited hand q.store
      → IsFresh q.store
      → some_missing (k ∷ c.slots) q.store ≡ false
      → ((write_new_message k c n q).0 ≡ ok tt) × IsAudited hand (write_new_message k c n q).1.store
  unfolding write_new_message
  write_new_message-IsAudited a f h =
      let x = made-Exist q.store f a (k ∷ c.slots) h in
      let t : KernelQueue = record q { store = made q.store } in
      let r =
        enqueue_send-Runs t k (answered c (kp q.store.next_promise_id)) true
          (made-IsAudited q.store f a) (x.0, (made_new q.store f a, x.1)) in
      rw
        (
          init_kernel_promise-step q.store f,
          resumed
              (modify (λ q'. record q' {
                subscriptions = put (kp q.store.next_promise_id) n q'.subscriptions;
              }))
              (enqueue_send k (answered c (kp q.store.next_promise_id)) true t).0
              (enqueue_send k (answered c (kp q.store.next_promise_id)) true t).1 r.outcome,
        )
        (refl, r.audited)

  -- A message from the host is written or refused without a throw, and keeps the store audited, if the
  -- number of the next promise is not in use: whether or not the krefs that it names exist.
  pub write_message-IsAudited :
      (deleted : CapData)
      → IsAudited hand q.store
      → IsFresh q.store
      → ((write_message deleted k c n q).0 ≡ ok tt)
        × IsAudited hand (write_message deleted k c n q).1.store
  unfolding write_message
  write_message-IsAudited deleted a f = elim (Bool-cases (some_missing (k ∷ c.slots) q.store)) [
    | inl h ↦ rw (h) (refl, a)
    | inr h ↦ rw (h) (write_new_message-IsAudited a f h)
  ]
