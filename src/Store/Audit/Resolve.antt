-- ===== src/Store/Audit/Resolve.antt =====
-- Messages queued on a promise, and its resolution (store/methods/promise.ts): where the references
-- that the promise, its queue and its value hold come from and go to.

-- The references that the messages of a promise's queue hold.
use ocap_kernel.Prelude.{
  refl, true, ap, arith, false, none, ◌∙◌, [], some, ◌+◌, ◌==◌, if◌then◌else◌, ◌++◌, ◌∷◌, ◌≡◌,
  Option, Bool, List,
}
use ocap_kernel.Dict.{
  total-delete, total-delete_ext, total-put, delete-IsDict, get-put, get-put_self, put-IsDict,
  total, delete, IsDict, get, put, row,
}
use ocap_kernel.Refs.{kref_beq_iff, kref_eq, KRef}
use ocap_kernel.Store.Audit.Shares.{occurrences-append}
use ocap_kernel.Store.Audit.Messages.{credit_message-refs, message_refs}
use ocap_kernel.Store.Audit.Weights.{unit, occurrences, credit_promise, held, credit_queue}
use ocap_kernel.Store.Audit.Reheld.{reheld-IsAudited}
use ocap_kernel.Store.State.{fulfilled, unresolved, rejected, CapData, Message, PromiseState, Store}
use ocap_kernel.Store.Audit.Laws.{IsAudited}
use ocap_kernel.Store.Promise.{queued, write_settled}

abbrev pub queue_refs : KRef → List Message → List KRef
queue_refs k [] = []
queue_refs k (m ∷ ms) = k ∷ (message_refs m ++ queue_refs k ms)

pub credit_queue-refs :
    (j k : KRef) (ms : List Message) → credit_queue j k ms ≡ occurrences j (queue_refs k ms)
unfolding credit_queue
credit_queue-refs j k [] = refl
credit_queue-refs j k (m ∷ ms) = omega (
  arith,
  credit_message-refs j m,
  credit_queue-refs j k ms,
  occurrences-append j (message_refs m) (queue_refs k ms),
)

pub credit_queue-snoc :
    (j k : KRef) (m : Message) (ms : List Message)
    → credit_queue j k (ms ++ m ∷ []) ≡ credit_queue j k ms + occurrences j (k ∷ message_refs m)
unfolding credit_queue
credit_queue-snoc j k m [] = omega (arith, credit_message-refs j m)
credit_queue-snoc j k m (n ∷ ms) = omega (arith, credit_queue-snoc j k m ms)

row-queued :
    (j k : KRef) (o : Option (List Message))
    → row (credit_queue j) k o ≡ credit_queue j k (queued o)
unfolding credit_queue
row-queued j k none = refl
row-queued j k (some ms) = refl

row-empty : (j k : KRef) (o : Option (List Message)) → queued o ≡ [] → row (credit_queue j) k o ≡ 0
unfolding credit_queue
row-empty j k o h = row-queued j k o ∙ ap (credit_queue j k) h

abbrev settled_state : Bool → PromiseState
settled_state rejecting = if rejecting then rejected else fulfilled

module _ (s : Store) (k j : KRef) (v : CapData) where
  credit_settled :
      (rejecting : Bool)
      → credit_promise (put k v s.value) j k (settled_state rejecting) ≡ occurrences j v.slots
  unfolding credit_promise
  credit_settled true = ground (arith, get-put_self k v s.value)
  credit_settled false = ground (arith, get-put_self k v s.value)

  credit_others :
      (i : KRef) (x : PromiseState)
      → (i == k) ≡ false
      → credit_promise (put k v s.value) j i x ≡ credit_promise s.value j i x
  unfolding credit_promise
  credit_others i x q = ground (arith, get-put k i v s.value, kref_beq_iff k i, kref_beq_iff i k)

  credit_unresolved :
      get k s.promise_state ≡ some unresolved
      → row (credit_promise s.value j) k (get k s.promise_state) ≡ unit j k
  unfolding credit_promise
  credit_unresolved h = rw (h) refl

  total_settled :
      (rejecting : Bool)
      → IsDict s.promise_state
      → get k s.promise_state ≡ some unresolved
      → total (credit_promise (put k v s.value) j) (put k (settled_state rejecting) s.promise_state)
          + unit j k
        ≡ total (credit_promise s.value j) s.promise_state + occurrences j v.slots
  unfolding put
  total_settled rejecting d h =
      let e =
        total-delete_ext (credit_promise (put k v s.value) j) (credit_promise s.value j) k
          s.promise_state credit_others in
      omega (
        arith,
        e,
        credit_unresolved h,
        credit_settled rejecting,
        total-delete (credit_promise s.value j) k s.promise_state d,
      )

module _ {hand : List KRef} (s : Store) (k : KRef) where
  -- A promise's queue may be rewritten, if what it held and what it holds change hands.
  pub rewrite_queue-IsAudited :
      {next : List KRef} (ms : List Message)
      → IsAudited hand s
      → ((j : KRef)
          → credit_queue j k ms + occurrences j next
            ≡ credit_queue j k (queued (get k s.promise_queue)) + occurrences j hand)
      → IsAudited next (record s { promise_queue = put k ms s.promise_queue })
  unfolding held
  rewrite_queue-IsAudited ms a h =
      reheld-IsAudited s _ refl refl refl refl refl a.promise_rows
        (put-IsDict k ms s.promise_queue a.queue_rows)
        (λ j. omega (
          arith,
          h j,
          row-queued j k (get k s.promise_queue),
          total-put (credit_queue j) k ms s.promise_queue a.queue_rows,
        ))
        a

  -- An empty queue may be deleted.
  pub delete_queue-IsAudited :
      IsAudited hand s
      → queued (get k s.promise_queue) ≡ []
      → IsAudited hand (record s { promise_queue = delete k s.promise_queue })
  unfolding held
  delete_queue-IsAudited a h =
      reheld-IsAudited s _ refl refl refl refl refl a.promise_rows
        (delete-IsDict k s.promise_queue a.queue_rows)
        (λ j. omega (
          arith,
          row-empty j k (get k s.promise_queue) h,
          total-delete (credit_queue j) k s.promise_queue a.queue_rows,
        ))
        a

  -- Settling an unresolved promise turns its unit into the references of its value.
  pub write_settled-IsAudited :
      (rejecting : Bool) (v : CapData)
      → IsAudited (v.slots ++ hand) s
      → get k s.promise_state ≡ some unresolved
      → IsAudited (k ∷ hand) (write_settled k rejecting v s)
  unfolding write_settled held
  write_settled-IsAudited rejecting v a h =
      reheld-IsAudited s _ refl refl refl refl refl (put-IsDict k _ s.promise_state a.promise_rows)
        a.queue_rows
        (λ j. omega (
          arith,
          total_settled s k j v rejecting a.promise_rows h,
          occurrences-append j v.slots hand,
        ))
        a
