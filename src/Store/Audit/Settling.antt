-- ===== src/Store/Audit/Settling.antt =====
-- `enqueuePromiseMessage` and `resolveKernelPromise` as wholes.
use ocap_kernel.Store.State.{Counts, fulfilled, unresolved, rejected, CapData, Message, Store}
use ocap_kernel.Prelude.{
  ◌∙◌, ap, arith, map, some, if◌then◌else◌, refl, ℕ, ◌∷◌, [], ◌++◌, ◌≡◌, Bool, List,
}
use ocap_kernel.Dict.{get-put_self, delete, get, Dict, put}
use ocap_kernel.Store.Audit.Resolve.{
  write_settled-IsAudited, credit_queue-refs, credit_queue-snoc, delete_queue-IsAudited,
  rewrite_queue-IsAudited, queue_refs,
}
use ocap_kernel.Store.Audit.Shares.{occurrences-append, same_hand-IsAudited}
use ocap_kernel.Store.Audit.Hand.{decrement-Recounts, recounted, Recounts}
use ocap_kernel.Store.Promise.{
  decrement, queued, release_queued_message_refs, write_settled, get_kernel_promise_message_queue,
  resolve_kernel_promise, enqueue_promise_message,
}
use ocap_kernel.Store.Audit.Messages.{
  release_queued_message_refs-Recounts, charge_message-Recounts, then-Recounts, done-Recounts,
  message_refs, Exist,
}
use ocap_kernel.Exec.{ok, Result, for_each}
use ocap_kernel.Refs.{kp, kref_eq, ko, KRef}
use ocap_kernel.Store.Audit.Laws.{IsAudited}
use ocap_kernel.Store.RefCount.{kernel_ref_exists}

-- Giving back what the messages of a queue hold.
releases-Recounts :
    {hand : List KRef} (k : KRef) (ms : List Message) (s : Store)
    → IsAudited (queue_refs k ms ++ hand) s
    → Recounts hand s (for_each ms (release_queued_message_refs k) s)
unfolding for_each
releases-Recounts k [] s a = done-Recounts s a
releases-Recounts {hand = hand} k (m ∷ ms) s a =
    then-Recounts s (release_queued_message_refs k m) _
      (release_queued_message_refs-Recounts k m s (
        same_hand-IsAudited s
          (λ j. omega (
            arith,
            occurrences-append j (queue_refs k (m ∷ ms)) hand,
            occurrences-append j (message_refs m) (queue_refs k ms),
            occurrences-append j (message_refs m) (queue_refs k ms ++ hand),
            occurrences-append j (queue_refs k ms) hand,
          ))
          a))
      (λ t b e. releases-Recounts k ms t b)

-- What `resolveKernelPromise` leaves, once the counts and the candidates are known.
abbrev pub resolved :
    KRef → Bool → CapData → Dict KRef Counts → Dict KRef ℕ → List KRef → Store → Store
resolved k rejecting v oc pc l s = record s {
  object_counts = oc;
  promise_counts = pc;
  maybe_free = l;
  promise_state = put k (if rejecting then rejected else fulfilled) s.promise_state;
  value = put k v s.value;
  decider = delete k s.decider;
  subscribers = delete k s.subscribers;
  promise_queue = delete k (put k [] s.promise_queue);
}

abbrev pub emptied : KRef → Store → Store
emptied k s = record s { promise_queue = put k [] s.promise_queue }

-- The call returns the messages that were queued, and these references are in hand after it.
pub record Resolves (hand : List KRef) (s : Store) (k : KRef) (rejecting : Bool) (v : CapData)
    (p : Result (List (KRef × Message)) × Store) : Type 0 where
  pub objects : Dict KRef Counts
  pub promises : Dict KRef ℕ
  pub candidates : List KRef
  pub outcome : p ≡ (
    ok (map (λ m. (k, m)) (queued (get k s.promise_queue))),
    resolved k rejecting v objects promises candidates s,
  )
  pub audited : IsAudited hand (resolved k rejecting v objects promises candidates s)
  pub exists :
      (j : KRef)
      → kernel_ref_exists j (resolved k rejecting v objects promises candidates s)
        ≡ kernel_ref_exists j s

pub same_counts-exists :
    (j : KRef) (s t : Store)
    → t.object_counts ≡ s.object_counts
    → t.promise_counts ≡ s.promise_counts
    → kernel_ref_exists j t ≡ kernel_ref_exists j s
unfolding kernel_ref_exists
same_counts-exists (ko n) s t o p = rw (o) refl
same_counts-exists (kp n) s t o p = rw (p) refl

-- The queue read to its end: what its messages hold is in hand.
pub emptied-IsAudited :
    {hand : List KRef} (s : Store) (k : KRef)
    → IsAudited hand s
    → IsAudited (queue_refs k (queued (get k s.promise_queue)) ++ hand) (emptied k s)
emptied-IsAudited {hand = hand} s k a = rewrite_queue-IsAudited s k [] a (λ j. omega (
  arith,
  credit_queue-refs j k [],
  credit_queue-refs j k (queued (get k s.promise_queue)),
  occurrences-append j (queue_refs k (queued (get k s.promise_queue))) hand,
))

module _ {hand : List KRef} (s : Store) (k : KRef) (rejecting : Bool) (v : CapData) where
  -- The part after the messages are released
  settling-Resolves :
      (oc : Dict KRef Counts) (pc : Dict KRef ℕ) (l : List KRef)
      → IsAudited (v.slots ++ hand) (recounted oc pc l (emptied k s))
      → get k s.promise_state ≡ some unresolved
      → Recounts hand
          (write_settled k rejecting v (recounted oc pc l (emptied k s)))
          (decrement k (write_settled k rejecting v (recounted oc pc l (emptied k s))))
  settling-Resolves oc pc l a h =
      decrement-Recounts _ k
        (write_settled-IsAudited (recounted oc pc l (emptied k s)) k rejecting v a h)

  pub resolve_kernel_promise-Resolves :
      IsAudited (v.slots ++ hand) s
      → get k s.promise_state ≡ some unresolved
      → Resolves hand s k rejecting v (resolve_kernel_promise k rejecting v s)
  unfolding resolve_kernel_promise get_kernel_promise_message_queue write_settled
  resolve_kernel_promise-Resolves a h =
      let r =
        releases-Recounts k (queued (get k s.promise_queue)) (emptied k s)
          (emptied-IsAudited s k a) in
      let d = settling-Resolves r.objects r.promises r.candidates r.audited h in
      record {
        objects = d.objects;
        promises = d.promises;
        candidates = d.candidates;
        outcome = rw (r.outcome, d.outcome) refl;
        audited =
            delete_queue-IsAudited _ k d.audited (ap queued (get-put_self k [] s.promise_queue));
        exists = λ j.
            same_counts-exists j _ _ refl refl
            ∙ d.exists j
            ∙ same_counts-exists j _ _ refl refl
            ∙ r.exists j
            ∙ same_counts-exists j _ _ refl refl;
      }

module _ {hand : List KRef} (s : Store) (k : KRef) (m : Message) where
  -- On a store that is audited with some references in hand, queueing a message on a promise returns if the
  -- promise and all that the message refers to exist, and the store is audited with the same in hand.
  pub enqueue_promise_message-IsAudited :
      IsAudited hand s
      → Exist (k ∷ message_refs m) s
      → ((enqueue_promise_message k m s).0 ≡ ok tt)
        × IsAudited hand (enqueue_promise_message k m s).1
  unfolding enqueue_promise_message
  enqueue_promise_message-IsAudited a h =
      let r = charge_message-Recounts k m s a h in
      rw (r.outcome) (
        refl,
        rewrite_queue-IsAudited (recounted r.objects r.promises r.candidates s) k
            (queued (get k s.promise_queue) ++ m ∷ []) r.audited
            (λ j. omega (
              arith,
              credit_queue-snoc j k m (queued (get k s.promise_queue)),
              occurrences-append j (message_refs m) hand,
            )),
      )
