-- ===== src/Kernel/Routing.antt =====
-- What becomes of the references of a message that the run loop has taken.
use ocap_kernel.Prelude.{
  ap, ◌∙◌, [], ℕ, Option, some, true, arith, none, ◌++◌, refl, ◌∷◌, ◌≡◌, List,
}
use ocap_kernel.Refs.{kref_eq, is_promise_ref, EndpointId, KRef}
use ocap_kernel.Kernel.Resolution.{unresolved_promise}
use ocap_kernel.Store.Audit.Shares.{occurrences-append, same_hand-IsAudited}
use ocap_kernel.Store.Audit.Hand.{recounted, held_exists, Recounts}
use ocap_kernel.Store.State.{Counts, unresolved, Store, Message, M}
use ocap_kernel.Dict.{Dict, put, get}
use ocap_kernel.Store.Promise.{queued, enqueue_promise_message, release_queued_message_refs}
use ocap_kernel.Store.Audit.Settling.{enqueue_promise_message-IsAudited}
use ocap_kernel.Kernel.Resolving.{held_all-Exist}
use ocap_kernel.Kernel.Router.{
  requeue, route_by_promise, route_message, CrankResult, deliver_send, splat, deliver_along,
  Surroundings,
}
use ocap_kernel.Exec.{◌>>◌, pure, err, resume, ok, ◌>>=◌, Result}
use ocap_kernel.Store.Audit.Messages.{
  charge_message-Recounts, Exist, release_queued_message_refs-Recounts, message_refs,
}
use ocap_kernel.Store.RefCount.{kernel_ref_exists}
use ocap_kernel.Store.Audit.Laws.{IsAudited}
use ocap_kernel.Kernel.State.{on_store, KernelQueue, K}

-- A call that returns this and leaves these references in hand, whatever else it changes.
pub record Returns {A : Type 0} (hand : List KRef) (a : A) (p : Result A × KernelQueue)
    : Type 0 where
  pub outcome : p.0 ≡ ok a
  pub audited : IsAudited hand p.1.store

pub returned :
    {A B : Type 0} (f : A → K B) (r : Result A) (t : KernelQueue) (a : A)
    → r ≡ ok a
    → resume r f t ≡ f a t
returned f (ok b) t a h = let e : b ≡ a = ground arith in rw (e) refl
returned f (err e) t a h = cc

module _ {A B : Type 0} {hand next : List KRef} (q : KernelQueue) (m : K A) (f : A → K B) (a : A)
    (b : B) where
  pub bind-Returns :
      (r : Returns hand a (m q)) → Returns next b (f a (m q).1) → Returns next b ((m >>= f) q)
  bind-Returns r n = rw (returned f (m q).0 (m q).1 a r.outcome) n

pub counted-Returns :
    {hand : List KRef} (m : M (Unit {0})) (q : KernelQueue)
    → Recounts hand q.store (m q.store)
    → Returns hand tt (on_store m q)
counted-Returns m q r = rw (r.outcome) (record { outcome = refl; audited = r.audited })

pub give_back-Returns :
    {hand : List KRef} (k : KRef) (m : Message) (q : KernelQueue)
    → IsAudited (k ∷ (message_refs m ++ hand)) q.store
    → Returns hand tt (on_store (release_queued_message_refs k m) q)
give_back-Returns k m q a =
    counted-Returns (release_queued_message_refs k m) q
      (release_queued_message_refs-Recounts k m q.store a)

none-Returns :
    {hand : List KRef} {A : Type 0} (a : A) (q : KernelQueue)
    → IsAudited hand q.store
    → Returns hand a (ok a, q)
none-Returns a q h = record { outcome = refl; audited = h }

abbrev no_crank_result : Option CrankResult
no_crank_result = none

module _ {hand : List KRef} (k : KRef) (m : Message) (q : KernelQueue) where
  -- The call that gives back everything, and what is left after it
  released :
      IsAudited (k ∷ (message_refs m ++ hand)) q.store
      → Returns hand no_crank_result ((on_store (release_queued_message_refs k m) >> pure none) q)
  released a =
      let g = give_back-Returns k m q a in
      bind-Returns q (on_store (release_queued_message_refs k m)) (λ u. pure no_crank_result) tt
        none g (none-Returns none _ g.audited)

-- It changes counts and collection candidates only.
pub released-store :
    (hand : List KRef) (k : KRef) (m : Message) (q : KernelQueue)
    → IsAudited (k ∷ (message_refs m ++ hand)) q.store
    → (oc : Dict KRef Counts) × (pc : Dict KRef ℕ) × (l : List KRef) × (((on_store
              (release_queued_message_refs k m)
            >> pure no_crank_result)
          q).1.store
        ≡ recounted oc pc l q.store)
released-store hand k m q a =
    let g = release_queued_message_refs-Recounts k m q.store a in
    (g.objects, g.promises, g.candidates, rw (g.outcome) refl)

-- The queues of promises after a message is put in the one of `k`
abbrev pub queued_on : KRef → Message → Store → Dict KRef (List Message)
queued_on k m s = put k (queued (get k s.promise_queue) ++ m ∷ []) s.promise_queue

-- The references of a message in hand are to krefs that exist.
in_hand-Exist :
    (hand : List KRef) (k : KRef) (m : Message) (s : Store)
    → IsAudited (k ∷ (message_refs m ++ hand)) s
    → Exist (message_refs m) s
in_hand-Exist hand k m s a = held_all-Exist (k ∷ hand) (message_refs m) s (
    same_hand-IsAudited s
      (λ j. omega (
        arith,
        occurrences-append j (message_refs m) hand,
        occurrences-append j (message_refs m) (k ∷ hand),
      ))
      a)

module _ {hand : List KRef} (r : Surroundings) (k : KRef) (m : Message) (q : KernelQueue) where
  -- A splat gives back what the item held.
  pub splat-Returns :
      IsAudited (k ∷ (message_refs m ++ hand)) q.store
      → Returns hand none (deliver_along r splat k m q)
  unfolding deliver_along
  splat-Returns a = released k m q a

  -- A message that is put in a promise's queue takes references of its own before the item's are given
  -- back.
  pub requeue-Returns :
      (j : KRef)
      → IsAudited (k ∷ (message_refs m ++ hand)) q.store
      → kernel_ref_exists j q.store ≡ true
      → Returns hand none (deliver_along r (requeue j) k m q)
  unfolding deliver_along
  requeue-Returns j a h =
      let (o, b) =
        enqueue_promise_message-IsAudited q.store j m a (h, in_hand-Exist hand k m q.store a) in
      let t = (on_store (enqueue_promise_message j m) q).1 in
      bind-Returns q (on_store (enqueue_promise_message j m))
        (λ u. on_store (release_queued_message_refs k m) >> pure no_crank_result) tt none
        (record { outcome = o; audited = b }) (released k m t b)

enqueue_promise_message-queues :
    (hand : List KRef) (k : KRef) (m : Message) (s : Store)
    → IsAudited hand s
    → Exist (k ∷ message_refs m) s
    → (enqueue_promise_message k m s).1.promise_queue ≡ queued_on k m s
unfolding enqueue_promise_message
enqueue_promise_message-queues hand k m s a x =
    let c = charge_message-Recounts k m s a x in rw (c.outcome) refl

requeue-queues :
    (hand : List KRef) (r : Surroundings) (j k : KRef) (m : Message) (q : KernelQueue)
    → IsAudited (k ∷ (message_refs m ++ hand)) q.store
    → kernel_ref_exists j q.store ≡ true
    → (deliver_along r (requeue j) k m q).1.store.promise_queue ≡ queued_on j m q.store
unfolding deliver_along
requeue-queues hand r j k m q a h =
    let x = in_hand-Exist hand k m q.store a in
    let (o, b) = enqueue_promise_message-IsAudited q.store j m a (h, x) in
    let t = (on_store (enqueue_promise_message j m) q).1 in
    let (oc, pc, l, e) = released-store hand k m t b in
    ap (λ p. p.1.store.promise_queue)
      (returned (λ u. on_store (release_queued_message_refs k m) >> pure no_crank_result)
        (on_store (enqueue_promise_message j m) q).0 t tt o)
    ∙ (ap (λ s. s.promise_queue) e ∙ enqueue_promise_message-queues _ j m q.store a (h, x))

-- A message whose references are in hand, sent to an unresolved promise with subscribers on record, is put
-- at the end of the promise's queue, and no other queue of a promise changes. The delivery returns no crank
-- result, and the store is audited without the references in hand.
pub deliver_send-unresolved :
    {hand : List KRef} (r : Surroundings) (k : KRef) (m : Message) (subs : List EndpointId)
    (q : KernelQueue)
    → IsAudited (k ∷ (message_refs m ++ hand)) q.store
    → is_promise_ref k ≡ true
    → get k q.store.promise_state ≡ some unresolved
    → get k q.store.subscribers ≡ some subs
    → ((deliver_send r k m q).0 ≡ ok none)
      × ((deliver_send r k m q).1.store.promise_queue ≡ queued_on k m q.store)
      × IsAudited hand (deliver_send r k m q).1.store
unfolding deliver_send route_message route_by_promise
deliver_send-unresolved {hand = hand} r k m subs q a h u l =
    let x = held_exists q.store k a in
    let n = requeue-Returns r k m q k a x in
    rw (h, unresolved_promise k subs q.store h u l)
      (n.outcome, requeue-queues hand r k k m q a x, n.audited)
