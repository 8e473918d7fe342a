-- ===== src/Kernel/FlushItems.antt =====
-- One item of the crank buffer after the other: the store, the subscriptions and the run loop.
use ocap_kernel.Refs.{kref_eq, is_promise_ref, KRef}
use ocap_kernel.Kernel.Resolution.{settled_promise, settle-store}
use ocap_kernel.Store.State.{
  fulfilled, terminate_vat, rejected, restart_vat, bring_out_your_dead, CapData, gc_work, send,
  notify, Store, RunQueueItem,
}
use ocap_kernel.Prelude.{
  false, inr, if◌then◌else◌, inl, some, Bool, Option-cases, sym, ap, refl, true, ◌∙◌, ◌∷◌, ◌≡◌, [],
  ◌++◌, List,
}
use ocap_kernel.Dict.{get}
use ocap_kernel.Kernel.References.{enqueue_run_item-step, resumed}
use ocap_kernel.Exec.{resume, ok, Result, for_each}
use ocap_kernel.Kernel.Enqueue.{
  append_run, notified, flush_item, invoke_kernel_subscription, settle_all,
}
use ocap_kernel.Kernel.Subscribers.{
  invoke-settles, settle_all-IsAlike, settle_all-append, settle_all-owed, told_by, told_in,
  told_settled, IsAlike, IsAlike-refl, IsAlike-trans,
}
use ocap_kernel.Kernel.State.{KernelQueue, K}

-- The promise of a notification is settled, as it is when `resolvePromises` has made the notification.
abbrev pub IsSettled : KRef → Store → Type 0
IsSettled k s =
    (is_promise_ref k ≡ true)
    × ((b : Bool) × ((v : CapData) × ((get k s.promise_state
              ≡ some (if b then rejected else fulfilled))
            × (get k s.value ≡ some v))))

abbrev pub IsSettledItem : RunQueueItem → Store → Type 0
IsSettledItem (notify e k) s = IsSettled k s
IsSettledItem _ s = Unit

abbrev pub AreSettled : List RunQueueItem → Store → Type 0
AreSettled [] s = Unit
AreSettled (i ∷ is) s = IsSettledItem i s × AreSettled is s

-- A store with another run queue and crank buffer
abbrev pub requeued : List RunQueueItem → List RunQueueItem → Store → Store
requeued rq cb s = record s { run_queue = rq; crank_buffer = cb }

requeued-IsSettledItem :
    (i : RunQueueItem) (rq cb : List RunQueueItem) (s : Store)
    → IsSettledItem i s
    → IsSettledItem i (requeued rq cb s)
requeued-IsSettledItem (notify e k) rq cb s h = h
requeued-IsSettledItem _ rq cb s h = tt

pub requeued-AreSettled :
    (is rq cb : List RunQueueItem) (s : Store) → AreSettled is s → AreSettled is (requeued rq cb s)
requeued-AreSettled [] rq cb s h = tt
requeued-AreSettled (i ∷ is) rq cb s h =
    (requeued-IsSettledItem i rq cb s h.0, requeued-AreSettled is rq cb s h.1)

invoke-step :
    (k : KRef) (q : KernelQueue)
    → IsSettled k q.store
    → ((invoke_kernel_subscription k q).0 ≡ ok tt)
      × ((invoke_kernel_subscription k q).1.store ≡ q.store)
unfolding invoke_kernel_subscription
invoke-step k q (p, (b, (v, (h, g)))) = elim (Option-cases (get k q.subscriptions)) [
  | inl n ↦ rw (n) (refl, refl)
  | inr (c, n) ↦ rw (n, settled_promise k b v q.store p h g) (refl, settle-store k _ _ q)
]

notified-step :
    (i : RunQueueItem) (q : KernelQueue)
    → IsSettledItem i q.store
    → ((notified i q).0 ≡ ok tt) × ((notified i q).1.store ≡ q.store)
unfolding notified
notified-step (notify e k) q h = invoke-step k q h
notified-step (send k m) q h = (refl, refl)
notified-step (gc_work t e ks) q h = (refl, refl)
notified-step (bring_out_your_dead e) q h = (refl, refl)
notified-step (restart_vat v) q h = (refl, refl)
notified-step (terminate_vat v c) q h = (refl, refl)

flush_item-step :
    (i : RunQueueItem) (q : KernelQueue)
    → IsSettledItem i q.store
    → ((flush_item i q).0 ≡ ok tt) × ((flush_item i q).1.store ≡ append_run i q.store)
unfolding flush_item
flush_item-step i q h = rw (enqueue_run_item-step q i) (
    notified-step i _
      (requeued-IsSettledItem i (append_run i q.store).run_queue q.store.crank_buffer q.store h))

-- The item's subscription is settled, if it is a notification, and the run loop is awake.
notified-tells :
    (i : RunQueueItem) (q : KernelQueue)
    → IsSettledItem i q.store
    → (notified i q).1 ≡ settle_all (told_by i q.store) q
unfolding notified settle_all
notified-tells (notify e k) q (p, (b, (v, (h, g)))) =
    rw (told_settled k b v q p h g e) (invoke-settles k b v q p h g)
notified-tells (send k m) q h = refl
notified-tells (gc_work t e ks) q h = refl
notified-tells (bring_out_your_dead e) q h = refl
notified-tells (restart_vat v) q h = refl
notified-tells (terminate_vat v c) q h = refl

told-requeued :
    (i : RunQueueItem) (q : KernelQueue) (rq cb : List RunQueueItem)
    → IsSettledItem i q.store
    → told_by i (requeued rq cb q.store) ≡ told_by i q.store
told-requeued (notify e k) q rq cb (p, (b, (v, (h, g)))) =
    told_settled k b v (record q { store = requeued rq cb q.store }) p h g e
    ∙ sym (told_settled k b v q p h g e)
told-requeued (send k m) q rq cb h = refl
told-requeued (gc_work t e ks) q rq cb h = refl
told-requeued (bring_out_your_dead e) q rq cb h = refl
told-requeued (restart_vat v) q rq cb h = refl
told-requeued (terminate_vat v c) q rq cb h = refl

pub told_in-requeued :
    (is : List RunQueueItem) (q : KernelQueue) (rq cb : List RunQueueItem)
    → AreSettled is q.store
    → told_in is (requeued rq cb q.store) ≡ told_in is q.store
told_in-requeued [] q rq cb h = refl
told_in-requeued (i ∷ is) q rq cb h =
    rw (told-requeued i q rq cb h.0, told_in-requeued is q rq cb h.1) refl

flush_item-tells :
    (i : RunQueueItem) (q : KernelQueue)
    → IsSettledItem i q.store
    → IsAlike (flush_item i q).1 (settle_all (told_by i q.store) q)
      × ((flush_item i q).1.is_asleep ≡ false)
unfolding flush_item
flush_item-tells i q h =
    let t : KernelQueue = record q { store = append_run i q.store; is_asleep = false } in
    let rq = (append_run i q.store).run_queue in
    let e =
      notified-tells i t (requeued-IsSettledItem i rq q.store.crank_buffer q.store h)
      ∙ ap (λ rs. settle_all rs t) (told-requeued i q rq q.store.crank_buffer h) in
    rw (enqueue_run_item-step q i, e)
      (
        settle_all-IsAlike (told_by i q.store) t q
            (record { subscribed = refl; said = refl; owed = refl }),
        (settle_all-owed (told_by i q.store) t).1,
      )

pub flush_items-tells :
    (is : List RunQueueItem) (q : KernelQueue)
    → AreSettled is q.store
    → IsAlike (for_each is flush_item q).1 (settle_all (told_in is q.store) q)
      × ((q.is_asleep ≡ false) → (for_each is flush_item q).1.is_asleep ≡ false)
unfolding for_each settle_all
flush_items-tells [] q h = (IsAlike-refl q, λ a. a)
flush_items-tells (i ∷ is) q h =
    let (o, e) = flush_item-step i q h.0 in
    let (m, w) = flush_item-tells i q h.0 in
    let t = (flush_item i q).1 in
    let rq = (append_run i q.store).run_queue in
    let (m', w') =
      flush_items-tells is t
        (rw (e) (requeued-AreSettled is rq q.store.crank_buffer q.store h.1)) in
    let s = ap (told_in is) e ∙ told_in-requeued is q rq q.store.crank_buffer h.1 in
    rw (resumed (for_each is flush_item) (flush_item i q).0 t o) (
      IsAlike-trans _ _ _ m' (
          rw (s, settle_all-append (told_by i q.store) (told_in is q.store) q)
            (settle_all-IsAlike (told_in is q.store) t (settle_all (told_by i q.store) q) m)),
      λ a. w' w,
    )

pub flush_items-awake :
    (xs : List RunQueueItem) (q : KernelQueue) (i : RunQueueItem) (is : List RunQueueItem)
    → AreSettled xs q.store
    → xs ≡ i ∷ is
    → (for_each xs flush_item q).1.is_asleep ≡ false
unfolding for_each
flush_items-awake [] q i is h e = cc
flush_items-awake (x ∷ xs) q i is h e =
    let (o, g) = flush_item-step x q h.0 in
    let t = (flush_item x q).1 in
    let rest = flush_items-tells xs t (
      rw (g) (
        requeued-AreSettled xs (append_run x q.store).run_queue q.store.crank_buffer q.store
          h.1)) in
    rw (resumed (for_each xs flush_item) (flush_item x q).0 t o)
      (rest.1 (flush_item-tells x q h.0).1)

append_assoc :
    (xs : List RunQueueItem) (i : RunQueueItem) (is : List RunQueueItem)
    → (xs ++ i ∷ []) ++ is ≡ xs ++ i ∷ is
append_assoc [] i is = refl
append_assoc (x ∷ xs) i is = ap (λ l. x ∷ l) (append_assoc xs i is)

append_nil : (xs : List RunQueueItem) → xs ++ [] ≡ xs
append_nil [] = refl
append_nil (x ∷ xs) = ap (λ l. x ∷ l) (append_nil xs)

resumed-store :
    (f : K (Unit {0})) (r : Result (Unit {0})) (t : KernelQueue) (s : Store)
    → r ≡ ok tt
    → ((f t).0 ≡ ok tt) × ((f t).1.store ≡ s)
    → ((resume r (λ _. f) t).0 ≡ ok tt) × ((resume r (λ _. f) t).1.store ≡ s)
resumed-store f r t s h x = rw (resumed f r t h) x

pub flush_items-step :
    (is : List RunQueueItem) (q : KernelQueue)
    → AreSettled is q.store
    → ((for_each is flush_item q).0 ≡ ok tt)
      × ((for_each is flush_item q).1.store
          ≡ requeued (q.store.run_queue ++ is) q.store.crank_buffer q.store)
unfolding for_each
flush_items-step [] q h =
    (refl, ap (λ l. requeued l q.store.crank_buffer q.store) (sym (append_nil q.store.run_queue)))
flush_items-step (i ∷ is) q h =
    let (o, e) = flush_item-step i q h.0 in
    let t = (flush_item i q).1 in
    let (o', e') = flush_items-step is t (
      rw (e) (
        requeued-AreSettled is (append_run i q.store).run_queue q.store.crank_buffer q.store
          h.1)) in
    resumed-store (for_each is flush_item) (flush_item i q).0 t
      (requeued (q.store.run_queue ++ i ∷ is) q.store.crank_buffer q.store) o
      (
        o',
        e'
            ∙ ap (λ s. requeued (s.run_queue ++ is) s.crank_buffer s) e
            ∙ ap (λ l. requeued l q.store.crank_buffer q.store)
                (append_assoc q.store.run_queue i is),
      )
