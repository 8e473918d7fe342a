-- ===== src/Kernel/Flush.antt =====
-- The flush of the crank buffer.
use ocap_kernel.Kernel.FlushItems.{
  flush_items-awake, flush_items-step, flush_items-tells, requeued-AreSettled, told_in-requeued,
  AreSettled,
}
use ocap_kernel.Refs.{kref_eq, KRef}
use ocap_kernel.Kernel.Resolution.{settle-store}
use ocap_kernel.Store.State.{RunQueueItem}
use ocap_kernel.Prelude.{false, some, arith, sym, ap, refl, ◌∙◌, ◌∷◌, ◌≡◌, [], ◌++◌, List}
use ocap_kernel.Kernel.References.{credit_items-append, resumed}
use ocap_kernel.Exec.{modify, ok, for_each}
use ocap_kernel.Kernel.Enqueue.{flush_crank_buffer, flush_item, settle_all}
use ocap_kernel.Kernel.Subscribers.{
  settle_all-IsAlike, settle_all-append, settle_all-owed, told_in, IsAlike, IsAlike-trans,
}
use mathlib.Core.Path.{subst}
use ocap_kernel.Store.Audit.Reheld.{reheld-IsAudited}
use ocap_kernel.Store.Audit.Laws.{IsAudited}
use ocap_kernel.Kernel.State.{KernelOneResolution, KernelQueue}
use ocap_kernel.Store.Audit.Weights.{credit_items, held}

settle_all-store :
    (rs : List KernelOneResolution) (q : KernelQueue) → (settle_all rs q).store ≡ q.store
unfolding settle_all
settle_all-store [] q = refl
settle_all-store (r ∷ rs) q =
    settle_all-store rs _ ∙ settle-store r.kpid r.rejected (some r.value) q

nothing : (j : KRef) → credit_items j [] ≡ 0
unfolding credit_items
nothing j = refl

-- What the flush leaves apart from the store: the subscriptions to the promises of the buffered
-- notifications are settled as these promises are, then those of the resolutions that were recorded, and
-- the loop is awake if anything was buffered.
pub record Tells (q q' : KernelQueue) : Type 0 where
  pub subscribed :
      q'.subscriptions
      ≡ (settle_all
          (told_in q.store.crank_buffer q.store ++ q.resolved_with_kernel_subscription)
          q).subscriptions
  pub said :
      q'.settlements
      ≡ (settle_all
          (told_in q.store.crank_buffer q.store ++ q.resolved_with_kernel_subscription)
          q).settlements
  pub owed : q'.resolved_with_kernel_subscription ≡ []
  pub awake :
      (i : RunQueueItem) (is : List RunQueueItem)
      → q.store.crank_buffer ≡ i ∷ is
      → q'.is_asleep ≡ false

-- What is settled once the items are moved and what was owed is told too
flushed-IsAlike :
    (q n : KernelQueue)
    → AreSettled q.store.crank_buffer q.store
    → let t : KernelQueue = record q { store = record q.store { crank_buffer = [] } } in
      IsAlike n (settle_all (told_in q.store.crank_buffer t.store) t)
      → IsAlike (settle_all n.resolved_with_kernel_subscription n) (
          settle_all
            (told_in q.store.crank_buffer q.store ++ q.resolved_with_kernel_subscription)
            q)
flushed-IsAlike q n h m =
    let t : KernelQueue = record q { store = record q.store { crank_buffer = [] } } in
    let x = told_in q.store.crank_buffer t.store in
    let owed = m.owed ∙ (settle_all-owed x t).0 in
    let s = told_in-requeued q.store.crank_buffer q q.store.run_queue [] h in
    let y = settle_all-IsAlike q.resolved_with_kernel_subscription n (settle_all x q) (
      IsAlike-trans n (settle_all x t) (settle_all x q) m
        (settle_all-IsAlike x t q (record { subscribed = refl; said = refl; owed = refl }))) in
    let z =
      ap (λ l. settle_all (l ++ q.resolved_with_kernel_subscription) q) (sym s)
      ∙ settle_all-append x q.resolved_with_kernel_subscription q in
    subst (λ u. IsAlike (settle_all n.resolved_with_kernel_subscription n) u) (sym z)
      (subst
        (λ l.
          IsAlike (settle_all l n)
            (settle_all q.resolved_with_kernel_subscription (settle_all x q)))
        (sym owed) y)

-- If the promise of every buffered notification is settled, the flush returns, has moved the buffer to the
-- end of the run queue in its order and changed nothing else in the store. Beside the store, the
-- subscriptions to the promises of the buffered notifications are settled, in their order, as these promises
-- are, then those of the recorded resolutions, of which none is left, and the run loop is awake if anything
-- was buffered.
pub flush_crank_buffer-step :
    (q : KernelQueue)
    → AreSettled q.store.crank_buffer q.store
    → ((flush_crank_buffer q).0 ≡ ok tt)
      × ((flush_crank_buffer q).1.store ≡ record q.store {
        run_queue = q.store.run_queue ++ q.store.crank_buffer;
        crank_buffer = [];
      })
      × Tells q (flush_crank_buffer q).1
unfolding flush_crank_buffer
flush_crank_buffer-step q h =
    let t : KernelQueue = record q { store = record q.store { crank_buffer = [] } } in
    let n = for_each q.store.crank_buffer flush_item t in
    let (o, e) =
      flush_items-step q.store.crank_buffer t
        (requeued-AreSettled q.store.crank_buffer q.store.run_queue [] q.store h) in
    let m =
      (flush_items-tells q.store.crank_buffer t
        (requeued-AreSettled q.store.crank_buffer q.store.run_queue [] q.store h)).0 in
    let a = flushed-IsAlike q n.1 h m in
    rw
      (resumed
        (modify (λ q. record (settle_all q.resolved_with_kernel_subscription q) {
          resolved_with_kernel_subscription = [];
        }))
        n.0 n.1 o)
      (
        refl,
        settle_all-store n.1.resolved_with_kernel_subscription n.1 ∙ e,
        record {
          subscribed = a.subscribed;
          said = a.said;
          owed = refl;
          awake = λ i is b.
              (settle_all-owed n.1.resolved_with_kernel_subscription n.1).1
              ∙ flush_items-awake q.store.crank_buffer t i is
                  (requeued-AreSettled q.store.crank_buffer q.store.run_queue [] q.store h) b;
        },
      )

-- If the promise of every buffered notification is settled, the flush keeps a store audited.
pub flush_crank_buffer-IsAudited :
    {hand : List KRef} (q : KernelQueue)
    → IsAudited hand q.store
    → AreSettled q.store.crank_buffer q.store
    → IsAudited hand (flush_crank_buffer q).1.store
unfolding held
flush_crank_buffer-IsAudited q a h = rw ((flush_crank_buffer-step q h).1) (
    reheld-IsAudited q.store _ refl refl refl refl refl a.promise_rows a.queue_rows
      (λ j. omega (arith, credit_items-append j q.store.run_queue q.store.crank_buffer, nothing j))
      a)
