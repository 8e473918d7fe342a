-- ===== src/Kernel/Resolution.antt =====
-- One resolution of `resolvePromises` as a whole.
use ocap_kernel.Prelude.{
  ap, ◌∙◌, ℕ, ◌++◌, Option, false, refl, if◌then◌else◌, inr, inl, some, Option-cases, true, ◌≡◌,
  Bool, List,
}
use ocap_kernel.Refs.{option_owner_beq_self, Owner, kref_eq, is_promise_ref, EndpointId, KRef}
use ocap_kernel.Kernel.Enqueue.{
  enqueue_notify, permitted_subscribers, resolve_one, enqueue_send, settle_kernel_subscription,
  invoke_kernel_subscription, tell_subscriber,
}
use ocap_kernel.Kernel.Resolving.{
  unresolved_exists, notifies-Runs, queued-Exist, sends-Runs, targeted,
}
use ocap_kernel.Store.Audit.Messages.{increments-Recounts, Exist, Exist-transfer}
use ocap_kernel.Store.RefCount.{plain_ref, increment_ref_count, kernel_ref_exists}
use ocap_kernel.Kernel.References.{on_store-Runs, resumed, Runs}
use ocap_kernel.Store.Audit.Resolve.{queue_refs}
use ocap_kernel.Store.Audit.Settling.{resolve_kernel_promise-Resolves, resolved}
use ocap_kernel.Store.State.{Counts, fulfilled, rejected, unresolved, CapData, Store}
use ocap_kernel.Dict.{Dict, delete, put, get-put_self, get}
use ocap_kernel.Exec.{for_each, ◌>>=◌, ◌>>◌, ok, Result}
use ocap_kernel.Store.Promise.{
  queued, resolve_kernel_promise, pending, settled, KernelPromise, read_promise, get_kernel_promise,
}
use ocap_kernel.Kernel.State.{on_store, K, KernelQueue, KernelOneResolution}
use ocap_kernel.Store.Audit.Laws.{IsAudited}

-- The resolution is carried out: the promise is settled, and nothing else about promises changes.
pub record Settles (hand : List KRef) (r : KernelOneResolution) (q : KernelQueue)
    (p : Result (Unit {0}) × KernelQueue) : Type 0 where
  pub outcome : p.0 ≡ ok tt
  pub audited : IsAudited hand p.1.store
  pub exists : (j : KRef) → kernel_ref_exists j p.1.store ≡ kernel_ref_exists j q.store
  pub states :
      p.1.store.promise_state
      ≡ put r.kpid (if r.rejected then rejected else fulfilled) q.store.promise_state
  pub values : p.1.store.value ≡ put r.kpid r.value q.store.value
  pub deciders : p.1.store.decider ≡ delete r.kpid q.store.decider
  pub listeners : p.1.store.subscribers ≡ delete r.kpid q.store.subscribers

pub unresolved_promise :
    (k : KRef) (subs : List EndpointId) (s : Store)
    → is_promise_ref k ≡ true
    → get k s.promise_state ≡ some unresolved
    → get k s.subscribers ≡ some subs
    → get_kernel_promise k s ≡ (ok (pending (get k s.decider) subs), s)
unfolding get_kernel_promise read_promise
unresolved_promise k subs s p h l = rw (p, h, l, get_kernel_promise, read_promise) refl

pub settled_promise :
    (k : KRef) (rejecting : Bool) (v : CapData) (s : Store)
    → is_promise_ref k ≡ true
    → get k s.promise_state ≡ some (if rejecting then rejected else fulfilled)
    → get k s.value ≡ some v
    → get_kernel_promise k s ≡ (ok (settled rejecting v), s)
unfolding get_kernel_promise read_promise
settled_promise k true v s p h l = rw (p, h, l, get_kernel_promise, read_promise) refl
settled_promise k false v s p h l = rw (p, h, l, get_kernel_promise, read_promise) refl

-- What a settled promise reads as.
pub Settles-promise :
    {hand : List KRef} (r : KernelOneResolution) (q : KernelQueue)
    (p : Result (Unit {0}) × KernelQueue)
    → is_promise_ref r.kpid ≡ true
    → Settles hand r q p
    → get_kernel_promise r.kpid p.1.store ≡ (ok (settled r.rejected r.value), p.1.store)
Settles-promise r q p h x =
    settled_promise r.kpid r.rejected r.value p.1.store h
      (rw (x.states) (get-put_self r.kpid _ q.store.promise_state))
      (rw (x.values) (get-put_self r.kpid r.value q.store.value))

-- Settling a subscription leaves the store alone.
pub settle-store :
    (k : KRef) (b : Bool) (v : Option CapData) (q : KernelQueue)
    → (settle_kernel_subscription k b v q).store ≡ q.store
unfolding settle_kernel_subscription
settle-store k b v q = elim (Option-cases (get k q.subscriptions)) [
  | inl n ↦ rw (n) refl
  | inr (c, n) ↦ rw (n) refl
]

-- Telling the subscriber returns and leaves the store alone.
tell_subscriber-step :
    (b : Bool) (r : KernelOneResolution) (q : KernelQueue) (x : KernelPromise)
    → get_kernel_promise r.kpid q.store ≡ (ok x, q.store)
    → ((tell_subscriber b r q).0 ≡ ok tt) × ((tell_subscriber b r q).1.store ≡ q.store)
unfolding tell_subscriber invoke_kernel_subscription
tell_subscriber-step true r q x h = elim (Option-cases (get r.kpid q.subscriptions)) [
  | inl n ↦ rw (n) (refl, refl)
  | inr (c, n) ↦ rw (n, h) (refl, settle-store r.kpid _ _ q)
]
tell_subscriber-step false r q x h = elim (Option-cases (get r.kpid q.subscriptions)) [
  | inl n ↦ rw (n) (refl, refl)
  | inr (c, n) ↦ rw (n) (refl, refl)
]

-- What follows the notifications
abbrev closing : Bool → KernelOneResolution → K (Unit {0})
closing b r = on_store (resolve_kernel_promise r.kpid r.rejected r.value) >>= λ ms.
    for_each ms (λ p. enqueue_send p.0 p.1 b) >> tell_subscriber b r

ran :
    {hand : List KRef} (q : KernelQueue) (m f : K (Unit {0}))
    → Runs hand q (m q)
    → (m >> f) q ≡ f (m q).1
ran q m f r = resumed f (m q).0 (m q).1 r.outcome

outcome_ok :
    {hand : List KRef} (q : KernelQueue) (p : Result (Unit {0}) × KernelQueue)
    → Runs hand q p
    → Runs hand q (ok tt, p.1)
outcome_ok q p n = record {
  outcome = refl;
  audited = n.audited;
  exists = n.exists;
  states = n.states;
  values = n.values;
  deciders = n.deciders;
  listeners = n.listeners;
}

module _ {hand : List KRef} (b : Bool) (r : KernelOneResolution) (q : KernelQueue) where
  -- What is left once the messages are sent on and the subscriber is told.
  sent-Settles :
      (oc : Dict KRef Counts) (pc : Dict KRef ℕ) (l : List KRef) (x : KernelQueue)
      → Runs hand
          (record q { store = resolved r.kpid r.rejected r.value oc pc l q.store })
          (ok tt, x)
      → ((j : KRef)
          → kernel_ref_exists j (resolved r.kpid r.rejected r.value oc pc l q.store)
            ≡ kernel_ref_exists j q.store)
      → is_promise_ref r.kpid ≡ true
      → Settles hand r q (tell_subscriber b r x)
  sent-Settles oc pc l x n e h =
      let (o, t) = tell_subscriber-step b r x (settled r.rejected r.value) (
        settled_promise r.kpid r.rejected r.value x.store h
          (rw (n.states) (get-put_self r.kpid _ q.store.promise_state))
          (rw (n.values) (get-put_self r.kpid r.value q.store.value))) in
      record {
        outcome = o;
        audited = rw (t) n.audited;
        exists = λ j. rw (t) (n.exists j ∙ e j);
        states = rw (t) n.states;
        values = rw (t) n.values;
        deciders = rw (t) n.deciders;
        listeners = rw (t) n.listeners;
      }

  closing-Settles :
      IsAudited (r.value.slots ++ hand) q.store
      → get r.kpid q.store.promise_state ≡ some unresolved
      → is_promise_ref r.kpid ≡ true
      → Settles hand r q (closing b r q)
  closing-Settles a u h =
      let x = resolve_kernel_promise-Resolves q.store r.kpid r.rejected r.value a u in
      let ms = queued (get r.kpid q.store.promise_queue) in
      let t : KernelQueue = record q {
        store = resolved r.kpid r.rejected r.value x.objects x.promises x.candidates q.store;
      } in
      let n = sends-Runs r.kpid b ms t x.audited (
        Exist-transfer (queue_refs r.kpid ms) q.store t.store x.exists
          (queued-Exist q.store r.kpid a)) in
      rw
        (
          x.outcome,
          ran t (for_each (targeted r.kpid ms) (λ p. enqueue_send p.0 p.1 b)) (tell_subscriber b r)
              n,
        )
        (sent-Settles x.objects x.promises x.candidates _ (outcome_ok t _ n) x.exists h)

module _ {hand : List KRef} (who : Option Owner) (b : Bool) (r : KernelOneResolution)
    (q : KernelQueue) where
  -- On a store that is audited with some references in hand, resolving an unresolved promise by its
  -- decider, with subscribers on record and a value whose krefs exist, returns. It puts down the state and
  -- the value of that promise, takes its decider and its subscribers away, changes these rows of no other
  -- promise and no kref's existence, and leaves the store audited with the same in hand.
  pub resolve_one-Settles :
      (subs : List EndpointId)
      → IsAudited hand q.store
      → is_promise_ref r.kpid ≡ true
      → get r.kpid q.store.promise_state ≡ some unresolved
      → get r.kpid q.store.subscribers ≡ some subs
      → get r.kpid q.store.decider ≡ who
      → Exist r.value.slots q.store
      → Settles hand r q (resolve_one who b r q)
  unfolding resolve_one permitted_subscribers
  resolve_one-Settles subs a h u l d x =
      let charge =
        on_store-Runs (for_each r.value.slots (λ j. increment_ref_count j plain_ref)) q
          (increments-Recounts r.value.slots q.store a x) in
      let t = (on_store (for_each r.value.slots (λ j. increment_ref_count j plain_ref)) q).1 in
      let told =
        notifies-Runs r.kpid b subs t charge.audited
          (charge.exists r.kpid ∙ unresolved_exists q.store r.kpid a u) in
      let v = (for_each subs (λ e. enqueue_notify e r.kpid b) t).1 in
      let c = closing-Settles b r v told.audited (rw (told.states, charge.states) u) h in
      rw
        (
          unresolved_promise r.kpid subs q.store h u l,
          d,
          option_owner_beq_self who,
          ran q (on_store (for_each r.value.slots (λ j. increment_ref_count j plain_ref)))
              (for_each subs (λ e. enqueue_notify e r.kpid b) >> closing b r) charge,
          ran t (for_each subs (λ e. enqueue_notify e r.kpid b)) (closing b r) told,
        )
        (record {
          outcome = c.outcome;
          audited = c.audited;
          exists = λ j. c.exists j ∙ told.exists j ∙ charge.exists j;
          states = c.states ∙ ap (put r.kpid _) (told.states ∙ charge.states);
          values = c.values ∙ ap (put r.kpid r.value) (told.values ∙ charge.values);
          deciders = c.deciders ∙ ap (delete r.kpid) (told.deciders ∙ charge.deciders);
          listeners = c.listeners ∙ ap (delete r.kpid) (told.listeners ∙ charge.listeners);
        })
