-- ===== src/Kernel/Undeliverable.antt =====
-- Messages that no endpoint can take, and those that the kernel's services take.
use ocap_kernel.Kernel.Router.{
  object_deleted, object_revoked, deliver_along, KernelErrorCode, splat, with_queue_result,
  route_to_owner, route_as_send, route_as_splat, Surroundings, route_message, deliver_send,
  reject_result,
}
use ocap_kernel.Prelude.{
  ap, sym, ◌∙◌, ◌≢◌, if◌then◌else◌, arith, inr, inl, Bool-cases, ◌⊎◌, [], refl, none, ◌++◌, true,
  ◌∷◌, ◌≡◌, some, ℕ, List, Option,
}
use ocap_kernel.Kernel.Routing.{released-store, returned, splat-Returns, Returns}
use ocap_kernel.Exec.{◌>>=◌, Result, done, for_each, pure}
use ocap_kernel.Store.Object.{get_owner}
use ocap_kernel.Kernel.Resolution.{Settles, resolve_one-Settles, unresolved_promise}
use ocap_kernel.Refs.{Owner, kref_eq, EndpointId, ko, is_promise_ref, KRef}
use ocap_kernel.Store.Revocation.{is_revoked}
use ocap_kernel.Kernel.Enqueue.{resolve_one, resolve_promises}
use ocap_kernel.Kernel.References.{resumed}
use ocap_kernel.Store.State.{rejected, unresolved, Message, CapData, Store}
use ocap_kernel.Dict.{put, get}
use ocap_kernel.Store.Audit.Messages.{message_refs, Exist}
use ocap_kernel.Store.Audit.Laws.{IsAudited}
use ocap_kernel.Kernel.State.{K, KernelOneResolution, KernelQueue}

-- The promise for the result, if the message has one, is unresolved and has its row of subscribers.
abbrev pub IsAnswerable : Option KRef → Store → Type 0
IsAnswerable none s = Unit
IsAnswerable (some k) s =
    (is_promise_ref k ≡ true)
    × ((get k s.promise_state ≡ some unresolved)
        × ((subs : List EndpointId) × (get k s.subscribers ≡ some subs)))

-- The call returns this, leaves these references in hand, and has settled the promise for the result, if
-- the message has one, as rejected with the value, and no other promise.
pub record Rejects {A : Type 0} (hand : List KRef) (a : A) (o : Option KRef) (v : CapData)
    (s : Store) (p : Result A × KernelQueue) : Type 0 where
  pub returns : Returns hand a p
  pub states : (k : KRef) → o ≡ some k → p.1.store.promise_state ≡ put k rejected s.promise_state
  pub values : (k : KRef) → o ≡ some k → p.1.store.value ≡ put k v s.value

some_injective : {j k : KRef} → some j ≡ some k → j ≡ k
some_injective q = cc

none_ne_some : {k : KRef} → none ≢ some k
none_ne_some q = cc

alone :
    {hand : List KRef} (who : Option Owner) (x : KernelOneResolution) (q : KernelQueue)
    → Settles hand x q (resolve_one who true x q)
    → Settles hand x q (resolve_promises who (x ∷ []) true q)
unfolding resolve_promises for_each
alone who x q n =
    rw (resumed done (resolve_one who true x q).0 (resolve_one who true x q).1 n.outcome) (record {
      outcome = refl;
      audited = n.audited;
      exists = n.exists;
      states = n.states;
      values = n.values;
      deciders = n.deciders;
      listeners = n.listeners;
    })

-- Rejecting the result with a value whose slots exist
reject_result-Rejects :
    {hand : List KRef} (v : CapData) (k : KRef) (q : KernelQueue)
    → IsAudited hand q.store
    → IsAnswerable (some k) q.store
    → Exist v.slots q.store
    → Rejects hand tt (some k) v q.store (reject_result v k q)
unfolding reject_result
reject_result-Rejects v k q a (h, (u, (subs, l))) x =
    let r : KernelOneResolution = record { kpid = k; rejected = true; value = v } in
    let n =
      alone (get k q.store.decider) r q
        (resolve_one-Settles (get k q.store.decider) true r q subs a h u l refl x) in
    rw (unresolved_promise k subs q.store h u l) (record {
      returns = record { outcome = n.outcome; audited = n.audited };
      states = λ j e. rw (sym (some_injective e)) n.states;
      values = λ j e. rw (sym (some_injective e)) n.values;
    })

with_result-Rejects :
    {hand : List KRef} (v : CapData) (o : Option KRef) (q : KernelQueue)
    → IsAudited hand q.store
    → IsAnswerable o q.store
    → Exist v.slots q.store
    → Rejects hand tt o v q.store (with_queue_result o (reject_result v) q)
with_result-Rejects v none q a h x = record {
  returns = record { outcome = refl; audited = a };
  states = λ k e. absurd (none_ne_some e);
  values = λ k e. absurd (none_ne_some e);
}
with_result-Rejects v (some k) q a h x = reject_result-Rejects v k q a h x

-- What goes on from there and leaves these rows of promises alone rejects too.
bind-Rejects :
    {A B : Type 0} {hand next : List KRef} {a : A} {b : B} {o : Option KRef} {v : CapData}
    {s : Store} (q : KernelQueue) (m : K A) (f : A → K B)
    → Rejects hand a o v s (m q)
    → Returns next b (f a (m q).1)
    → (f a (m q).1).1.store.promise_state ≡ (m q).1.store.promise_state
    → (f a (m q).1).1.store.value ≡ (m q).1.store.value
    → Rejects next b o v s ((m >>= f) q)
bind-Rejects q m f n r e g =
    rw (returned f (m q).0 (m q).1 _ n.returns.outcome)
      (record { returns = r; states = λ k h. e ∙ n.states k h; values = λ k h. g ∙ n.values k h })

module _ {hand : List KRef} (r : Surroundings) (q : KernelQueue) where
  route_as_splat-Rejects :
      (m : Message) (v : CapData)
      → IsAudited hand q.store
      → IsAnswerable m.result q.store
      → Exist v.slots q.store
      → Rejects hand splat m.result v q.store (route_as_splat r m v q)
  unfolding route_as_splat
  route_as_splat-Rejects m v a h x =
      let n = with_result-Rejects v m.result q a h x in
      bind-Rejects q (with_queue_result m.result (reject_result v)) (λ u. pure splat) n
        (record { outcome = refl; audited = n.returns.audited }) refl refl

  route_as_send-Rejects :
      (k : KRef) (m : Message)
      → ((c : KernelErrorCode) → (r.make_kernel_error c).slots ≡ [])
      → (is_revoked k q.store ≡ true) ⊎ (get_owner k q.store ≡ none)
      → IsAudited hand q.store
      → IsAnswerable m.result q.store
      → Rejects hand splat m.result
          (r.make_kernel_error (if is_revoked k q.store then object_revoked else object_deleted))
          q.store
          (route_as_send r k m q)
  unfolding route_as_send route_to_owner
  route_as_send-Rejects k m e d a h = elim (Bool-cases (is_revoked k q.store)) [
    | inl y ↦ rw (y) (
        route_as_splat-Rejects m (r.make_kernel_error object_revoked) a h
          (rw (e object_revoked) tt))
    | inr n ↦ elim d [
      | inl y ↦ absurd (ground arith)
      | inr o ↦
          rw (n, o)
            (route_as_splat-Rejects m (r.make_kernel_error object_deleted) a h
              (rw (e object_deleted) tt))
    ]
  ]

-- A message whose references are in hand, sent to an object that is revoked or has no owner, returns no
-- crank result and leaves the store audited without them in hand. The promise for its result, if it has one,
-- is rejected with the kernel's error for a revoked object, or else for a deleted one, and no other promise
-- is settled. Kernel errors carry no slots, and the promise is unresolved with subscribers on record.
pub deliver_send-undeliverable :
    {hand : List KRef} (r : Surroundings) (n : ℕ) (m : Message) (q : KernelQueue)
    → IsAudited (ko n ∷ (message_refs m ++ hand)) q.store
    → ((c : KernelErrorCode) → (r.make_kernel_error c).slots ≡ [])
    → (is_revoked (ko n) q.store ≡ true) ⊎ (get_owner (ko n) q.store ≡ none)
    → IsAnswerable m.result q.store
    → Rejects hand none m.result
        (r.make_kernel_error (if is_revoked (ko n) q.store then object_revoked else object_deleted))
        q.store
        (deliver_send r (ko n) m q)
unfolding deliver_send route_message deliver_along
deliver_send-undeliverable {hand = hand} r n m q a e d h =
    let x = route_as_send-Rejects r q (ko n) m e d a h in
    let t = (route_as_send r (ko n) m q).1 in
    let (oc, pc, l, g) = released-store hand (ko n) m t x.returns.audited in
    bind-Rejects q (route_as_send r (ko n) m) (λ route. deliver_along r route (ko n) m) x
      (splat-Returns r (ko n) m t x.returns.audited) (ap (λ s. s.promise_state) g)
      (ap (λ s. s.value) g)
