-- ===== src/Kernel/Subscribers.antt =====
-- What a settlement does to the kernel's own subscriptions, apart from the store.
use mathlib.Core.Path.{subst}
use ocap_kernel.Dict.{Dict, delete, get}
use ocap_kernel.Exec.{ok, Result}
use ocap_kernel.Kernel.Enqueue.{
  settle_found, invoke_kernel_subscription, settle_all, settle_kernel_subscription,
}
use ocap_kernel.Kernel.Resolution.{settled_promise}
use ocap_kernel.Kernel.State.{KernelOneResolution, KernelQueue}
use ocap_kernel.Prelude.{
  ap, inl, inr, none, refl, some, true, ◌++◌, ◌∙◌, ◌∷◌, ◌≡◌, [], Bool, List, Option, Option-cases,
  ℕ, if◌then◌else◌,
}
use ocap_kernel.Refs.{kref_eq, is_promise_ref, EndpointId, KRef}
use ocap_kernel.Store.Promise.{get_kernel_promise, settled, KernelPromise}
use ocap_kernel.Store.State.{fulfilled, notify, rejected, CapData, RunQueueItem, Store}

-- The settlement that a promise reads as, if it is settled
abbrev pub read_as : KRef → Result KernelPromise → List KernelOneResolution
read_as k (ok (settled b v)) = record { kpid = k; rejected = b; value = v } ∷ []
read_as k _ = []

-- What the notifications among these items tell
abbrev pub told_by : RunQueueItem → Store → List KernelOneResolution
told_by (notify e k) s = read_as k (get_kernel_promise k s).0
told_by _ s = []

abbrev pub told_in : List RunQueueItem → Store → List KernelOneResolution
told_in [] s = []
told_in (i ∷ is) s = told_by i s ++ told_in is s

-- Two queues with the same subscriptions, and the same told to subscribers and still to be told to them
pub record IsAlike (q q' : KernelQueue) : Type 0 where
  pub subscribed : q.subscriptions ≡ q'.subscriptions
  pub said : q.settlements ≡ q'.settlements
  pub owed : q.resolved_with_kernel_subscription ≡ q'.resolved_with_kernel_subscription

pub IsAlike-trans : (q r s : KernelQueue) → IsAlike q r → IsAlike r s → IsAlike q s
IsAlike-trans q r s a b = record {
  subscribed = a.subscribed ∙ b.subscribed;
  said = a.said ∙ b.said;
  owed = a.owed ∙ b.owed;
}

pub IsAlike-refl : (q : KernelQueue) → IsAlike q q
IsAlike-refl q = record { subscribed = refl; said = refl; owed = refl }

settle_found-IsAlike :
    (k : KRef) (b : Bool) (v : Option CapData) (n : Option ℕ) (q q' : KernelQueue)
    → IsAlike q q'
    → IsAlike (settle_found k b v n q) (settle_found k b v n q')
settle_found-IsAlike k b v none q q' a = a
settle_found-IsAlike k b v (some n) q q' a = record {
  subscribed = ap (delete k) a.subscribed;
  said = ap (λ l. l ++ record { subscriber = n; rejected = b; value = v } ∷ []) a.said;
  owed = a.owed;
}

settle-IsAlike :
    (k : KRef) (b : Bool) (v : Option CapData) (q q' : KernelQueue)
    → IsAlike q q'
    → IsAlike (settle_kernel_subscription k b v q) (settle_kernel_subscription k b v q')
unfolding settle_kernel_subscription
settle-IsAlike k b v q q' a =
    subst
      (λ (d : Dict KRef ℕ).
        IsAlike (settle_found k b v (get k q.subscriptions) q) (settle_found k b v (get k d) q'))
      a.subscribed (settle_found-IsAlike k b v (get k q.subscriptions) q q' a)

pub settle_all-IsAlike :
    (rs : List KernelOneResolution) (q q' : KernelQueue)
    → IsAlike q q'
    → IsAlike (settle_all rs q) (settle_all rs q')
unfolding settle_all
settle_all-IsAlike [] q q' a = a
settle_all-IsAlike (r ∷ rs) q q' a =
    settle_all-IsAlike rs _ _ (settle-IsAlike r.kpid r.rejected (some r.value) q q' a)

pub settle_all-append :
    (rs rs' : List KernelOneResolution) (q : KernelQueue)
    → settle_all (rs ++ rs') q ≡ settle_all rs' (settle_all rs q)
unfolding settle_all
settle_all-append [] rs' q = refl
settle_all-append (r ∷ rs) rs' q =
    settle_all-append rs rs' (settle_kernel_subscription r.kpid r.rejected (some r.value) q)

settle-owed :
    (k : KRef) (b : Bool) (v : Option CapData) (q : KernelQueue)
    → ((settle_kernel_subscription k b v q).resolved_with_kernel_subscription
        ≡ q.resolved_with_kernel_subscription)
      × ((settle_kernel_subscription k b v q).is_asleep ≡ q.is_asleep)
unfolding settle_kernel_subscription
settle-owed k b v q = elim (Option-cases (get k q.subscriptions)) [
  | inl n ↦ rw (n) (refl, refl)
  | inr (c, n) ↦ rw (n) (refl, refl)
]

-- Settling leaves what is owed, and whether the run loop waits.
pub settle_all-owed :
    (rs : List KernelOneResolution) (q : KernelQueue)
    → ((settle_all rs q).resolved_with_kernel_subscription ≡ q.resolved_with_kernel_subscription)
      × ((settle_all rs q).is_asleep ≡ q.is_asleep)
unfolding settle_all
settle_all-owed [] q = (refl, refl)
settle_all-owed (r ∷ rs) q =
    let (o, a) =
      settle_all-owed rs (settle_kernel_subscription r.kpid r.rejected (some r.value) q) in
    let (o', a') = settle-owed r.kpid r.rejected (some r.value) q in (o ∙ o', a ∙ a')

subscribed_to :
    (k : KRef) (b : Bool) (v : Option CapData) (c : ℕ) (q : KernelQueue)
    → get k q.subscriptions ≡ some c
    → settle_kernel_subscription k b v q ≡ settle_found k b v (some c) q
unfolding settle_kernel_subscription
subscribed_to k b v c q n = rw (n) refl

module _ (k : KRef) (b : Bool) (v : CapData) (q : KernelQueue) (p : is_promise_ref k ≡ true)
    (h : get k q.store.promise_state ≡ some (if b then rejected else fulfilled))
    (g : get k q.store.value ≡ some v) where
  pub told_settled :
      (e : EndpointId)
      → told_by (notify e k) q.store ≡ (record { kpid = k; rejected = b; value = v }) ∷ []
  told_settled e = ap (λ r. read_as k r.0) (settled_promise k b v q.store p h g)

  -- A notification of a settled promise settles its subscription.
  pub invoke-settles :
      (invoke_kernel_subscription k q).1 ≡ settle_kernel_subscription k b (some v) q
  unfolding invoke_kernel_subscription
  invoke-settles = elim (Option-cases (get k q.subscriptions)) [
    | inl n ↦ rw (n) refl
    | inr (c, n) ↦ rw (n, settled_promise k b v q.store p h g) (subscribed_to k b (some v) c q n)
  ]
