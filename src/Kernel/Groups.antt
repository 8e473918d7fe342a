-- ===== src/Kernel/Groups.antt =====
-- `resolvePromises` on a group of resolutions.
use ocap_kernel.Prelude.{refl, some, false, true, [], ◌≡◌, Bool, ◌∷◌, List, Option}
use ocap_kernel.Refs.{kref_eq, EndpointId, is_promise_ref, kref_beq, Owner, KRef}
use ocap_kernel.Store.Audit.Messages.{Exist, Exist-transfer}
use ocap_kernel.Exec.{resume, ok, Result, for_each}
use ocap_kernel.Store.State.{unresolved, Store}
use ocap_kernel.Dict.{get-delete, get, get-put}
use ocap_kernel.Kernel.References.{resumed}
use ocap_kernel.Kernel.Resolution.{resolve_one-Settles, Settles}
use ocap_kernel.Store.Audit.Laws.{IsAudited}
use ocap_kernel.Kernel.State.{KernelQueue, K, KernelOneResolution}
use ocap_kernel.Kernel.Enqueue.{resolve_one, resolve_promises}

-- The endpoint may make this resolution: it decides the unresolved promise, and the slots of the value
-- are krefs that exist.
pub record IsPermitted (who : Option Owner) (r : KernelOneResolution) (s : Store) : Type 0 where
  pub promise : is_promise_ref r.kpid ≡ true
  pub unsettled : get r.kpid s.promise_state ≡ some unresolved
  pub listeners : List EndpointId
  pub listening : get r.kpid s.subscribers ≡ some listeners
  pub decided : get r.kpid s.decider ≡ who
  pub slots : Exist r.value.slots s

-- No promise is resolved twice.
abbrev pub Others : KRef → List KernelOneResolution → Type 0
Others k [] = Unit
Others k (r ∷ rs) = (kref_beq k r.kpid ≡ false) × Others k rs

abbrev pub ArePermitted : Option Owner → List KernelOneResolution → Store → Type 0
ArePermitted who [] s = Unit
ArePermitted who (r ∷ rs) s = IsPermitted who r s × (Others r.kpid rs × ArePermitted who rs s)

module _ {hand : List KRef} (who : Option Owner) (r : KernelOneResolution) (q : KernelQueue)
    (p : Result (Unit {0}) × KernelQueue) where
  -- A resolution leaves the others as they were.
  kept-IsPermitted :
      (x : KernelOneResolution)
      → Settles hand r q p
      → kref_beq r.kpid x.kpid ≡ false
      → IsPermitted who x q.store
      → IsPermitted who x p.1.store
  kept-IsPermitted x n d h = record {
    promise = h.promise;
    unsettled = rw (n.states, get-put r.kpid x.kpid _ q.store.promise_state, d) h.unsettled;
    listeners = h.listeners;
    listening = rw (n.listeners, get-delete r.kpid x.kpid q.store.subscribers, d) h.listening;
    decided = rw (n.deciders, get-delete r.kpid x.kpid q.store.decider, d) h.decided;
    slots = Exist-transfer x.value.slots q.store p.1.store n.exists h.slots;
  }

  kept-ArePermitted :
      (xs : List KernelOneResolution)
      → Settles hand r q p
      → Others r.kpid xs
      → ArePermitted who xs q.store
      → ArePermitted who xs p.1.store
  kept-ArePermitted [] n d h = tt
  kept-ArePermitted (x ∷ xs) n d h =
      (kept-IsPermitted x n d.0 h.0, (h.1.0, kept-ArePermitted xs n d.1 h.1.1))

resumed-IsAudited :
    {hand : List KRef} (f : K (Unit {0})) (r : Result (Unit {0})) (t : KernelQueue)
    → r ≡ ok tt
    → ((f t).0 ≡ ok tt) × IsAudited hand (f t).1.store
    → ((resume r (λ _. f) t).0 ≡ ok tt) × IsAudited hand (resume r (λ _. f) t).1.store
resumed-IsAudited f r t h x = rw (resumed f r t h) x

-- On a store that is audited with some references in hand, a group of resolutions of different promises
-- returns, and leaves the store audited with the same in hand. Each promise is unresolved, decided by the
-- caller and has its row of subscribers, and the krefs in each value exist. This holds whether the
-- notifications and messages are enqueued at once or buffered.
pub resolve_promises-IsAudited :
    {hand : List KRef} (who : Option Owner) (rs : List KernelOneResolution) (b : Bool)
    (q : KernelQueue)
    → IsAudited hand q.store
    → ArePermitted who rs q.store
    → ((resolve_promises who rs b q).0 ≡ ok tt)
      × IsAudited hand (resolve_promises who rs b q).1.store
unfolding resolve_promises for_each
resolve_promises-IsAudited who [] b q a h = (refl, a)
resolve_promises-IsAudited who (r ∷ rs) b q a h =
    let n =
      resolve_one-Settles who b r q h.0.listeners a h.0.promise h.0.unsettled h.0.listening
        h.0.decided h.0.slots in
    let t = (resolve_one who b r q).1 in
    resumed-IsAudited (for_each rs (resolve_one who b)) (resolve_one who b r q).0 t n.outcome (
      resolve_promises-IsAudited who rs b t n.audited
        (kept-ArePermitted who r q (resolve_one who b r q) rs n h.1.0 h.1.1))
