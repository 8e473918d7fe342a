-- ===== src/Kernel/Turns.antt =====
-- What the choice of the next item promises (KernelQueue.ts).
use ocap_kernel.Store.GcSchedule.{endpoints_of, schedule, try_groups, process_gc_action_set}
use ocap_kernel.Kernel.Arrivals.{
  or_next, next_item, take_first, take_arrival, take_run, get_next_run_queue_item, take_turns, turn,
}
use ocap_kernel.Kernel.State.{
  ControlOperation, control, arrival, queued_item, RunLoopItem, PeerArrival, KernelQueue,
}
use ocap_kernel.Store.State.{Store, RunQueueItem}
use ocap_kernel.Store.Gc.{set_gc_actions, next_reap_action, take_reap}
use ocap_kernel.Store.Audit.Shares.{occurrences-append}
use ocap_kernel.Kernel.References.{credit_item-refs, item_refs}
use ocap_kernel.Text.Order.{sort}
use ocap_kernel.Prelude.{
  ap, sym, ◌∙◌, Bool-cases, inr, inl, ◌⊎◌, false, none, true, refl, some, [], arith, Option, ◌∷◌,
  ◌++◌, Bool, List, ◌≡◌,
}
use ocap_kernel.Store.Audit.Reheld.{reheld-IsAudited}
use ocap_kernel.Store.Audit.Weights.{credit_items, held}
use ocap_kernel.Store.Audit.Laws.{IsAudited}
use ocap_kernel.Refs.{KRef, EndpointId}

-- No host call, collection action or reap waits, which would go first.
pub record IsQuiet (q : KernelQueue) : Type 0 where
  pub no_control : q.control_requests ≡ []
  pub no_action : q.store.gc_actions ≡ []
  pub no_reap : q.store.reap_queue ≡ []

-- What may come between two choices: arrivals and items of the run queue are added behind those waiting.
pub record Follows (q q' : KernelQueue) : Type 0 where
  pub more_arrivals : List PeerArrival
  pub more_items : List RunQueueItem
  pub arrived : q'.arrived_from_remotes ≡ q.arrived_from_remotes ++ more_arrivals
  pub queued : q'.store.run_queue ≡ q.store.run_queue ++ more_items
  pub took : q'.took_arrival_last ≡ q.took_arrival_last

no_actions :
    (s : Store) → s.gc_actions ≡ [] → process_gc_action_set s ≡ (none, record s { gc_actions = [] })
unfolding process_gc_action_set endpoints_of schedule try_groups set_gc_actions sort
no_actions s g = rw (g) refl

quiet-step : (q : KernelQueue) → IsQuiet q → get_next_run_queue_item q ≡ take_turns q
unfolding get_next_run_queue_item next_item next_reap_action take_reap
quiet-step q i =
    let after = λ (q : KernelQueue). or_next (next_reap_action q.store) q take_turns in
    let s : Store = record q.store { gc_actions = [] } in
    let t : KernelQueue = record q { store = s } in
    ap (λ cs. next_item cs q) i.no_control
    ∙ ap (λ r. or_next r q after) (no_actions q.store i.no_action)
    ∙ ap (λ es. or_next (take_reap es s) t take_turns) i.no_reap
    ∙ ap (λ a. take_turns (record q { store = record q.store { gc_actions = a } }))
        (sym i.no_action)

-- What goes next when it is the turn of the arrivals, and when it is the turn of the run queue
takes_arrival :
    (q : KernelQueue) (a : PeerArrival) (xs : List PeerArrival)
    → IsQuiet q
    → q.took_arrival_last ≡ false
    → q.arrived_from_remotes ≡ a ∷ xs
    → get_next_run_queue_item q
      ≡ (some (arrival a), record q { arrived_from_remotes = xs; took_arrival_last = true })
unfolding take_turns turn take_arrival
takes_arrival q a xs n t h = quiet-step q n ∙ rw (t, h) refl

takes_item :
    (q : KernelQueue) (i : RunQueueItem) (is : List RunQueueItem)
    → IsQuiet q
    → q.took_arrival_last ≡ true
    → q.store.run_queue ≡ i ∷ is
    → get_next_run_queue_item q ≡ (
      some (queued_item i),
      record q { store = record q.store { run_queue = is }; took_arrival_last = false },
    )
unfolding take_turns turn take_run
takes_item q i is n t g = quiet-step q n ∙ rw (t, g) refl

-- With an arrival and an item of the run queue waiting, two choices of the run loop take the first of each,
-- in one order or the other, if at both choices no host call, collection action or reap waits, and between
-- them arrivals and items are only added behind those waiting.
pub get_next_run_queue_item-fair :
    (q q' : KernelQueue) (a : PeerArrival) (xs : List PeerArrival) (i : RunQueueItem)
    (is : List RunQueueItem)
    → q.arrived_from_remotes ≡ a ∷ xs
    → q.store.run_queue ≡ i ∷ is
    → IsQuiet q
    → Follows (get_next_run_queue_item q).1 q'
    → IsQuiet q'
    → (((get_next_run_queue_item q).0 ≡ some (arrival a))
        × ((get_next_run_queue_item q').0 ≡ some (queued_item i)))
      ⊎ (((get_next_run_queue_item q).0 ≡ some (queued_item i))
          × ((get_next_run_queue_item q').0 ≡ some (arrival a)))
get_next_run_queue_item-fair q q' a xs i is h g n f n' = elim (Bool-cases q.took_arrival_last) [
  | inl t ↦
      let e = takes_item q i is n t g in
      inr (
        ap (λ p. p.0) e,
        ap (λ p. p.0)
            (takes_arrival q' a (xs ++ f.more_arrivals) n'
              (f.took ∙ ap (λ p. p.1.took_arrival_last) e)
              (f.arrived
                ∙ ap (λ p. p.1.arrived_from_remotes ++ f.more_arrivals) e
                ∙ ap (λ l. l ++ f.more_arrivals) h)),
      )
  | inr t ↦
      let e = takes_arrival q a xs n t h in
      inl (
        ap (λ p. p.0) e,
        ap (λ p. p.0)
            (takes_item q' i (is ++ f.more_items) n' (f.took ∙ ap (λ p. p.1.took_arrival_last) e) (
              f.queued
              ∙ ap (λ p. p.1.store.run_queue ++ f.more_items) e
              ∙ ap (λ l. l ++ f.more_items) g)),
      )
]

-- The references of the item that is taken
abbrev pub taken_refs : Option RunLoopItem → List KRef
taken_refs none = []
taken_refs (some (queued_item i)) = item_refs i
taken_refs (some (arrival a)) = []
taken_refs (some (control c)) = []

module _ {hand : List KRef} (q : KernelQueue) (a : IsAudited hand q.store) where
  taken_first :
      (xs : List PeerArrival) (q' : KernelQueue)
      → q'.store ≡ q.store
      → IsAudited (taken_refs (take_first xs q').0 ++ hand) (take_first xs q').1.store
  taken_first [] q' h = rw (h) a
  taken_first (x ∷ xs) q' h = rw (h) a

  taken_run :
      (is : List RunQueueItem) (q' : KernelQueue)
      → q'.store ≡ q.store
      → q.store.run_queue ≡ is
      → IsAudited (taken_refs (take_run is q').0 ++ hand) (take_run is q').1.store
  unfolding take_run take_arrival held credit_items
  taken_run [] q' h g = taken_first q'.arrived_from_remotes q' h
  taken_run (i ∷ is) q' h g = rw (h) (
      reheld-IsAudited q.store _ refl refl refl refl refl a.promise_rows a.queue_rows
        (λ j. ground (arith, credit_item-refs j i, occurrences-append j (item_refs i) hand)) a)

  -- If the store is audited with some references in hand, a turn takes the references of the queued item
  -- that it takes, if it takes one, in hand too: the store is audited with them.
  pub take_turns-IsAudited : IsAudited (taken_refs (take_turns q).0 ++ hand) (take_turns q).1.store
  unfolding take_turns turn take_arrival
  take_turns-IsAudited = turned q.took_arrival_last q.arrived_from_remotes
    where
      turned :
          (b : Bool) (xs : List PeerArrival)
          → IsAudited (taken_refs (turn b xs q).0 ++ hand) (turn b xs q).1.store
      turned false (x ∷ xs) = taken_first q.arrived_from_remotes q refl
      turned false [] = taken_run q.store.run_queue _ refl refl
      turned true xs = taken_run q.store.run_queue _ refl refl

-- Nothing is left in memory or in the store for the run loop.
pub record IsIdle (q : KernelQueue) : Type 0 where
  pub no_control : q.control_requests ≡ []
  pub no_arrival : q.arrived_from_remotes ≡ []
  pub no_item : q.store.run_queue ≡ []
  pub no_reap : q.store.reap_queue ≡ []

first-none :
    (xs : List PeerArrival) (q : KernelQueue)
    → q.control_requests ≡ []
    → q.arrived_from_remotes ≡ xs
    → q.store.run_queue ≡ []
    → q.store.reap_queue ≡ []
    → (take_first xs q).0 ≡ none
    → IsIdle (take_first xs q).1
first-none [] q c h g r n = record { no_control = c; no_arrival = h; no_item = g; no_reap = r }
first-none (x ∷ xs) q c h g r n = cc

run-none :
    (is : List RunQueueItem) (q : KernelQueue)
    → q.control_requests ≡ []
    → q.store.run_queue ≡ is
    → q.store.reap_queue ≡ []
    → (take_run is q).0 ≡ none
    → IsIdle (take_run is q).1
unfolding take_run take_arrival
run-none [] q c g r n = first-none q.arrived_from_remotes q c refl g r n
run-none (i ∷ is) q c g r n = cc

turn-none :
    (b : Bool) (xs : List PeerArrival) (q : KernelQueue)
    → q.control_requests ≡ []
    → q.arrived_from_remotes ≡ xs
    → q.store.reap_queue ≡ []
    → (turn b xs q).0 ≡ none
    → IsIdle (turn b xs q).1
unfolding turn take_arrival
turn-none false (x ∷ xs) q c h r n = absurd (ground arith)
turn-none false [] q c h r n = run-none q.store.run_queue _ c refl r n
turn-none true xs q c h r n = run-none q.store.run_queue _ c refl r n

reap-none :
    (es : List EndpointId) (q : KernelQueue)
    → q.control_requests ≡ []
    → q.store.reap_queue ≡ es
    → (or_next (take_reap es q.store) q take_turns).0 ≡ none
    → IsIdle (or_next (take_reap es q.store) q take_turns).1
unfolding take_reap take_turns
reap-none [] q c h n = turn-none q.took_arrival_last q.arrived_from_remotes q c refl h n
reap-none (e ∷ es) q c h n = cc

gc-none :
    (o : Option RunQueueItem) (s : Store) (q : KernelQueue)
    → q.control_requests ≡ []
    → (or_next (o, s) q (λ q. or_next (next_reap_action q.store) q take_turns)).0 ≡ none
    → IsIdle (or_next (o, s) q (λ q. or_next (next_reap_action q.store) q take_turns)).1
unfolding next_reap_action
gc-none none s q c n = reap-none s.reap_queue (record q { store = s }) c refl n
gc-none (some i) s q c n = cc

item-none :
    (cs : List ControlOperation) (q : KernelQueue)
    → q.control_requests ≡ cs
    → (next_item cs q).0 ≡ none
    → IsIdle (next_item cs q).1
unfolding next_item
item-none [] q h n = let (o, s) = process_gc_action_set q.store in gc-none o s q h n
item-none (c ∷ cs) q h n = cc

-- If no item is taken for the run loop, then no host call, no arrival, no item of the run queue and no
-- reap is left.
pub get_next_run_queue_item-none :
    (q : KernelQueue) → (get_next_run_queue_item q).0 ≡ none → IsIdle (get_next_run_queue_item q).1
unfolding get_next_run_queue_item
get_next_run_queue_item-none q h = item-none q.control_requests q refl h
