-- ===== src/Store/Collect.antt =====
-- `collectGarbage` (packages/ocap-kernel/src/store/methods/gc.ts), with `clearEmptySubclusters`
-- (packages/ocap-kernel/src/store/methods/subclusters.ts).
use ocap_kernel.Refs.{kernel, is_vat_id, endpoint, kp, kref_eq, EndpointId, Owner, ko, KRef}
use ocap_kernel.Store.State.{
  retire_export, drop_export, Store, M, GcAction, set_add, Counts, Subcluster,
}
use ocap_kernel.Store.Promise.{
  settled, pending, get_kernel_promise, delete_kernel_promise, KernelPromise, decrement,
}
use ocap_kernel.Prelude.{
  get_elem?, ℕ, zero, suc, ◌+◌, Bool, true, false, Option, none, some, List, [], ◌∷◌, if◌then◌else◌,
  not, ◌&&◌, nat_beq, length,
}
use ocap_kernel.Dict.{total, delete}
use ocap_kernel.Exec.{out_of_fuel, pure, raise, modify, gets, when, for_each, ◌>>=◌, ◌>>◌}
use ocap_kernel.Store.Object.{get_object_ref_count, get_owner, delete_kernel_object}
use ocap_kernel.Store.RefCount.{get_ref_count}
use ocap_kernel.Store.Reachable.{get_reachable_flag, get_reachable_and_vat_slot}
use ocap_kernel.Store.CList.{has_clist_entry, delete_pair}
use ocap_kernel.Store.Vat.{is_vat_terminated}
use ocap_kernel.Store.Gc.{
  orphan_kernel_object, retire_kernel_objects, add_gc_actions, make_gc_action, action_eq,
}

-- `clearEmptySubclusters`
abbrev pub is_empty {ℓ} : {A : Type ℓ} → List A → Bool
is_empty [] = true
is_empty (x ∷ xs) = false

unfoldable pub non_empty : List Subcluster → List Subcluster
non_empty [] = []
non_empty (c ∷ cs) = let rest = non_empty cs in if is_empty c.vats then rest else c ∷ rest

unfoldable pub clear_empty_subclusters : Store → Store
unfolding non_empty
clear_empty_subclusters s = record s { subclusters = non_empty s.subclusters }

-- The slots of the value of a settled promise
abbrev pub promise_slots : KernelPromise → List KRef
promise_slots (pending d subs) = []
promise_slots (settled b v) = v.slots

-- `refCount === 0`; `NaN` is not.
abbrev pub is_zero_count : Option ℕ → Bool
is_zero_count none = false
is_zero_count (some n) = nat_beq n 0

-- A promise among the candidates
unfoldable pub collect_promise : KRef → M (Unit {0})
collect_promise k = do
  p ← get_kernel_promise k
  n ← gets (get_ref_count k)
  when (is_zero_count n) (do for_each (promise_slots p) decrement; modify (delete_kernel_promise k))

-- An orphaned object that nothing reaches: it is retired if something recognizes it, else deleted.
unfoldable pub retire_orphan : KRef → Counts → M (Unit {0})
retire_orphan k c =
    if nat_beq c.recognizable 0
    then modify (delete_kernel_object k)
    else retire_kernel_objects (k ∷ [])

-- The actions that tell a live owner of an object that nothing reaches
unfoldable pub notify_owner : KRef → Counts → EndpointId → List GcAction → M (List GcAction)
notify_owner k c e actions = do
  flag ← get_reachable_flag e k
  drop ← make_gc_action e drop_export k
  retire ← make_gc_action e retire_export k
  let dropping = if flag then set_add drop actions else actions
  pure (if nat_beq c.recognizable 0 then set_add retire dropping else dropping)

-- The export entry of a terminated owner, cut short before its cleanup comes to it
unfoldable pub abandon_export : KRef → EndpointId → M (Unit {0})
abandon_export k e = do
  x ← get_reachable_and_vat_slot e k
  modify (λ s. record s { owner = delete k s.owner })
  modify (delete_pair e k x.vat_slot)

-- An object that nothing reaches, by its owner
unfoldable pub collect_unreachable :
    KRef → Counts → Option Owner → List GcAction → M (List GcAction)
unfolding retire_orphan notify_owner abandon_export
collect_unreachable k c none actions s = (retire_orphan k c >> pure actions) s
collect_unreachable k c (some kernel) actions s = pure actions s
collect_unreachable k c (some (endpoint e)) actions s =
    (if not (has_clist_entry e k s)
        then orphan_kernel_object k e >> (retire_orphan k c >> pure actions)
        else if not (is_vat_id e && is_vat_terminated e s)
        then notify_owner k c e actions
        else abandon_export k e >> (retire_orphan k c >> pure actions))
      s

-- An object among the candidates
unfoldable pub collect_object : KRef → List GcAction → M (List GcAction)
unfolding collect_unreachable
collect_object k actions = do
  c ← get_object_ref_count k
  if nat_beq c.reachable 0
      then (λ s. collect_unreachable k c (get_owner k s) actions s)
      else pure actions

unfoldable pub collect_one : KRef → List GcAction → M (List GcAction)
unfolding collect_promise collect_object
collect_one (ko n) actions = collect_object (ko n) actions
collect_one (kp n) actions = collect_promise (kp n) >> pure actions

-- The loop over `maybeFreeKrefs`, which grows at its end while the loop runs: `i` krefs are done.
unfoldable pub collect_all : ℕ → ℕ → List GcAction → M (List GcAction)
collect_all zero i actions s = raise out_of_fuel s
collect_all (suc fuel) i actions s =
    let next = λ (a : List GcAction). collect_all fuel (i + 1) a in
    elim (get_elem? s.maybe_free i) [
      | none ↦ pure actions s
      | some k ↦ (collect_one k actions >>= next) s
    ]

-- `collectGarbage`. Each round takes a candidate, and a candidate is added only for a slot of a value
-- that is deleted.
unfoldable pub collect_garbage : M (Unit {0})
unfolding collect_all
collect_garbage s =
    (do
      actions ← collect_all (suc (length s.maybe_free + total (λ _ v. length v.slots) s.value)) 0 []
      modify (add_gc_actions actions)
      modify (λ s. record s { maybe_free = [] })
      modify clear_empty_subclusters)
      s
