-- ===== src/Store/Idle.antt =====
-- What `processGCActionSet` leaves when it finds no work.
use ocap_kernel.Prelude.{
  Eq, ◌==◌, ◌≡◌, refl, sym, ap, ◌∙◌, Bool, true, false, Bool-cases, inl, inr, ◌||◌, none, List, [],
  ◌∷◌, ◌++◌, arith,
}
use ocap_kernel.Refs.{KRef, EndpointId, kref_eq, endpoint_eq, endpoint_beq_iff}
use ocap_kernel.Text.Order.{sort}
use ocap_kernel.Text.Decimal.{endpoint_text}
use ocap_kernel.Store.State.{includes, set_add, Store, GcAction, GcActionType}
use ocap_kernel.Store.Gc.{action_eq, action_text, action_beq_iff, set_gc_actions}
use ocap_kernel.Store.GcSchedule.{
  krefs_to_process, without_group, in_group, try_groups, process_gc_action_set, schedule, pairs,
  endpoints_of, action_type_priorities,
}
use ocap_kernel.Store.Scheduling.{
  includes-sort, includes-without_group, try_groups-idle, try_groups-busy,
}

module _ {A : Type 0} ⦃e : Eq A⦄ where
  includes-append :
      (a : A) (xs ys : List A) → includes a (xs ++ ys) ≡ (includes a xs || includes a ys)
  unfolding includes
  includes-append a [] ys = refl
  includes-append a (x ∷ xs) ys = ground (arith, includes-append a xs ys)

  includes-set_add :
      (a b : A) (xs : List A) → includes a (set_add b xs) ≡ ((b == a) || includes a xs)
  unfolding set_add includes
  includes-set_add a b xs = ground (arith, includes-append a xs (b ∷ []), e.beq_iff b a)

includes-endpoints_of :
    (a : GcAction) (all : List GcAction)
    → includes a all ≡ true
    → includes a.endpoint_id (endpoints_of all) ≡ true
unfolding includes endpoints_of
includes-endpoints_of a [] h = h
includes-endpoints_of a (x ∷ xs) h = ground (
  arith,
  includes-set_add a.endpoint_id x.endpoint_id (endpoints_of xs),
  includes-endpoints_of a xs,
  action_beq_iff x a,
  endpoint_beq_iff x.endpoint_id a.endpoint_id,
)

-- Whether the group of an action is among those tried.
tried : GcAction → List (EndpointId × GcActionType) → Bool
tried a [] = false
tried a ((e, t) ∷ gs) = in_group e t a || tried a gs

tried-append :
    (a : GcAction) (gs hs : List (EndpointId × GcActionType))
    → tried a (gs ++ hs) ≡ (tried a gs || tried a hs)
unfolding tried
tried-append a [] hs = refl
tried-append a ((e, t) ∷ gs) hs = ground (arith, tried-append a gs hs)

tried-pairs :
    (a : GcAction) (e : EndpointId)
    → (a.endpoint_id == e) ≡ true
    → tried a (pairs e action_type_priorities) ≡ true
unfolding tried pairs
tried-pairs a e h = ground arith

tried-schedule :
    (a : GcAction) (es : List EndpointId)
    → includes a.endpoint_id es ≡ true
    → tried a (schedule es) ≡ true
unfolding includes schedule
tried-schedule a [] h = absurd (ground (arith, h))
tried-schedule a (e ∷ es) h = ground (
  arith,
  tried-append a (pairs e action_type_priorities) (schedule es),
  tried-pairs a e,
  tried-schedule a es,
  endpoint_beq_iff e a.endpoint_id,
  endpoint_beq_iff a.endpoint_id e,
)

module _ (s : Store) (a : GcAction) where
  -- Nothing joins the set.
  try_groups-subset :
      (gs : List (EndpointId × GcActionType)) (all : List GcAction)
      → includes a (try_groups s gs all).1 ≡ true
      → includes a all ≡ true
  unfolding try_groups
  try_groups-subset [] all h = h
  try_groups-subset ((e, t) ∷ gs) all h =
      go (krefs_to_process s e t all) refl (try_groups-subset gs (without_group e t all))
    where
      go :
          (ks : List KRef)
          → krefs_to_process s e t all ≡ ks
          → (includes a (try_groups s gs (without_group e t all)).1 ≡ true
              → includes a (without_group e t all) ≡ true)
          → includes a all ≡ true
      go [] q ih = ground (
        arith,
        ap (λ x. includes a x.1) (try_groups-idle s e t gs all q),
        h,
        ih,
        includes-without_group e t all a,
      )
      go (k ∷ ks) q ih = ground (
        arith,
        ap (λ x. includes a x.1) (try_groups-busy s e t gs all k ks q),
        h,
        includes-without_group e t all a,
      )

  emptied-step :
      (e : EndpointId) (t : GcActionType) (gs : List (EndpointId × GcActionType))
      (all : List GcAction)
      → (ks : List KRef) → krefs_to_process s e t all ≡ ks
      → ((try_groups s gs (without_group e t all)).0 ≡ none
          → tried a gs ≡ true
          → includes a (try_groups s gs (without_group e t all)).1 ≡ false)
      → (try_groups s ((e, t) ∷ gs) all).0 ≡ none
      → (in_group e t a || tried a gs) ≡ true
      → includes a (try_groups s ((e, t) ∷ gs) all).1 ≡ false
  emptied-step e t gs all [] q ih idle h = rw (try_groups-idle s e t gs all q) (
      ground (
        arith,
        ih (sym (ap (λ x. x.0) (try_groups-idle s e t gs all q)) ∙ idle),
        h,
        try_groups-subset gs (without_group e t all),
        includes-without_group e t all a,
      ))
  emptied-step e t gs all (k ∷ ks) q ih idle h =
      absurd (ground (arith, sym (ap (λ x. x.0) (try_groups-busy s e t gs all k ks q)) ∙ idle))

  -- Where no group has work, no action of a group that was tried is left.
  try_groups-emptied :
      (gs : List (EndpointId × GcActionType)) (all : List GcAction)
      → (try_groups s gs all).0 ≡ none
      → tried a gs ≡ true
      → includes a (try_groups s gs all).1 ≡ false
  unfolding tried
  try_groups-emptied [] all idle h = absurd (ground (arith, h))
  try_groups-emptied ((e, t) ∷ gs) all idle h =
      emptied-step e t gs all (krefs_to_process s e t all) refl
        (try_groups-emptied gs (without_group e t all)) idle h

none_included : (xs : List GcAction) → ((a : GcAction) → includes a xs ≡ false) → xs ≡ []
unfolding includes
none_included [] h = refl
none_included (x ∷ xs) h = absurd (ground (arith, h x, action_beq_iff x x))

-- If `processGCActionSet` finds no work, it leaves no action: those that had nothing to do are gone.
pub process_gc_action_set-none :
    (s : Store) → (process_gc_action_set s).0 ≡ none → (process_gc_action_set s).1.gc_actions ≡ []
unfolding process_gc_action_set set_gc_actions
process_gc_action_set-none s idle =
    let groups = schedule (sort endpoint_text (endpoints_of s.gc_actions)) in
    let left = (try_groups s groups s.gc_actions).1 in
    none_included (sort action_text left) (λ a. elim (Bool-cases (includes a s.gc_actions)) [
      | inl h ↦ ground (
        arith,
        includes-sort action_text a left,
        try_groups-emptied s a groups s.gc_actions idle (
            tried-schedule a (sort endpoint_text (endpoints_of s.gc_actions)) (
              ground (
                arith,
                includes-sort endpoint_text a.endpoint_id (endpoints_of s.gc_actions),
                includes-endpoints_of a s.gc_actions h,
              ))),
      )
      | inr h ↦
          ground
            (arith, includes-sort action_text a left, try_groups-subset s a groups s.gc_actions, h)
    ])
