-- ===== src/Store/Scheduling.antt =====
-- What `processGCActionSet` does with the actions that have work to do, and with those that have none.
use ocap_kernel.Prelude.{
  ◌∙◌, ap, sym, Eq, ◌==◌, ◌≡◌, ◌⊎◌, inl, inr, ℕ, refl, Bool, true, false, Bool-cases, not, ◌&&◌,
  ◌||◌, Option, some, List, [], ◌∷◌, arith,
}
use ocap_kernel.Refs.{KRef, EndpointId, kref_eq, endpoint_eq, kref_beq_iff, endpoint_beq_iff}
use ocap_kernel.Text.Order.{sort, insert}
use ocap_kernel.Text.Decimal.{kref_text, endpoint_text}
use ocap_kernel.Store.State.{includes, Store, GcAction, GcActionType, RunQueueItem, gc_work}
use ocap_kernel.Store.Gc.{action_eq, action_text, action_beq_iff, set_gc_actions}
use ocap_kernel.Store.GcSchedule.{
  filter, group, krefs_of, krefs_to_process, without_group, in_group, should_process_action,
  try_groups, process_gc_action_set, schedule, endpoints_of,
}

module _ {A : Type 0} ⦃e : Eq A⦄ (text : A → List ℕ) where
  includes-insert :
      (a x : A) (xs : List A) → includes a (insert text x xs) ≡ ((x == a) || includes a xs)
  unfolding includes insert
  includes-insert a x [] = refl
  includes-insert a x (y ∷ ys) = ground (arith, includes-insert a x ys)

  pub includes-sort : (a : A) (xs : List A) → includes a (sort text xs) ≡ includes a xs
  unfolding includes sort
  includes-sort a [] = refl
  includes-sort a (x ∷ xs) = ground (arith, includes-insert a x (sort text xs), includes-sort a xs)

includes-filter :
    (p : GcAction → Bool) (a : GcAction) (xs : List GcAction)
    → includes a (filter p xs) ≡ (includes a xs && p a)
unfolding includes filter
includes-filter p a [] = refl
includes-filter p a (x ∷ xs) = ground (arith, includes-filter p a xs, action_beq_iff x a)

includes-krefs_of :
    (a : GcAction) (xs : List GcAction)
    → includes a xs ≡ true
    → includes a.kref (krefs_of xs) ≡ true
unfolding includes krefs_of
includes-krefs_of a [] h = h
includes-krefs_of a (x ∷ xs) h =
    ground (arith, includes-krefs_of a xs, action_beq_iff x a, kref_beq_iff x.kref a.kref)

krefs_of-includes :
    (k : KRef) (xs : List GcAction)
    → includes k (krefs_of xs) ≡ true
    → (a : GcAction) × (includes a xs ≡ true) × (a.kref ≡ k)
unfolding includes krefs_of
krefs_of-includes k [] h = ground (arith, h)
krefs_of-includes k (x ∷ xs) h = elim (Bool-cases (x.kref == k)) [
  | inl q ↦ (x, ground (arith, action_beq_iff x x), ground (arith, kref_beq_iff x.kref k))
  | inr q ↦ let (a, i, r) = krefs_of-includes k xs (ground (arith, h)) in (a, ground (arith, i), r)
]

includes-nil : (k : KRef) → includes k [] ≡ false
unfolding includes
includes-nil k = refl

pub in_group_iff :
    (e : EndpointId) (t : GcActionType) (a : GcAction)
    → in_group e t a ≡ true
    → (a.endpoint_id ≡ e) × (a.type ≡ t)
in_group_iff e t a h = (ground (arith, h, endpoint_beq_iff a.endpoint_id e), ground (arith, h))

-- An action of a group that has work to do is among those to process.
includes-krefs_to_process :
    (s : Store) (e : EndpointId) (t : GcActionType) (all : List GcAction) (a : GcAction)
    → includes a all ≡ true
    → in_group e t a ≡ true
    → should_process_action s a ≡ true
    → includes a.kref (krefs_to_process s e t all) ≡ true
unfolding krefs_to_process group
includes-krefs_to_process s e t all a h g p = ground (
  arith,
  includes-sort kref_text a.kref
      (krefs_of (filter (should_process_action s) (filter (in_group e t) all))),
  includes-krefs_of a (filter (should_process_action s) (filter (in_group e t) all)),
  includes-filter (should_process_action s) a (filter (in_group e t) all),
  includes-filter (in_group e t) a all,
)

-- A kref to process is the kref of an action of the group that has work to do.
krefs_to_process-includes :
    (s : Store) (e : EndpointId) (t : GcActionType) (all : List GcAction) (k : KRef)
    → includes k (krefs_to_process s e t all) ≡ true
    → (a : GcAction) × (a.kref ≡ k)
      × (includes a all ≡ true)
      × (in_group e t a ≡ true)
      × (should_process_action s a ≡ true)
unfolding krefs_to_process group
krefs_to_process-includes s e t all k h =
    let ours = filter (in_group e t) all in
    let (a, i, q) = krefs_of-includes k (filter (should_process_action s) ours) (
      ground
        (arith, h, includes-sort kref_text k (krefs_of (filter (should_process_action s) ours)))) in
    let outer = includes-filter (should_process_action s) a ours in
    let inner = includes-filter (in_group e t) a all in
    (a, q, ground (arith, i), ground (arith, i), ground (arith, i))

-- The action is still in the set, or the item is for its endpoint and type and names its kref.
abbrev pub Kept : GcAction → Option RunQueueItem × List GcAction → Type 0
Kept a (item, left) =
    (includes a left ≡ true)
    ⊎ ((ks : List KRef) × (item ≡ some (gc_work a.type a.endpoint_id ks))
        × (includes a.kref ks ≡ true))

-- Every kref of the item is that of an action of the set that has work to do.
abbrev pub Due : Store → List GcAction → Option RunQueueItem → Type 0
Due s all item =
    (t : GcActionType) (e : EndpointId) (ks : List KRef) (k : KRef)
    → item ≡ some (gc_work t e ks)
    → includes k ks ≡ true
    → (a : GcAction) × (a.endpoint_id ≡ e)
      × (a.type ≡ t)
      × (a.kref ≡ k)
      × (includes a all ≡ true)
      × (should_process_action s a ≡ true)

module _ (s : Store) (e : EndpointId) (t : GcActionType) (rest : List (EndpointId × GcActionType))
    (all : List GcAction) where
  pub try_groups-idle :
      krefs_to_process s e t all ≡ []
      → try_groups s ((e, t) ∷ rest) all ≡ try_groups s rest (without_group e t all)
  unfolding try_groups
  try_groups-idle h = rw (h, try_groups) refl

  pub try_groups-busy :
      (k : KRef) (ks : List KRef)
      → krefs_to_process s e t all ≡ k ∷ ks
      → try_groups s ((e, t) ∷ rest) all ≡ (some (gc_work t e (k ∷ ks)), without_group e t all)
  unfolding try_groups
  try_groups-busy k ks h = rw (h, try_groups) refl

pub includes-without_group :
    (e : EndpointId) (t : GcActionType) (all : List GcAction) (a : GcAction)
    → includes a (without_group e t all) ≡ (includes a all && not (in_group e t a))
unfolding without_group
includes-without_group e t all a = includes-filter (λ x. not (in_group e t x)) a all

module _ (s : Store) (e : EndpointId) (t : GcActionType) (rest : List (EndpointId × GcActionType))
    (all : List GcAction) where
  Kept-step :
      (a : GcAction)
      → includes a all ≡ true
      → should_process_action s a ≡ true
      → (includes a (without_group e t all) ≡ true
          → Kept a (try_groups s rest (without_group e t all)))
      → (ks : List KRef) → krefs_to_process s e t all ≡ ks
      → (b : Bool) → in_group e t a ≡ b
      → Kept a (try_groups s ((e, t) ∷ rest) all)
  Kept-step a h p ih [] q true g =
      absurd (ground (arith, includes-krefs_to_process s e t all a h g p, q, includes-nil a.kref))
  Kept-step a h p ih [] q false g =
      rw (try_groups-idle s e t rest all q) (ih (ground (arith, includes-without_group e t all a)))
  Kept-step a h p ih (k ∷ ks) q true g =
      let (x, y) = in_group_iff e t a g in
      rw (try_groups-busy s e t rest all k ks q) (
        inr
          (k ∷ ks, rw (x) (rw (y) refl), rw (sym q) (includes-krefs_to_process s e t all a h g p)))
  Kept-step a h p ih (k ∷ ks) q false g =
      rw (try_groups-busy s e t rest all k ks q)
        (inl (ground (arith, includes-without_group e t all a)))

  Due-step :
      Due s (without_group e t all) (try_groups s rest (without_group e t all)).0
      → (js : List KRef) → krefs_to_process s e t all ≡ js
      → Due s all (try_groups s ((e, t) ∷ rest) all).0
  Due-step ih [] q t' e' ks k r i =
      let (a, x, y, z, m, p) =
        ih t' e' ks k (sym (ap (λ x. x.0) (try_groups-idle s e t rest all q)) ∙ r) i in
      (a, x, y, z, ground (arith, includes-without_group e t all a), p)
  Due-step ih (j ∷ js) q t' e' ks k r i =
      let eq = sym (ap (λ x. x.0) (try_groups-busy s e t rest all j js q)) ∙ r in
      let (a, x, m, g, p) = krefs_to_process-includes s e t all k (ground (arith, eq, q, i)) in
      let (y, z) = in_group_iff e t a g in
      (a, ground (arith, eq, y), ground (arith, eq, z), x, m, p)

try_groups-Kept :
    (s : Store) (groups : List (EndpointId × GcActionType)) (all : List GcAction) (a : GcAction)
    → includes a all ≡ true
    → should_process_action s a ≡ true
    → Kept a (try_groups s groups all)
unfolding try_groups
try_groups-Kept s [] all a h p = inl h
try_groups-Kept s ((e, t) ∷ rest) all a h p =
    Kept-step s e t rest all a h p (λ i. try_groups-Kept s rest (without_group e t all) a i p)
      (krefs_to_process s e t all) refl (in_group e t a) refl

try_groups-Due :
    (s : Store) (groups : List (EndpointId × GcActionType)) (all : List GcAction)
    → Due s all (try_groups s groups all).0
unfolding try_groups
try_groups-Due s [] all = λ t e ks k q i. absurd (ground (arith, q))
try_groups-Due s ((e, t) ∷ rest) all =
    Due-step s e t rest all (try_groups-Due s rest (without_group e t all))
      (krefs_to_process s e t all) refl

Kept-sort :
    (a : GcAction) (item : Option RunQueueItem) (left : List GcAction)
    → Kept a (item, left)
    → Kept a (item, sort action_text left)
Kept-sort a item left = elim [
  | inl h ↦ inl (rw (includes-sort action_text a left) h)
  | inr w ↦ inr w
]

-- No action with work to do is lost: one that is in the set is still in it after
-- `processGCActionSet`, or the item that it returns is for its endpoint and type and names its kref.
pub process_gc_action_set-Kept :
    (s : Store) (a : GcAction)
    → includes a s.gc_actions ≡ true
    → should_process_action s a ≡ true
    → Kept a ((process_gc_action_set s).0, (process_gc_action_set s).1.gc_actions)
unfolding process_gc_action_set set_gc_actions
process_gc_action_set-Kept s a h p =
    let groups = schedule (sort endpoint_text (endpoints_of s.gc_actions)) in
    Kept-sort a (try_groups s groups s.gc_actions).0 (try_groups s groups s.gc_actions).1
      (try_groups-Kept s groups s.gc_actions a h p)

-- No work is made up: each kref of the item that `processGCActionSet` returns is that of an action of
-- the set, of the item's endpoint and type, that has work to do.
pub process_gc_action_set-due :
    (s : Store) (t : GcActionType) (e : EndpointId) (ks : List KRef) (k : KRef)
    → (process_gc_action_set s).0 ≡ some (gc_work t e ks)
    → includes k ks ≡ true
    → (a : GcAction) × (a.endpoint_id ≡ e)
      × (a.type ≡ t)
      × (a.kref ≡ k)
      × (includes a s.gc_actions ≡ true)
      × (should_process_action s a ≡ true)
unfolding process_gc_action_set
process_gc_action_set-due s =
    try_groups-Due s (schedule (sort endpoint_text (endpoints_of s.gc_actions))) s.gc_actions
