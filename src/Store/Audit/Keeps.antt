-- ===== src/Store/Audit/Keeps.antt =====
-- Methods that keep the audit passing however they end: rules for each way to build a method, and
-- the methods whose callers need not know what the c-list holds.
use ocap_kernel.Prelude.{
  pair_eq, Option-cases, ◌≡◌, refl, Bool, true, false, none, List, [], ◌∷◌, inl, inr,
}
use ocap_kernel.Refs.{endpoint_eq, kref_eq, KRef, EndpointId}
use ocap_kernel.Dict.{get}
use ocap_kernel.Exec.{
  Result, ok, err, resume, ◌>>=◌, for_each, map_each, when, require, pure, missing_row, Error,
}
use ocap_kernel.Store.State.{M, Store}
use ocap_kernel.Store.Reachable.{
  get_reachable_flag, get_reachable_and_vat_slot, set_reachable_flag, clear_reachable_flag,
}
use ocap_kernel.Store.CList.{kref_to_eref, forget_kref}
use ocap_kernel.Store.Audit.Laws.{IsAudited}
use ocap_kernel.Store.Audit.Flags.{set_reachable_flag-Flags, clear_reachable_flag-Flags}
use ocap_kernel.Store.Audit.CList.{delete_clist_entry-Unmapped}

-- An audited store is audited after the method, whether it returns or throws.
abbrev pub Keeps : {A : Type 0} → List KRef → M A → Type 0
Keeps hand m = (s : Store) → IsAudited hand s → IsAudited hand (m s).1

-- A method that only reads.
abbrev pub Reads : {A : Type 0} → M A → Type 0
Reads m = (s : Store) → (m s).1 ≡ s

module _ {A : Type 0} where
  pub Reads-Keeps : {hand : List KRef} (m : M A) → Reads m → Keeps hand m
  Reads-Keeps m r s a = rw (r s) a

module _ {A B : Type 0} where
  pub resume-Keeps :
      {hand : List KRef} (f : A → M B)
      → ((x : A) → Keeps hand (f x))
      → (r : Result A) (s : Store) → IsAudited hand s
      → IsAudited hand (resume r f s).1
  resume-Keeps f kf (err e) s a = a
  resume-Keeps f kf (ok x) s a = kf x s a

  pub bind-Keeps :
      {hand : List KRef} (m : M A) (f : A → M B)
      → Keeps hand m
      → ((x : A) → Keeps hand (f x))
      → Keeps hand (m >>= f)
  bind-Keeps m f km kf s a = resume-Keeps f kf (m s).0 (m s).1 (km s a)

module _ {A : Type 0} where
  pub for_each-Keeps :
      {hand : List KRef} (f : A → M (Unit {0})) (xs : List A)
      → ((x : A) → Keeps hand (f x))
      → Keeps hand (for_each xs f)
  unfolding for_each
  for_each-Keeps f [] kf s a = a
  for_each-Keeps f (x ∷ xs) kf s a =
      bind-Keeps (f x) (λ _. for_each xs f) (kf x) (λ _. for_each-Keeps f xs kf) s a

module _ {A B : Type 0} where
  pub map_each-Keeps :
      {hand : List KRef} (f : A → M B) (xs : List A)
      → ((x : A) → Keeps hand (f x))
      → Keeps hand (map_each xs f)
  unfolding map_each
  map_each-Keeps f [] kf s a = a
  map_each-Keeps f (x ∷ xs) kf s a =
      bind-Keeps (f x) (λ y. map_each xs f >>= λ ys. pure (y ∷ ys)) (kf x)
        (λ y.
          bind-Keeps (map_each xs f) (λ ys. pure (y ∷ ys)) (map_each-Keeps f xs kf) (λ ys s a. a))
        s a

pub require-Keeps : {hand : List KRef} (b : Bool) (e : Error) → Keeps hand (require b e)
require-Keeps true e s a = a
require-Keeps false e s a = a

pub when-Keeps :
    {hand : List KRef} (b : Bool) (m : M (Unit {0})) → Keeps hand m → Keeps hand (when b m)
when-Keeps true m km s a = km s a
when-Keeps false m km s a = a

pub get_reachable_flag-Reads : (e : EndpointId) (k : KRef) → Reads (get_reachable_flag e k)
unfolding get_reachable_flag get_reachable_and_vat_slot
get_reachable_flag-Reads e k s = elim (Option-cases (get (e, k) s.by_kref)) [
  | inl h ↦ rw (h) refl
  | inr (x, h) ↦ rw (h) refl
]

pub get_reachable_flag-Keeps :
    {hand : List KRef} (e : EndpointId) (k : KRef) → Keeps hand (get_reachable_flag e k)
get_reachable_flag-Keeps e k = Reads-Keeps (get_reachable_flag e k) (get_reachable_flag-Reads e k)

set_flag_missing :
    (s : Store) (e : EndpointId) (k : KRef)
    → get (e, k) s.by_kref ≡ none
    → set_reachable_flag e k s ≡ (err missing_row, s)
unfolding set_reachable_flag get_reachable_and_vat_slot
set_flag_missing s e k h = rw (h, set_reachable_flag) refl

clear_flag_missing :
    (s : Store) (e : EndpointId) (k : KRef)
    → get (e, k) s.by_kref ≡ none
    → clear_reachable_flag e k s ≡ (err missing_row, s)
unfolding clear_reachable_flag get_reachable_and_vat_slot
clear_flag_missing s e k h = rw (h, clear_reachable_flag) refl

pub set_reachable_flag-Keeps :
    {hand : List KRef} (e : EndpointId) (k : KRef) → Keeps hand (set_reachable_flag e k)
set_reachable_flag-Keeps e k s a = elim (Option-cases (get (e, k) s.by_kref)) [
  | inl h ↦ rw (set_flag_missing s e k h) a
  | inr (x, h) ↦ (set_reachable_flag-Flags s e k x a h).1
]

pub clear_reachable_flag-Keeps :
    {hand : List KRef} (e : EndpointId) (k : KRef) → Keeps hand (clear_reachable_flag e k)
clear_reachable_flag-Keeps e k s a = elim (Option-cases (get (e, k) s.by_kref)) [
  | inl h ↦ rw (clear_flag_missing s e k h) a
  | inr (x, h) ↦ (clear_reachable_flag-Flags s e k x a h).1
]

pub forget_kref-Keeps :
    {hand : List KRef} (e : EndpointId) (k : KRef) → Keeps hand (forget_kref e k)
unfolding forget_kref kref_to_eref
forget_kref-Keeps e k s a = elim (Option-cases (get (e, k) s.by_kref)) [
  | inl h ↦ rw (h, forget_kref) a
  | inr (x, h) ↦ rw (h, forget_kref) (delete_clist_entry-Unmapped s e k x a h).1
]
