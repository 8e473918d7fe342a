-- ===== src/Store/Audit/Delivery.antt =====
-- Translating what is delivered to an endpoint, under the audit.
use ocap_kernel.Prelude.{
  List, Bool-cases, if◌then◌else◌, pair_eq, inr, inl, Option-cases, ℕ, ◌+◌, ◌≡◌, refl, Bool, true,
  false, Option, none, some,
}
use ocap_kernel.Refs.{
  facet, stored, plain, Index, endpoint_eq, kref_eq, KRef, ko, kp, EndpointId, ERef, is_promise_ref,
  is_remote_id,
}
use ocap_kernel.Store.Translate.{
  opposite, import_eref, invert_rref, translate_ref_k_to_e, translate_cap_data_k_to_e,
  translate_message_k_to_e, map_option,
}
use ocap_kernel.Dict.{put, get}
use ocap_kernel.Store.Audit.Laws.{counters-IsAudited, IsAudited}
use ocap_kernel.Exec.{ok, err, bad_ref, missing_row, raise, pure, require, map_each, ◌>>◌}
use ocap_kernel.Store.State.{M, Store, CapData, Message}
use ocap_kernel.Store.RefCount.{kernel_ref_exists}
use ocap_kernel.Store.Reachable.{set_reachable_flag}
use ocap_kernel.Store.CList.{
  kref_to_eref, allocate_eref_for_kref, next_eref_index, add_clist_entry, imported_eref,
}
use ocap_kernel.Store.Audit.CList.{add_clist_entry-Mapped}
use ocap_kernel.Store.Audit.Keeps.{
  resume-Keeps, Keeps, bind-Keeps, map_each-Keeps, require-Keeps, set_reachable_flag-Keeps,
}

-- Making an entry for a kref that exists and has none keeps the audit passing.
add_missing-Keeps :
    {hand : List KRef} (s : Store) (e : EndpointId) (k : KRef) (n : ℕ)
    → IsAudited hand s
    → get (e, k) s.by_kref ≡ none
    → kernel_ref_exists k s ≡ true
    → IsAudited hand (add_clist_entry e k (imported_eref e k n) s).1
add_missing-Keeps s e k n a h x =
    (add_clist_entry-Mapped s e k (imported_eref e k n) a h refl (λ _. x)).1

unfoldable pub next_row : Bool → Store → EndpointId → Option ℕ
next_row true s e = get e s.next_promise_eref
next_row false s e = get e s.next_object_eref

unfoldable pub counted : Bool → EndpointId → ℕ → Store → Store
counted true e n s = record s { next_promise_eref = put e (n + 1) s.next_promise_eref }
counted false e n s = record s { next_object_eref = put e (n + 1) s.next_object_eref }

pub next_eref_index-row :
    (s : Store) (e : EndpointId) (b : Bool) (n : ℕ)
    → next_row b s e ≡ some n
    → next_eref_index e b s ≡ (ok n, counted b e n s)
unfolding next_eref_index next_row counted
next_eref_index-row s e true n h = rw (h) refl
next_eref_index-row s e false n h = rw (h) refl

next_eref_index-none :
    (s : Store) (e : EndpointId) (b : Bool)
    → next_row b s e ≡ none
    → next_eref_index e b s ≡ (err missing_row, s)
unfolding next_eref_index next_row
next_eref_index-none s e true h = rw (h) refl
next_eref_index-none s e false h = rw (h) refl

pub allocated-Keeps :
    {hand : List KRef} (s : Store) (e : EndpointId) (k : KRef) (b : Bool) (n : ℕ)
    → IsAudited hand s
    → get (e, k) s.by_kref ≡ none
    → kernel_ref_exists k s ≡ true
    → IsAudited hand (add_clist_entry e k (imported_eref e k n) (counted b e n s)).1
unfolding kernel_ref_exists counted
allocated-Keeps s e (ko m) true n a h x =
    add_missing-Keeps _ e (ko m) n (counters-IsAudited s s.next_object_eref _ a) h x
allocated-Keeps s e (ko m) false n a h x =
    add_missing-Keeps _ e (ko m) n (counters-IsAudited s _ s.next_promise_eref a) h x
allocated-Keeps s e (kp m) true n a h x =
    add_missing-Keeps _ e (kp m) n (counters-IsAudited s s.next_object_eref _ a) h x
allocated-Keeps s e (kp m) false n a h x =
    add_missing-Keeps _ e (kp m) n (counters-IsAudited s _ s.next_promise_eref a) h x

then_pure-Keeps :
    {hand : List KRef} (m : M (Unit {0})) (eref : ERef) (s : Store)
    → IsAudited hand (m s).1
    → IsAudited hand ((m >> pure eref) s).1
then_pure-Keeps m eref s a = resume-Keeps (λ _. pure eref) (λ _ t b. b) (m s).0 (m s).1 a

allocate_eref_for_kref-Keeps :
    {hand : List KRef} (s : Store) (e : EndpointId) (k : KRef)
    → IsAudited hand s
    → get (e, k) s.by_kref ≡ none
    → kernel_ref_exists k s ≡ true
    → IsAudited hand (allocate_eref_for_kref e k s).1
unfolding allocate_eref_for_kref
allocate_eref_for_kref-Keeps s e k a h x = elim (Option-cases (next_row (is_promise_ref k) s e)) [
  | inl q ↦ rw (next_eref_index-none s e (is_promise_ref k) q) a
  | inr (n, q) ↦ rw (next_eref_index-row s e (is_promise_ref k) n q) (
      then_pure-Keeps (add_clist_entry e k (imported_eref e k n)) (imported_eref e k n) _
        (allocated-Keeps s e k (is_promise_ref k) n a h x))
]

import_missing-Keeps :
    {hand : List KRef} (e : EndpointId) (k : KRef) (b : Bool) (s : Store)
    → IsAudited hand s
    → get (e, k) s.by_kref ≡ none
    → IsAudited hand (import_eref e k b none s).1
unfolding import_eref
import_missing-Keeps e k false s a h = a
import_missing-Keeps e k true s a h = elim (Bool-cases (kernel_ref_exists k s)) [
  | inl x ↦ rw (x) (allocate_eref_for_kref-Keeps s e k a h x)
  | inr x ↦ rw (x) a
]

import_eref-Keeps :
    {hand : List KRef} (e : EndpointId) (k : KRef) (b : Bool) (s : Store)
    → IsAudited hand s
    → IsAudited hand (import_eref e k b (kref_to_eref e k s) s).1
unfolding import_eref kref_to_eref
import_eref-Keeps e k b s a = elim (Option-cases (get (e, k) s.by_kref)) [
  | inr (x, h) ↦ rw (h) a
  | inl h ↦ rw (h) (import_missing-Keeps e k b s a h)
]

inverted : ERef → Index → M ERef
inverted eref i = elim i [
  | plain n ↦ pure (record eref { direction = opposite eref.direction })
  | stored d a b ↦ raise bad_ref
  | facet d a b c ↦ raise bad_ref
]

inverted-Keeps : {hand : List KRef} (eref : ERef) (i : Index) → Keeps hand (inverted eref i)
unfolding inverted
inverted-Keeps eref (plain n) s a = a
inverted-Keeps eref (stored d x y) s a = a
inverted-Keeps eref (facet d x y z) s a = a

invert_rref-Keeps : {hand : List KRef} (eref : ERef) → Keeps hand (invert_rref eref)
unfolding invert_rref inverted
invert_rref-Keeps eref =
    bind-Keeps (require eref.in_remote bad_ref) (λ _. inverted eref eref.index)
      (require-Keeps eref.in_remote bad_ref) (λ _. inverted-Keeps eref eref.index)

outgoing : Bool → ERef → M ERef
outgoing b eref = if b then invert_rref eref else pure eref

outgoing-Keeps : {hand : List KRef} (b : Bool) (eref : ERef) → Keeps hand (outgoing b eref)
unfolding outgoing
outgoing-Keeps true eref s a = invert_rref-Keeps eref s a
outgoing-Keeps false eref s a = a

-- On an audited store, naming a kref to an endpoint keeps every count equal to the references held, whatever the kref and
-- also where the translation throws: a new entry takes the counts that it is owed, and an old one
-- that becomes reachable the reachable half.
pub translate_ref_k_to_e-Keeps :
    {hand : List KRef} (e : EndpointId) (k : KRef) (b : Bool)
    → Keeps hand (translate_ref_k_to_e e k b)
unfolding translate_ref_k_to_e import_eref outgoing
translate_ref_k_to_e-Keeps e k b s a =
    resume-Keeps (λ eref. set_reachable_flag e k >> outgoing (is_remote_id e) eref)
      (λ eref.
        bind-Keeps (set_reachable_flag e k) (λ _. outgoing (is_remote_id e) eref)
          (set_reachable_flag-Keeps e k) (λ _. outgoing-Keeps (is_remote_id e) eref))
      (import_eref e k b (kref_to_eref e k s) s).0 (import_eref e k b (kref_to_eref e k s) s).1
      (import_eref-Keeps e k b s a)

pub translate_cap_data_k_to_e-Keeps :
    {hand : List KRef} (e : EndpointId) (c : CapData) → Keeps hand (translate_cap_data_k_to_e e c)
unfolding translate_cap_data_k_to_e
translate_cap_data_k_to_e-Keeps e c =
    bind-Keeps (map_each c.slots (λ k. translate_ref_k_to_e e k true))
      (λ slots. pure (record { body = c.body; slots = slots }))
      (map_each-Keeps _ c.slots (λ k. translate_ref_k_to_e-Keeps e k true)) (λ slots s a. a)

translate_result-Keeps :
    {hand : List KRef} (e : EndpointId) (o : Option KRef)
    → Keeps hand (map_option (λ k. translate_ref_k_to_e e k true) o)
translate_result-Keeps e none s a = a
translate_result-Keeps e (some k) s a =
    bind-Keeps (translate_ref_k_to_e e k true) (λ eref. pure (some eref))
      (translate_ref_k_to_e-Keeps e k true) (λ eref t b. b) s a

-- On an audited store, translating a message for its delivery keeps every count equal to the references held, whatever
-- krefs it names, and also where the translation throws halfway.
pub translate_message_k_to_e-IsAudited :
    {hand : List KRef} (e : EndpointId) (m : Message) (s : Store)
    → IsAudited hand s
    → IsAudited hand (translate_message_k_to_e e m s).1
unfolding translate_message_k_to_e
translate_message_k_to_e-IsAudited e m =
    bind-Keeps (translate_cap_data_k_to_e e m.methargs) _
      (translate_cap_data_k_to_e-Keeps e m.methargs)
      λ methargs.
        bind-Keeps (map_option (λ k. translate_ref_k_to_e e k true) m.result)
          (λ result. pure (record { methargs = methargs; result = result }))
          (translate_result-Keeps e m.result) (λ result s a. a)
