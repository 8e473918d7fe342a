-- ===== src/Kernel/Notifying.antt =====
-- The references through the delivery of a notification.
use ocap_kernel.Store.Audit.Hand.{recounted, decrement-Recounts}
use ocap_kernel.Kernel.Router.{
  vat_not_found, found, lookup_failed, caught, deliver_unless_lost, is_running, CrankResult, Lookup,
  VatOneResolution, lost_delivery, lost_vat, Surroundings,
}
use ocap_kernel.Store.CList.{kref_to_eref}
use ocap_kernel.Kernel.Resolution.{settled_promise}
use ocap_kernel.Store.Audit.Keeps.{map_each-Keeps, require-Keeps, bind-Keeps, Keeps}
use ocap_kernel.Exec.{
  map_each, pure, missing_row, not_promise, required, Error, require, err, ok, resume, ◌>>=◌,
  Result,
}
use ocap_kernel.Prelude.{
  false, Bool, zero, inr, none, [], inl, not, Option-cases, length, true, ◌&&◌, Bool-cases, some,
  suc, ℕ, ◌∷◌, Option, List,
}
use ocap_kernel.Refs.{ERef, is_vat_id, kref_eq, is_promise_ref, EndpointId, KRef}
use ocap_kernel.Kernel.FlushItems.{IsSettled}
use ocap_kernel.Kernel.Notify.{
  lookup, notify_known, notify_of, notify_targets, notify_settled, deliver_notify, resolution_of,
  translate_target,
}
use ocap_kernel.Store.Audit.Delivery.{translate_cap_data_k_to_e-Keeps, translate_ref_k_to_e-Keeps}
use ocap_kernel.Store.State.{
  rejected, fulfilled, unresolved, includes, set_add, CapData, PromiseState, Store, M,
}
use ocap_kernel.Store.Translate.{translate_cap_data_k_to_e, translate_ref_k_to_e}
use ocap_kernel.Dict.{get}
use ocap_kernel.Store.Promise.{
  settled, pending, KernelPromise, get_kpids_to_retire, scan_promise, scan_slots, scan_value,
  read_promise, get_kernel_promise,
}
use ocap_kernel.Kernel.State.{on_store, KernelQueue, K}
use ocap_kernel.Store.Audit.Laws.{IsAudited}

-- Audited before, audited after, whether the call returns or throws.
abbrev pub Preserves : {A : Type 0} → List KRef → K A → Type 0
Preserves hand m = (q : KernelQueue) → IsAudited hand q.store → IsAudited hand (m q).1.store

module _ {A B : Type 0} {hand : List KRef} where
  pub resume-Preserves :
      (f : A → K B)
      → ((a : A) → Preserves hand (f a))
      → (r : Result A) (q : KernelQueue) → IsAudited hand q.store
      → IsAudited hand (resume r f q).1.store
  resume-Preserves f h (ok a) q x = h a q x
  resume-Preserves f h (err e) q x = x

  pub bind-Preserves :
      (m : K A) (f : A → K B)
      → Preserves hand m
      → ((a : A) → Preserves hand (f a))
      → Preserves hand (m >>= f)
  bind-Preserves m f h g q x = resume-Preserves f g (m q).0 (m q).1 (h q x)

pub on_store-Preserves :
    {A : Type 0} {hand : List KRef} (m : M A) → Keeps hand m → Preserves hand (on_store m)
on_store-Preserves m h q x = h q.store x

module _ {A : Type 0} {hand : List KRef} where
  required-Keeps : (f : Store → Option A) (e : Error) → Keeps hand (λ s. required (f s) e s)
  required-Keeps f e s x = elim (Option-cases (f s)) [ inl h ↦ rw (h) x | inr (a, h) ↦ rw (h) x ]

module _ {hand : List KRef} where
  read_promise-Keeps : (k : KRef) (o : Option PromiseState) → Keeps hand (read_promise k o)
  unfolding read_promise
  read_promise-Keeps k none s x = x
  read_promise-Keeps k (some unresolved) s x =
      bind-Keeps (λ s. required (get k s.subscribers) missing_row s) _
        (required-Keeps (λ s. get k s.subscribers) missing_row) (λ subs s x. x) s x
  read_promise-Keeps k (some fulfilled) s x =
      bind-Keeps (λ s. required (get k s.value) missing_row s) _
        (required-Keeps (λ s. get k s.value) missing_row) (λ v s x. x) s x
  read_promise-Keeps k (some rejected) s x =
      bind-Keeps (λ s. required (get k s.value) missing_row s) _
        (required-Keeps (λ s. get k s.value) missing_row) (λ v s x. x) s x

  get_kernel_promise-Keeps : (k : KRef) → Keeps hand (get_kernel_promise k)
  unfolding get_kernel_promise
  get_kernel_promise-Keeps k =
      bind-Keeps (require (is_promise_ref k) not_promise) _
        (require-Keeps (is_promise_ref k) not_promise)
        (λ u s x. read_promise-Keeps k (get k s.promise_state) s x)

  scan_value-Keeps :
      (scan : KRef → List KRef → List KRef → M (List KRef)) (k : KRef) (seen : List KRef)
      → ((j : KRef) (js seen : List KRef) → Keeps hand (scan j js seen))
      → (p : KernelPromise) → Keeps hand (scan_value scan k seen p)
  unfolding scan_value
  scan_value-Keeps scan k seen h (pending d subs) s x = x
  scan_value-Keeps scan k seen h (settled b v) s x = h k v.slots seen s x

  scan_slots-Keeps :
      (scan : KRef → List KRef → List KRef → M (List KRef))
      → ((j : KRef) (js seen : List KRef) → Keeps hand (scan j js seen))
      → (ks seen : List KRef) → Keeps hand (scan_slots scan ks seen)
  unfolding scan_slots
  scan_slots-Keeps scan h [] seen s x = x
  scan_slots-Keeps scan h (k ∷ ks) seen s x =
      elim (Bool-cases (is_promise_ref k && not (includes k seen))) [
        | inl y ↦ rw (y) (
            bind-Keeps (get_kernel_promise k >>= scan_value scan k seen) (scan_slots scan ks)
              (bind-Keeps (get_kernel_promise k) (scan_value scan k seen)
                (get_kernel_promise-Keeps k) (scan_value-Keeps scan k seen h))
              (scan_slots-Keeps scan h ks) s x)
        | inr n ↦ rw (n) (scan_slots-Keeps scan h ks seen s x)
      ]

  scan_promise-Keeps :
      (fuel : ℕ) (k : KRef) (slots seen : List KRef) → Keeps hand (scan_promise fuel k slots seen)
  unfolding scan_promise
  scan_promise-Keeps zero k slots seen = λ s x. x
  scan_promise-Keeps (suc fuel) k slots seen =
      scan_slots-Keeps (scan_promise fuel) (scan_promise-Keeps fuel) slots (set_add k seen)

  get_kpids_to_retire-Keeps : (k : KRef) (v : CapData) → Keeps hand (get_kpids_to_retire k v)
  unfolding get_kpids_to_retire
  get_kpids_to_retire-Keeps k v s x =
      scan_promise-Keeps (suc (length s.promise_state)) k v.slots [] s x

  resolution_of-Keeps : (p : KernelPromise) → Keeps hand (resolution_of p)
  resolution_of-Keeps (pending d subs) s x = x
  resolution_of-Keeps (settled b v) s x = x

  translate_target-Keeps : (e : EndpointId) (k : KRef) → Keeps hand (translate_target e k)
  unfolding translate_target
  translate_target-Keeps e k =
      bind-Keeps (get_kernel_promise k >>= resolution_of) _
        (bind-Keeps (get_kernel_promise k) resolution_of (get_kernel_promise-Keeps k)
          resolution_of-Keeps)
        (λ v.
          bind-Keeps (translate_ref_k_to_e e k true) _ (translate_ref_k_to_e-Keeps e k true)
            (λ eref.
              bind-Keeps (translate_cap_data_k_to_e e v.1)
                (λ c. pure (record { eref = eref; rejected = v.0; value = c }))
                (translate_cap_data_k_to_e-Keeps e v.1) (λ c s x. x)))

module _ {hand : List KRef} (r : Surroundings) where
  lookup-Preserves : (l : Lookup) → Preserves hand (lookup r l)
  lookup-Preserves found q x = x
  lookup-Preserves vat_not_found q x = x
  lookup-Preserves (lookup_failed e) q x = x

  is_running-Preserves : (l : Lookup) → Preserves hand (is_running r l)
  is_running-Preserves found q x = x
  is_running-Preserves vat_not_found q x = x
  is_running-Preserves (lookup_failed e) q x = x

  lost_vat-Preserves : (e : EndpointId) (y : Error) (b : Bool) → Preserves hand (lost_vat r e y b)
  unfolding lost_vat
  lost_vat-Preserves e y true q x = x
  lost_vat-Preserves e y false q x = x

  lost_delivery-Preserves : (e : EndpointId) (y : Error) → Preserves hand (lost_delivery r e y)
  unfolding lost_delivery
  lost_delivery-Preserves e y q x = elim (Bool-cases (not (is_vat_id e))) [
    | inl h ↦ rw (h) x
    | inr h ↦ rw (h) (
        bind-Preserves (is_running r (r.get_endpoint e q)) (lost_vat r e y)
          (is_running-Preserves (r.get_endpoint e q)) (lost_vat-Preserves e y) q x)
  ]

  caught-Preserves :
      (e : EndpointId) (o : Result (Option CrankResult))
      → Preserves hand (caught (lost_delivery r e) o)
  caught-Preserves e (ok a) q x = x
  caught-Preserves e (err y) q x = lost_delivery-Preserves e y q x

  module _
      (h : (e : EndpointId) (rs : List VatOneResolution)
        → Preserves hand (r.notify_endpoint e rs)) where
    deliver_unless_lost-Preserves :
        (e : EndpointId) (rs : List VatOneResolution)
        → Preserves hand (deliver_unless_lost r e (r.notify_endpoint e rs))
    unfolding deliver_unless_lost
    deliver_unless_lost-Preserves e rs q x =
        caught-Preserves e (r.notify_endpoint e rs q).0 (r.notify_endpoint e rs q).1 (h e rs q x)

    notify_of-Preserves :
        (e : EndpointId) (ks : List KRef) (b : Bool) → Preserves hand (notify_of r e ks b)
    unfolding notify_of
    notify_of-Preserves e ks false = λ q x. x
    notify_of-Preserves e ks true =
        bind-Preserves (on_store (map_each ks (translate_target e)))
          (λ rs. deliver_unless_lost r e (r.notify_endpoint e rs))
          (on_store-Preserves (map_each ks (translate_target e))
            (map_each-Keeps (translate_target e) ks (translate_target-Keeps e)))
          (deliver_unless_lost-Preserves e)

    notify_targets-Preserves :
        (e : EndpointId) (ks : List KRef) → Preserves hand (notify_targets r e ks)
    unfolding notify_targets
    notify_targets-Preserves e [] q x = x
    notify_targets-Preserves e (k ∷ ks) q x =
        bind-Preserves (lookup r (r.get_endpoint e q)) (notify_of r e (k ∷ ks))
          (lookup-Preserves (r.get_endpoint e q)) (notify_of-Preserves e (k ∷ ks)) q x

    notify_known-Preserves :
        (e : EndpointId) (k : KRef) (v : CapData) (o : Option ERef)
        → Preserves hand (notify_known r e k v o)
    unfolding notify_known
    notify_known-Preserves e k v none = λ q x. x
    notify_known-Preserves e k v (some eref) =
        bind-Preserves (on_store (get_kpids_to_retire k v)) (notify_targets r e)
          (on_store-Preserves (get_kpids_to_retire k v) (get_kpids_to_retire-Keeps k v))
          (notify_targets-Preserves e)

-- The delivery of a notification whose reference is in hand, of a settled promise that has its value,
-- gives the reference back, also when it throws, if what the endpoint does keeps every audited store
-- audited.
pub deliver_notify-IsAudited :
    {hand : List KRef} (r : Surroundings) (e : EndpointId) (k : KRef) (q : KernelQueue)
    → ((i : EndpointId) (rs : List VatOneResolution) (t : KernelQueue)
        → IsAudited hand t.store
        → IsAudited hand (r.notify_endpoint i rs t).1.store)
    → IsAudited (k ∷ hand) q.store
    → IsSettled k q.store
    → IsAudited hand (deliver_notify r e k q).1.store
unfolding deliver_notify notify_settled
deliver_notify-IsAudited r e k q h a (p, (b, (v, (s, g)))) =
    let d = decrement-Recounts q.store k a in
    rw (p, settled_promise k b v q.store p s g, d.outcome)
      (notify_known-Preserves r h e k v
        (kref_to_eref e k (recounted d.objects d.promises d.candidates q.store)) _ d.audited)
