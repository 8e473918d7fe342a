-- ===== src/Store/Audit/Messages.antt =====
-- The references of a message, taken and given back together.
use ocap_kernel.Store.Promise.{charge_message, decrement, with_result, release_queued_message_refs}
use ocap_kernel.Store.Audit.Weights.{credit_result, occurrences, credit_message}
use ocap_kernel.Prelude.{◌+◌, ◌≡◌, refl, ◌∙◌, true, Option, none, some, List, [], ◌∷◌, ◌++◌, arith}
use ocap_kernel.Refs.{KRef, kref_eq}
use ocap_kernel.Exec.{Result, done, for_each, ◌>>◌}
use ocap_kernel.Store.State.{M, Store, Message}
use ocap_kernel.Store.RefCount.{kernel_ref_exists, increment_ref_count, plain_ref}
use ocap_kernel.Store.Audit.Laws.{IsAudited}
use ocap_kernel.Store.Audit.Shares.{occurrences-append, same_hand-IsAudited}
use ocap_kernel.Store.Audit.Hand.{
  Recounts, recounted, increment_ref_count-Recounts, decrement-Recounts,
}

-- Two methods that only count, one after the other.
module _ {hand next : List KRef} (s : Store) (m f : M (Unit {0})) where
  pub then-Recounts :
      Recounts hand s (m s)
      → ((t : Store)
          → IsAudited hand t
          → ((j : KRef) → kernel_ref_exists j t ≡ kernel_ref_exists j s)
          → Recounts next t (f t))
      → Recounts next s ((m >> f) s)
  then-Recounts r g =
      let t = recounted r.objects r.promises r.candidates s in
      let q = g t r.audited r.exists in
      record {
        objects = q.objects;
        promises = q.promises;
        candidates = q.candidates;
        outcome = rw (r.outcome) q.outcome;
        audited = q.audited;
        exists = λ j. q.exists j ∙ r.exists j;
      }

pub done-Recounts : {hand : List KRef} (s : Store) → IsAudited hand s → Recounts hand s (done s)
done-Recounts s a = record {
  objects = s.object_counts;
  promises = s.promise_counts;
  candidates = s.maybe_free;
  outcome = refl;
  audited = a;
  exists = λ j. refl;
}

-- Giving back every reference of a list.
pub decrements-Recounts :
    {hand : List KRef} (ks : List KRef) (s : Store)
    → IsAudited (ks ++ hand) s
    → Recounts hand s (for_each ks decrement s)
unfolding for_each
decrements-Recounts [] s a = done-Recounts s a
decrements-Recounts (k ∷ ks) s a =
    then-Recounts s (decrement k) (for_each ks decrement) (decrement-Recounts s k a)
      (λ t b e. decrements-Recounts ks t b)

-- All of them exist.
abbrev pub Exist : List KRef → Store → Type 0
Exist [] s = Unit
Exist (k ∷ ks) s = (kernel_ref_exists k s ≡ true) × Exist ks s

pub Exist-transfer :
    (ks : List KRef) (s t : Store)
    → ((j : KRef) → kernel_ref_exists j t ≡ kernel_ref_exists j s)
    → Exist ks s
    → Exist ks t
Exist-transfer [] s t e h = tt
Exist-transfer (k ∷ ks) s t e h = (e k ∙ h.0, Exist-transfer ks s t e h.1)

pub Exist-append : (ks js : List KRef) (s : Store) → Exist ks s → Exist js s → Exist (ks ++ js) s
Exist-append [] js s h g = g
Exist-append (k ∷ ks) js s h g = (h.0, Exist-append ks js s h.1 g)

same_hand-Recounts :
    {hand next : List KRef} (s : Store) (p : Result (Unit {0}) × Store)
    → ((k : KRef) → occurrences k hand ≡ occurrences k next)
    → Recounts hand s p
    → Recounts next s p
same_hand-Recounts s p e r = record {
  objects = r.objects;
  promises = r.promises;
  candidates = r.candidates;
  outcome = r.outcome;
  audited = same_hand-IsAudited _ e r.audited;
  exists = r.exists;
}

-- Taking every reference of a list, all of whose krefs exist.
pub increments-Recounts :
    {hand : List KRef} (ks : List KRef) (s : Store)
    → IsAudited hand s
    → Exist ks s
    → Recounts (ks ++ hand) s (for_each ks (λ k. increment_ref_count k plain_ref) s)
unfolding for_each
increments-Recounts [] s a h = done-Recounts s a
increments-Recounts {hand = hand} (k ∷ ks) s a h =
    same_hand-Recounts s _
      (λ j. omega (arith, occurrences-append j ks (k ∷ hand), occurrences-append j ks hand))
      (then-Recounts s (increment_ref_count k plain_ref)
        (for_each ks (λ k. increment_ref_count k plain_ref))
        (increment_ref_count-Recounts s k a h.0)
        (λ t b e. increments-Recounts ks t b (Exist-transfer ks s t e h.1)))

-- The references of a message, apart from its target.
abbrev pub result_refs : Option KRef → List KRef
result_refs none = []
result_refs (some k) = k ∷ []

abbrev pub message_refs : Message → List KRef
message_refs m = result_refs m.result ++ m.methargs.slots

result_credit :
    (k : KRef) (o : Option KRef)
    → (hand : List KRef)
    → occurrences k (result_refs o ++ hand) ≡ occurrences k (result_refs o) + occurrences k hand
result_credit k o hand = occurrences-append k (result_refs o) hand

pub credit_message-refs :
    (k : KRef) (m : Message) → credit_message k m ≡ occurrences k (message_refs m)
unfolding credit_message
credit_message-refs k m = go m.result
  where
    go :
        (o : Option KRef)
        → credit_result k o + occurrences k m.methargs.slots
          ≡ occurrences k (result_refs o ++ m.methargs.slots)
    go none = omega arith
    go (some j) = omega arith

decrement_result-Recounts :
    {hand : List KRef} (o : Option KRef) (s : Store)
    → IsAudited (result_refs o ++ hand) s
    → Recounts hand s (with_result o decrement s)
decrement_result-Recounts none s a = done-Recounts s a
decrement_result-Recounts (some k) s a = decrement-Recounts s k a

-- Giving back the target, the result and the slots of a queued message.
pub release_queued_message_refs-Recounts :
    {hand : List KRef} (k : KRef) (m : Message) (s : Store)
    → IsAudited (k ∷ (message_refs m ++ hand)) s
    → Recounts hand s (release_queued_message_refs k m s)
unfolding release_queued_message_refs
release_queued_message_refs-Recounts {hand = hand} k m s a =
    then-Recounts s (decrement k)
      (with_result m.result decrement >> for_each m.methargs.slots decrement)
      (decrement-Recounts s k a)
      (λ t b e.
        then-Recounts t (with_result m.result decrement) (for_each m.methargs.slots decrement)
          (decrement_result-Recounts m.result t (
            same_hand-IsAudited t
              (λ j. omega (
                arith,
                occurrences-append j (message_refs m) hand,
                occurrences-append j (result_refs m.result) m.methargs.slots,
                occurrences-append j (result_refs m.result) (m.methargs.slots ++ hand),
                occurrences-append j m.methargs.slots hand,
              ))
              b))
          (λ u c e'. decrements-Recounts m.methargs.slots u c))

increment_result-Recounts :
    {hand : List KRef} (o : Option KRef) (s : Store)
    → IsAudited hand s
    → Exist (result_refs o) s
    → Recounts (result_refs o ++ hand) s (with_result o (λ j. increment_ref_count j plain_ref) s)
increment_result-Recounts none s a h = done-Recounts s a
increment_result-Recounts (some k) s a h = increment_ref_count-Recounts s k a h.0

pub Exist-split : (ks js : List KRef) (s : Store) → Exist (ks ++ js) s → Exist ks s × Exist js s
Exist-split [] js s h = (tt, h)
Exist-split (k ∷ ks) js s h = let (p, q) = Exist-split ks js s h.1 in ((h.0, p), q)

-- Taking the target, the result and the slots of a message that is to be queued.
pub charge_message-Recounts :
    {hand : List KRef} (k : KRef) (m : Message) (s : Store)
    → IsAudited hand s
    → Exist (k ∷ message_refs m) s
    → Recounts (k ∷ (message_refs m ++ hand)) s (charge_message k m s)
unfolding charge_message
charge_message-Recounts {hand = hand} k m s a h =
    let (p, q) = Exist-split (result_refs m.result) m.methargs.slots s h.1 in
    same_hand-Recounts s _
      (λ j. omega (
        arith,
        occurrences-append j m.methargs.slots (result_refs m.result ++ (k ∷ hand)),
        occurrences-append j (result_refs m.result) (k ∷ hand),
        occurrences-append j (message_refs m) hand,
        occurrences-append j (result_refs m.result) m.methargs.slots,
      ))
      (then-Recounts s (increment_ref_count k plain_ref) _ (increment_ref_count-Recounts s k a h.0)
        (λ t b e.
          then-Recounts t (with_result m.result (λ j. increment_ref_count j plain_ref)) _
            (increment_result-Recounts m.result t b (Exist-transfer (result_refs m.result) s t e p))
            (λ u c e'.
              increments-Recounts m.methargs.slots u c
                (Exist-transfer m.methargs.slots s u (λ j. e' j ∙ e j) q))))
