-- ===== src/Store/Audit/Weights.antt =====
-- `computeExpectedRefCounts`, as the sum for one kref of the credits that each row gives it.
use ocap_kernel.Prelude.{
  ℕ, ◌+◌, ◌≡◌, Bool, true, false, not, ◌&&◌, ◌||◌, Option, none, some, List, [], ◌∷◌, ◌==◌,
  if◌then◌else◌,
}
use ocap_kernel.Refs.{KRef, ko, kp, EndpointId, is_import, is_promise_ref, kref_eq, endpoint_eq}
use ocap_kernel.Dict.{Dict, get, total}
use ocap_kernel.Store.State.{
  Store, Entry, CapData, Message, PromiseState, unresolved, fulfilled, rejected, GcAction,
  GcActionType, retire_import, RunQueueItem, send, notify, gc_work, bring_out_your_dead,
  restart_vat, terminate_vat,
}
use ocap_kernel.Store.Object.{counts_or_zero}
use ocap_kernel.Store.Pinned.{or_zero}

-- One credit if the two krefs are the same.
abbrev pub unit : KRef → KRef → ℕ
unit k j = if j == k then 1 else 0

abbrev pub occurrences : KRef → List KRef → ℕ
occurrences k [] = 0
occurrences k (j ∷ js) = unit k j + occurrences k js

-- `retiring.has(`${endpointId} retireImport ${kref}`)`
abbrev pub is_retire_import : GcActionType → Bool
is_retire_import retire_import = true
is_retire_import _ = false

unfoldable pub is_retiring : List GcAction → EndpointId → KRef → Bool
is_retiring [] e k = false
is_retiring (a ∷ rest) e k =
    (is_retire_import a.type && (a.endpoint_id == e && a.kref == k)) || is_retiring rest e k

-- The credits of a c-list entry to the reachable count (the only one of a promise).
unfoldable pub reaches : List GcAction → KRef → EndpointId × KRef → Entry → ℕ
reaches gcs k (e, j) x =
    if j == k
      && (is_promise_ref k
          || (is_import x.vat_slot && (not (is_retiring gcs e k) && x.is_reachable)))
    then 1
    else 0

-- Its credits to the recognizable count of an object.
unfoldable pub recognizes : List GcAction → KRef → EndpointId × KRef → Entry → ℕ
recognizes gcs k (e, j) x =
    if j == k && (is_import x.vat_slot && not (is_retiring gcs e k)) then 1 else 0

-- `creditMessage`
abbrev pub credit_result : KRef → Option KRef → ℕ
credit_result k none = 0
credit_result k (some j) = unit k j

unfoldable pub credit_message : KRef → Message → ℕ
credit_message k m = credit_result k m.result + occurrences k m.methargs.slots

unfoldable pub credit_item : KRef → RunQueueItem → ℕ
unfolding credit_message
credit_item k (send target m) = unit k target + credit_message k m
credit_item k (notify e kpid) = unit k kpid
credit_item k (gc_work t e ks) = 0
credit_item k (bring_out_your_dead e) = 0
credit_item k (restart_vat v) = 0
credit_item k (terminate_vat v reason) = 0

unfoldable pub credit_items : KRef → List RunQueueItem → ℕ
unfolding credit_item
credit_items k [] = 0
credit_items k (i ∷ rest) = credit_item k i + credit_items k rest

-- A promise's queue holds its target once for each message.
unfoldable pub credit_queue : KRef → KRef → List Message → ℕ
unfolding credit_message
credit_queue k kpid [] = 0
credit_queue k kpid (m ∷ ms) = unit k kpid + credit_message k m + credit_queue k kpid ms

-- `readResolutionSlots`
abbrev pub slots_of : Option CapData → List KRef
slots_of none = []
slots_of (some c) = c.slots

-- The unit of an unsettled promise, or the slots of a settled one's value.
unfoldable pub credit_promise : Dict KRef CapData → KRef → KRef → PromiseState → ℕ
credit_promise values k kpid unresolved = unit k kpid
credit_promise values k kpid fulfilled = occurrences k (slots_of (get kpid values))
credit_promise values k kpid rejected = occurrences k (slots_of (get kpid values))

abbrev pub credit_pin : KRef → KRef → ℕ → ℕ
credit_pin k j n = if j == k then n else 0

-- All holders but the c-lists.
unfoldable pub held : Store → KRef → ℕ
held s k =
    total (credit_pin k) s.pinned
    + total (credit_promise s.value k) s.promise_state
    + total (credit_queue k) s.promise_queue
    + credit_items k s.run_queue
    + credit_items k s.crank_buffer

unfoldable pub expected_reachable : Store → KRef → ℕ
unfolding held
expected_reachable s k = total (reaches s.gc_actions k) s.by_kref + held s k

unfoldable pub expected_recognizable : Store → KRef → ℕ
unfolding held
expected_recognizable s k = total (recognizes s.gc_actions k) s.by_kref + held s k

-- `auditRefCounts` would find no violation for this kref if the references that a method has in hand
-- were rows too: the stored counts are the expected ones, and nothing refers to a kref that has no
-- row. With nothing in hand, it finds none.
abbrev pub IsBalanced : List KRef → Store → KRef → Type 0
IsBalanced hand s (ko n) =
    ((counts_or_zero (get (ko n) s.object_counts)).reachable
      ≡ expected_reachable s (ko n) + occurrences (ko n) hand)
    × ((counts_or_zero (get (ko n) s.object_counts)).recognizable
        ≡ expected_recognizable s (ko n) + occurrences (ko n) hand)
IsBalanced hand s (kp n) =
    or_zero (get (kp n) s.promise_counts) ≡ expected_reachable s (kp n) + occurrences (kp n) hand
