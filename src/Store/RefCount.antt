-- ===== src/Store/RefCount.antt =====
-- Reference counts of objects and promises (packages/ocap-kernel/src/store/methods/refcount.ts).
-- A `tag` only labels log lines and is left out; a kref is never the empty string.
use ocap_kernel.Prelude.{
  ℕ, zero, suc, ◌+◌, Bool, true, false, not, ◌||◌, Option, none, some, if◌then◌else◌,
}
use ocap_kernel.Refs.{KRef, ko, kp}
use ocap_kernel.Dict.{get, put, has}
use ocap_kernel.Refs.{kref_eq, endpoint_eq, eref_eq}
use ocap_kernel.Prelude.{pair_eq}
use ocap_kernel.Exec.{
  pure, raise, done, gets, modify, required, when, underflow, deleted_kref, ◌>>=◌, ◌>>◌, ok,
  require,
}
use ocap_kernel.Store.State.{Store, M, add_maybe_free}
use ocap_kernel.Store.Counts.{pos, minus_one, is_zero}
use ocap_kernel.Store.Object.{set_object_ref_count, get_object_ref_count}

-- `kernelRefExists`
unfoldable pub kernel_ref_exists : KRef → Store → Bool
kernel_ref_exists (ko n) s = has (ko n) s.object_counts
kernel_ref_exists (kp n) s = has (kp n) s.promise_counts

-- `getRefCount`, where there is a row: `none` stands for `NaN`.
unfoldable pub get_ref_count : KRef → Store → Option ℕ
get_ref_count k s = get k s.promise_counts

-- The optional arguments of the two methods.
pub record Options : Type 0 where
  pub is_export : Bool
  pub only_recognizable : Bool

abbrev pub plain_ref : Options
plain_ref = record { is_export = false; only_recognizable = false }

-- `incrementRefCount` on a promise
unfoldable pub increment_promise : KRef → M (Unit {0})
increment_promise k = do
  n ← λ s. required (get k s.promise_counts) deleted_kref s
  modify (λ s. record s { promise_counts = put k (n + 1) s.promise_counts })

-- `incrementRefCount` on an object
unfoldable pub increment_object : KRef → Options → M (Unit {0})
unfolding get_object_ref_count set_object_ref_count kernel_ref_exists
increment_object k o = if o.is_export then done else do
  require (← gets (kernel_ref_exists k)) deleted_kref
  c ← get_object_ref_count k
  set_object_ref_count k (pos (if o.only_recognizable then c.reachable else c.reachable + 1))
      (pos (c.recognizable + 1))

unfoldable pub increment_ref_count : KRef → Options → M (Unit {0})
unfolding increment_promise increment_object
increment_ref_count (ko n) o = increment_object (ko n) o
increment_ref_count (kp n) o = increment_promise (kp n)

-- `decrementRefCount` on a promise: a missing row is `NaN`, which is not above zero either.
unfoldable pub decrement_promise : KRef → Option ℕ → M Bool
unfolding add_maybe_free
decrement_promise k none s = raise underflow s
decrement_promise k (some zero) s = raise underflow s
decrement_promise k (some (suc zero)) s =
    (ok true, add_maybe_free k (record s { promise_counts = put k 0 s.promise_counts }))
decrement_promise k (some (suc (suc n))) s =
    (ok false, record s { promise_counts = put k (suc n) s.promise_counts })

-- `decrementRefCount` on an object
unfoldable pub decrement_object : KRef → Options → M Bool
unfolding get_object_ref_count set_object_ref_count kernel_ref_exists add_maybe_free
decrement_object k o s =
    if o.is_export || not (kernel_ref_exists k s)
    then pure false s
    else (do
      c ← get_object_ref_count k
      let r = if o.only_recognizable then pos c.reachable else minus_one c.reachable
      let n = minus_one c.recognizable
      when (is_zero r || is_zero n) (modify (add_maybe_free k))
      set_object_ref_count k r n
      pure false)
        s

unfoldable pub decrement_ref_count : KRef → Options → M Bool
unfolding decrement_promise decrement_object
decrement_ref_count (ko n) o s = decrement_object (ko n) o s
decrement_ref_count (kp n) o s = decrement_promise (kp n) (get (kp n) s.promise_counts) s
