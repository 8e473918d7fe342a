-- ===== src/Store/Pinned.antt =====
-- Pins (packages/ocap-kernel/src/store/methods/pinned.ts).
use ocap_kernel.Prelude.{ℕ, zero, suc, ◌+◌, Bool, Option, none, some, List, map, ltb, pair_eq}
use ocap_kernel.Refs.{KRef, kref_eq, endpoint_eq, eref_eq}
use ocap_kernel.Dict.{get, put, delete}
use ocap_kernel.Exec.{done, gets, modify, ◌>>=◌, ◌>>◌}
use ocap_kernel.Store.State.{Store, M}
use ocap_kernel.Store.RefCount.{increment_ref_count, decrement_ref_count, plain_ref}

abbrev pub or_zero : Option ℕ → ℕ
or_zero none = 0
or_zero (some n) = n

-- `getPinCount`
unfoldable pub get_pin_count : KRef → Store → ℕ
get_pin_count k s = or_zero (get k s.pinned)

-- `pinObject`
unfoldable pub pin_object : KRef → M (Unit {0})
unfolding get_pin_count increment_ref_count
pin_object k = do
  pins ← gets (get_pin_count k)
  increment_ref_count k plain_ref
  modify (λ s. record s { pinned = put k (pins + 1) s.pinned })

-- What `unpinObject` does with the row of an object that has this many pins.
unfoldable pub write_unpinned : KRef → ℕ → Store → Store
write_unpinned k zero s = s
write_unpinned k (suc zero) s = record s { pinned = delete k s.pinned }
write_unpinned k (suc (suc n)) s = record s { pinned = put k (suc n) s.pinned }

-- `unpinObject`
unfoldable pub unpin_object : KRef → M (Unit {0})
unfolding get_pin_count write_unpinned
unpin_object k = do
  pins ← gets (get_pin_count k)
  elim pins [
    | zero ↦ done
    | suc n ↦ decrement_ref_count k plain_ref >> modify (write_unpinned k (suc n))
  ]

-- `getPinnedObjects`
unfoldable pub get_pinned_objects : Store → List KRef
get_pinned_objects s = map (λ (r : KRef × ℕ). r.0) s.pinned

-- `isObjectPinned`
unfoldable pub is_object_pinned : KRef → Store → Bool
unfolding get_pin_count
is_object_pinned k s = ltb 0 (get_pin_count k s)
