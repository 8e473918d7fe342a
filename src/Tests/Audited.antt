-- ===== src/Tests/Audited.antt =====
-- The theorems on audited stores, at stores with a few rows.
use ocap_kernel.Store.Audit.Naming.{translate_ref_k_to_e-new, Named}
use ocap_kernel.Store.CList.{imported_eref, add_clist_entry, delete_clist_entry}
use ocap_kernel.Store.Translate.{translate_ref_k_to_e, translate_message_k_to_e}
use ocap_kernel.Store.Audit.Delivery.{next_row, translate_message_k_to_e-IsAudited}
use ocap_kernel.Store.Audit.Laws.{counters-IsAudited, IsAudited}
use ocap_kernel.Prelude.{none, Bool, ℕ, refl, true, false, [], ◌∷◌, arith}
use ocap_kernel.Store.Object.{root_object_vref}
use ocap_kernel.Refs.{
  endpoint, endpoint_beq_iff, kref_beq_iff, KRef, ko, kp, vat, ERef, import_, plain,
}
use ocap_kernel.Store.State.{Message, Store, Entry, empty_store}
use ocap_kernel.Store.Audit.CList.{
  add_clist_entry-Mapped, delete_clist_entry-Unmapped, Mapped, Unmapped,
}
use ocap_kernel.Store.Audit.Pins.{pin_object-Pins}
use ocap_kernel.Store.Pinned.{pin_object}
use ocap_kernel.Store.Reachable.{clear_reachable_flag, set_reachable_flag}
use ocap_kernel.Store.RefCount.{kernel_ref_exists}
use ocap_kernel.Dict.{get}
use ocap_kernel.Store.Audit.Weights.{
  IsBalanced, expected_reachable, expected_recognizable, reaches, recognizes, is_retiring, held,
  credit_items,
}
use ocap_kernel.Store.Audit.Flags.{Flags, set_reachable_flag-Flags, clear_reachable_flag-Flags}
use ocap_kernel.Store.Audit.Imports.{flagged}

abbrev import_ref : ERef
import_ref = record { in_remote = false; is_promise = false; direction = import_; index = plain 1 }

abbrev import_entry : Bool → Entry
import_entry f = record { is_reachable = f; vat_slot = import_ref }

abbrev count_of : Bool → ℕ
count_of false = 0
count_of true = 1

-- `v1` imports `ko1`, and reaches it if the flag is set.
abbrev one_import : Bool → Store
one_import f = record empty_store {
  by_kref = ((vat 1, ko 1), import_entry f) ∷ [];
  by_eref = ((vat 1, import_ref), ko 1) ∷ [];
  object_counts = (ko 1, record { reachable = count_of f; recognizable = 1 }) ∷ [];
}

one_import-IsBalanced : (f : Bool) (k : KRef) → IsBalanced [] (one_import f) k
unfolding get expected_reachable expected_recognizable reaches recognizes is_retiring held
    credit_items
one_import-IsBalanced false (ko n) = ground arith
one_import-IsBalanced true (ko n) = ground arith
one_import-IsBalanced f (kp n) = ground arith

one_import-IsAudited : (f : Bool) → IsAudited [] (one_import f)
unfolding get is_retiring
one_import-IsAudited f = record {
  balanced = one_import-IsBalanced f;
  clist_rows = (refl, tt);
  pin_rows = tt;
  promise_rows = tt;
  queue_rows = tt;
  kinds = λ e k x h. ground (arith, h, kref_beq_iff (ko 1) k, endpoint_beq_iff (vat 1) e);
  retired = λ e n h. ground (arith, h);
}

set_reachable_flag-Flags_example :
    Flags []
      (vat 1)
      (ko 1)
      (flagged true (import_entry false))
      (set_reachable_flag (vat 1) (ko 1) (one_import false))
unfolding get
set_reachable_flag-Flags_example =
    set_reachable_flag-Flags (one_import false) (vat 1) (ko 1) (import_entry false)
      (one_import-IsAudited false) refl

clear_reachable_flag-Flags_example :
    Flags []
      (vat 1)
      (ko 1)
      (flagged false (import_entry true))
      (clear_reachable_flag (vat 1) (ko 1) (one_import true))
unfolding get
clear_reachable_flag-Flags_example =
    clear_reachable_flag-Flags (one_import true) (vat 1) (ko 1) (import_entry true)
      (one_import-IsAudited true) refl

add_clist_entry-Mapped_example :
    Mapped []
      (vat 2)
      (ko 1)
      import_ref
      (add_clist_entry (vat 2) (ko 1) import_ref (one_import true))
unfolding get kernel_ref_exists
add_clist_entry-Mapped_example =
    add_clist_entry-Mapped (one_import true) (vat 2) (ko 1) import_ref (one_import-IsAudited true)
      refl refl (λ _. refl)

delete_clist_entry-Unmapped_example :
    Unmapped []
      (vat 1)
      (ko 1)
      import_ref
      (delete_clist_entry (vat 1) (ko 1) import_ref (one_import true))
unfolding get
delete_clist_entry-Unmapped_example =
    delete_clist_entry-Unmapped (one_import true) (vat 1) (ko 1) (import_entry true)
      (one_import-IsAudited true) refl

-- The same with a pin on the object.
pinned-IsAudited : IsAudited [] (pin_object (ko 1) (one_import true)).1
unfolding get kernel_ref_exists
pinned-IsAudited = (pin_object-Pins (one_import true) (ko 1) (one_import-IsAudited true) refl).1

-- `ko1` is the root object of `v2`.
abbrev one_export : Store
one_export = record empty_store {
  owner = (ko 1, endpoint (vat 2)) ∷ [];
  by_kref = ((vat 2, ko 1), record { is_reachable = false; vat_slot = root_object_vref }) ∷ [];
  by_eref = ((vat 2, root_object_vref), ko 1) ∷ [];
  object_counts = (ko 1, record { reachable = 0; recognizable = 0 }) ∷ [];
}

one_export-IsBalanced : (k : KRef) → IsBalanced [] one_export k
unfolding get expected_reachable expected_recognizable reaches recognizes is_retiring held
    credit_items
one_export-IsBalanced (ko n) = ground arith
one_export-IsBalanced (kp n) = ground arith

one_export-IsAudited : IsAudited [] one_export
unfolding get is_retiring
one_export-IsAudited = record {
  balanced = one_export-IsBalanced;
  clist_rows = (refl, tt);
  pin_rows = tt;
  promise_rows = tt;
  queue_rows = tt;
  kinds = λ e k x h. ground (arith, h, kref_beq_iff (ko 1) k, endpoint_beq_iff (vat 2) e);
  retired = λ e n h. ground (arith, h);
}

abbrev greeting : Message
greeting = record { methargs = record { body = "hello"; slots = ko 1 ∷ [] }; result = none }

translate_message_k_to_e-IsAudited_example :
    IsAudited [] (translate_message_k_to_e (vat 1) greeting (one_import false)).1
translate_message_k_to_e-IsAudited_example =
    translate_message_k_to_e-IsAudited (vat 1) greeting (one_import false)
      (one_import-IsAudited false)

-- `v2` is to name its next import `o-3`.
abbrev newcomer : Store
newcomer = record (one_import true) { next_object_eref = (vat 2, 3) ∷ [] }

newcomer-IsAudited : IsAudited [] newcomer
newcomer-IsAudited =
    counters-IsAudited (one_import true) ((vat 2, 3) ∷ []) [] (one_import-IsAudited true)

translate_ref_k_to_e-new_example :
    Named []
      (vat 2)
      (ko 1)
      (imported_eref (vat 2) (ko 1) 3)
      (translate_ref_k_to_e (vat 2) (ko 1) true newcomer)
unfolding get kernel_ref_exists next_row
translate_ref_k_to_e-new_example =
    translate_ref_k_to_e-new 2 (ko 1) newcomer 3 newcomer-IsAudited refl refl refl
