-- ===== src/Tests/Routing.antt =====
-- The theorems on deliveries, at a message whose references are in hand.
use ocap_kernel.Kernel.Ingress.{write_message-IsAudited}
use ocap_kernel.Kernel.Held.{write_message}
use ocap_kernel.Kernel.State.{KernelQueue}
use ocap_kernel.Store.Audit.Reheld.{reheld-IsAudited}
use ocap_kernel.Store.Audit.Weights.{
  IsBalanced, credit_promise, credit_items, held, is_retiring, recognizes, reaches,
  expected_recognizable, expected_reachable,
}
use ocap_kernel.Refs.{KRef, vat, kernel, kp, ko}
use ocap_kernel.Tests.Kernel.{
  no_slots, fulfilled-IsAudited, fulfilled_with, idle_promise-IsBalanced, sent_promise-IsBalanced,
  promised-IsAudited, over, promised,
}
use ocap_kernel.Kernel.Notifying.{deliver_notify-IsAudited}
use ocap_kernel.Kernel.Notify.{deliver_notify}
use ocap_kernel.Kernel.Router.{vat_not_found, deliver_send, Surroundings}
use ocap_kernel.Prelude.{arith, inr, refl, ◌≡◌, false, some, ◌∷◌, [], none}
use ocap_kernel.Store.Audit.Shares.{same_hand-IsAudited}
use ocap_kernel.Store.Audit.Laws.{owner-IsAudited, IsAudited}
use ocap_kernel.Kernel.Routing.{deliver_send-unresolved, queued_on}
use ocap_kernel.Kernel.Services.{deliver_send-service}
use ocap_kernel.Kernel.Undeliverable.{deliver_send-undeliverable, Rejects}
use ocap_kernel.Exec.{done, ok, pure}
use ocap_kernel.Store.Revocation.{is_revoked}
use ocap_kernel.Store.Object.{get_owner}
use ocap_kernel.Dict.{get}
use ocap_kernel.Store.State.{Message, Store}

abbrev surroundings : Surroundings
surroundings = record {
  extract_single_ref = λ v. none;
  make_kernel_error = λ c. record { body = "error"; slots = [] };
  get_endpoint = λ e q. vat_not_found;
  deliver_message = λ e t m. pure none;
  notify_endpoint = λ e rs. pure none;
  invoke_kernel_service = λ k m. done;
}

-- To `ko1`, for the result `kp1`
abbrev call : Message
call = record { methargs = record { body = "hello"; slots = [] }; result = some (kp 1) }

deliver_send-undeliverable_example :
    Rejects [] none
      (some (kp 1))
      (record { body = "error"; slots = [] })
      (promised 2 2)
      (deliver_send surroundings (ko 1) call (over (promised 2 2)))
unfolding get get_owner
deliver_send-undeliverable_example =
    deliver_send-undeliverable surroundings 1 call (over (promised 2 2))
      (promised-IsAudited (ko 1 ∷ kp 1 ∷ []) 2 2 sent_promise-IsBalanced) (λ c. refl) (inr refl)
      (refl, (refl, (vat 2 ∷ [], refl)))

-- To `kp1`, with `ko1` as its argument
abbrev queued_call : Message
queued_call = record { methargs = record { body = "hello"; slots = ko 1 ∷ [] }; result = none }

deliver_send-unresolved_example :
    ((deliver_send surroundings (kp 1) queued_call (over (promised 2 2))).0 ≡ ok none)
    × ((deliver_send surroundings (kp 1) queued_call (over (promised 2 2))).1.store.promise_queue
        ≡ queued_on (kp 1) queued_call (promised 2 2))
    × IsAudited [] (deliver_send surroundings (kp 1) queued_call (over (promised 2 2))).1.store
unfolding get
deliver_send-unresolved_example =
    deliver_send-unresolved surroundings (kp 1) queued_call (vat 2 ∷ []) (over (promised 2 2))
      (same_hand-IsAudited (promised 2 2) (λ j. omega arith)
        (promised-IsAudited (ko 1 ∷ kp 1 ∷ []) 2 2 sent_promise-IsBalanced))
      refl refl refl

abbrev served : Store
served = record (promised 2 2) { owner = (ko 1, kernel) ∷ [] }

deliver_send-service_example :
    ((deliver_send surroundings (ko 1) call (over served)).0
      ≡ ok (some (record { did_delivery = kernel; is_aborted = false; terminated = none })))
    × IsAudited [] (deliver_send surroundings (ko 1) call (over served)).1.store
unfolding get get_owner is_revoked
deliver_send-service_example =
    deliver_send-service surroundings 1 call (over served)
      (λ rest t a. record { outcome = refl; audited = a })
      (owner-IsAudited (promised 2 2) ((ko 1, kernel) ∷ []) []
        (promised-IsAudited (ko 1 ∷ kp 1 ∷ []) 2 2 sent_promise-IsBalanced))
      refl refl

taken-IsBalanced : (k : KRef) → IsBalanced (kp 1 ∷ []) (fulfilled_with [] []) k
unfolding get expected_reachable expected_recognizable reaches recognizes is_retiring held
    credit_items credit_promise
taken-IsBalanced (ko n) = ground arith
taken-IsBalanced (kp n) = ground arith

deliver_notify-IsAudited_example :
    IsAudited [] (deliver_notify surroundings (vat 2) (kp 1) (over (fulfilled_with [] []))).1.store
unfolding get
deliver_notify-IsAudited_example =
    deliver_notify-IsAudited surroundings (vat 2) (kp 1) (over (fulfilled_with [] []))
      (λ i rs t a. a) (fulfilled-IsAudited (kp 1 ∷ []) [] [] taken-IsBalanced)
      (refl, (false, (no_slots, (refl, refl))))

abbrev ready : KernelQueue
ready = over (record (promised 1 1) { next_promise_id = 2 })

ready-IsAudited : IsAudited [] ready.store
unfolding held get
ready-IsAudited =
    reheld-IsAudited (promised 1 1) ready.store refl refl refl refl refl (refl, tt) tt (λ j. refl)
      (promised-IsAudited [] 1 1 idle_promise-IsBalanced)

write_message-IsAudited_example :
    ((write_message no_slots (ko 1) no_slots 7 ready).0 ≡ ok tt)
    × IsAudited [] (write_message no_slots (ko 1) no_slots 7 ready).1.store
unfolding get
write_message-IsAudited_example =
    write_message-IsAudited ready (ko 1) no_slots 7 no_slots ready-IsAudited
      (record { no_count = refl; no_state = refl; no_queue = refl })
