-- ===== src/Tests/Peers.antt =====
-- The theorems on what a peer and a vat ask of the kernel.
use ocap_kernel.Refs.{
  kp, endpoint_beq_iff, ko, kref_beq_iff, ERef, plain, import_, remote, vat, KRef,
}
use ocap_kernel.Store.Audit.Weights.{
  IsBalanced, credit_items, held, recognizes, reaches, expected_recognizable, expected_reachable,
  is_retiring,
}
use ocap_kernel.Store.State.{Store, empty_store}
use ocap_kernel.Remotes.Handle.Sessions.{
  attached, no_rows, numbered, restarted, rolled_back, Session,
}
use ocap_kernel.Remotes.Handle.Inbound.{
  persist_redeem_url_reply, process_inbound, write_receipt, receive_inbound, AfterCommit,
  after_commit, deliver_inbound,
}
use ocap_kernel.Remotes.Handle.Counted.{handle_remote_deliver-IsAudited}
use ocap_kernel.Vats.Syscalled.{handle_syscall-IsTold, IsTold}
use ocap_kernel.Remotes.Handle.Deliveries.{
  bring_out_your_dead_delivery, deliver, drop_exports_delivery, handle_remote_deliver,
  nothing_deferred, DeliveryParams, RemoteMessageBase,
}
use ocap_kernel.Remotes.Handle.Once.{deliver_inbound_once}
use ocap_kernel.Remotes.Handle.Lasting.{facing, here, onward, taken_in, Run}
use ocap_kernel.Remotes.Handle.Sending.{persist_remote_command}
use ocap_kernel.Remotes.Handle.Transmit.{attach_transport}
use ocap_kernel.Vats.Syscalls.{handle_syscall, VatSyscalls}
use ocap_kernel.Kernel.State.{empty_queue}
use ocap_kernel.Prelude.{inr, arith, nat_eq, refl, [], none, some, true, false, ℕ, ◌≡◌, ◌∷◌, ◌⊎◌}
use ocap_kernel.Store.Audit.Laws.{IsAudited}
use Prim.Native.String.{String}
use ocap_kernel.Store.Translate.{VatSyscall}
use ocap_kernel.Dict.{get}
use ocap_kernel.Remotes.Handle.State.{restore_persisted_state, make, RemoteCommand, new_handle}
use ocap_kernel.Remotes.Handle.Acks.{persist_acknowledged}
use ocap_kernel.Exec.{ok}
use ocap_kernel.Remotes.Handle.Rows.{get_remote_seq_state}

-- The peer asks for a reap, in its first message.
abbrev reap_request : RemoteCommand RemoteMessageBase
reap_request = record { seq = 1; ack = none; base = deliver bring_out_your_dead_delivery }

abbrev quiet_session : Session
quiet_session = record { handle = make true no_rows; committed = no_rows }

abbrev never : String → KRef ⊎ String
never url = inr "no such object"

abbrev after_reap : AfterCommit
after_reap = record { seq = 1; asked_reap = true; reply = none; completion = nothing_deferred }

taken :
    (deliver_inbound never (remote 1) reap_request (facing empty_queue quiet_session)).0
    ≡ ok (some after_reap)
unfolding deliver_inbound receive_inbound write_receipt process_inbound handle_remote_deliver make
    restore_persisted_state get_remote_seq_state new_handle persist_redeem_url_reply get
taken = refl

-- The crank is committed; a message is numbered in the next one, which is rolled back; the kernel dies, is
-- started again and gets its transport.
abbrev reaped_session : Session
reaped_session =
    taken_in
      (deliver_inbound never (remote 1) reap_request (facing empty_queue quiet_session)).1.handle
      after_reap

abbrev numbered_session : Session
numbered_session = record reaped_session {
  handle = (persist_remote_command reap_request.base true none reaped_session.handle).1;
}

abbrev rolled_session : Session
rolled_session = record numbered_session {
  handle = record numbered_session.handle { rows = numbered_session.committed };
}

abbrev new_session : Session
new_session = record rolled_session { handle = make false rolled_session.committed }

abbrev attached_session : Session
attached_session = record new_session { handle = (attach_transport new_session.handle).1 }

attached_session-Run : Run reaped_session attached_session
attached_session-Run =
    onward
      (onward (onward (onward here (numbered reap_request.base true none) refl) rolled_back refl)
        (restarted false) refl)
      attached refl

deliver_inbound_once_example :
    ((after_commit after_reap
        (deliver_inbound never
          (remote 1)
          reap_request
          (facing empty_queue quiet_session)).1.handle).0
      ≡ ok tt)
    × (deliver_inbound never (remote 1) reap_request (facing empty_queue attached_session) ≡ (
      ok none,
      record { queue = empty_queue; handle = persist_acknowledged attached_session.handle },
    ))
deliver_inbound_once_example =
    deliver_inbound_once never (remote 1) reap_request empty_queue quiet_session attached_session
      after_reap reap_request empty_queue taken attached_session-Run (omega arith)

-- `ro-1`, which the remote imports, and `ro-2`, which is not in its c-list
abbrev import_ref : ℕ → ERef
import_ref n = record { in_remote = true; is_promise = false; direction = import_; index = plain n }

abbrev dropped : DeliveryParams
dropped = drop_exports_delivery (import_ref 1 ∷ import_ref 2 ∷ [])

abbrev remote_import : Store
remote_import = record empty_store {
  by_kref = ((remote 1, ko 1), record { is_reachable = true; vat_slot = import_ref 1 }) ∷ [];
  by_eref = ((remote 1, import_ref 1), ko 1) ∷ [];
  object_counts = (ko 1, record { reachable = 1; recognizable = 1 }) ∷ [];
}

remote_import-IsBalanced : (k : KRef) → IsBalanced [] remote_import k
unfolding get expected_reachable expected_recognizable reaches recognizes is_retiring held
    credit_items
remote_import-IsBalanced (ko n) = ground arith
remote_import-IsBalanced (kp n) = ground arith

remote_import-IsAudited : IsAudited [] remote_import
unfolding get is_retiring
remote_import-IsAudited = record {
  balanced = remote_import-IsBalanced;
  clist_rows = (refl, tt);
  pin_rows = tt;
  promise_rows = tt;
  queue_rows = tt;
  kinds = λ e k x h. ground (arith, h, kref_beq_iff (ko 1) k, endpoint_beq_iff (remote 1) e);
  retired = λ e n h. ground (arith, h);
}

handle_remote_deliver-IsAudited_example :
    IsAudited []
      (handle_remote_deliver
        (remote 1)
        dropped
        (record empty_queue { store = remote_import })).1.store
handle_remote_deliver-IsAudited_example =
    handle_remote_deliver-IsAudited (remote 1) dropped
      (record empty_queue { store = remote_import }) refl remote_import-IsAudited

-- An active vat that asks for its own end
abbrev leaving_vat : VatSyscalls
leaving_vat = record {
  queue = record empty_queue { store = record empty_store { vat_ids = vat 1 ∷ [] } };
  illegal_syscall = none;
  vat_requested_termination = none;
}

abbrev exit_call : VatSyscall
exit_call = VatSyscall.exit false (record { body = "done"; slots = [] })

handle_syscall-IsTold_example :
    IsTold (vat 1) exit_call leaving_vat (handle_syscall (vat 1) true exit_call leaving_vat)
handle_syscall-IsTold_example = handle_syscall-IsTold (vat 1) true exit_call leaving_vat
