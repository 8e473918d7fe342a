-- ===== src/Vats/Syscalls.antt =====
-- The syscalls of a vat (packages/ocap-kernel/src/vats/VatSyscall.ts). Whether a crank is open, the
-- contents of a fatal error and the logging are the kernel's; the first is an argument.
use ocap_kernel.Store.Translate.{
  abandon_exports, retire_exports, retire_imports, drop_imports, translate_syscall_v_to_k, GcOp,
  KernelSyscall, VatSyscall,
}
use ocap_kernel.Remotes.Handle.Deliveries.{kernel_resolution}
use ocap_kernel.Prelude.{map, false, true, not, some, none, List, if◌then◌else◌, Option, Bool}
use ocap_kernel.Refs.{endpoint, KRef, EndpointId}
use ocap_kernel.Kernel.Enqueue.{resolve_promises, enqueue_notify, enqueue_send}
use ocap_kernel.Exec.{pure, ◌>>=◌, ◌>>◌, err, ok, Result}
use ocap_kernel.Store.GcHandlers.{
  perform_export_cleanup, perform_retire_imports, perform_drop_imports,
}
use ocap_kernel.Store.Promise.{
  settled, add_promise_subscriber, get_kernel_promise, pending, KernelPromise,
}
use ocap_kernel.Kernel.State.{on_store, K, KernelQueue}
use ocap_kernel.Store.State.{M, CapData}
use ocap_kernel.Store.Vat.{is_vat_active}

-- `vatRequestedTermination`
pub record Termination : Type 0 where
  pub reject : Bool
  pub info : CapData

-- The two fatal errors: a syscall of a vat that is not active, and one that throws
pub data FatalSyscall : Type 0 where
  inactive_vat translation_failed : FatalSyscall

-- `VatSyscall`: `illegalSyscall` is what the fatal error says.
pub record VatSyscalls : Type 0 where
  pub queue : KernelQueue
  pub illegal_syscall : Option FatalSyscall
  pub vat_requested_termination : Option Termination

-- `VatSyscallResult`: `['ok', null]` or `['error', …]`
pub data SyscallResult : Type 0 where
  syscall_ok : SyscallResult
  syscall_error : SyscallResult

-- `#handleSyscallSubscribe`, by the state of the promise
unfoldable pub subscribe_to : EndpointId → KRef → Bool → KernelPromise → K (Unit {0})
subscribe_to v k in_crank (pending d subs) = on_store (add_promise_subscriber v k)
subscribe_to v k in_crank (settled r c) = enqueue_notify v k (not in_crank)

-- `#handleSyscallSubscribe`
unfoldable pub handle_syscall_subscribe : EndpointId → KRef → Bool → K (Unit {0})
unfolding subscribe_to
handle_syscall_subscribe v k in_crank =
    on_store (get_kernel_promise k) >>= subscribe_to v k in_crank

-- `#handleSyscallDropImports`, `#handleSyscallRetireImports` and `#handleSyscallExportCleanup`
unfoldable pub handle_syscall_gc : EndpointId → GcOp → List KRef → M (Unit {0})
handle_syscall_gc v drop_imports ks = perform_drop_imports ks v
handle_syscall_gc v retire_imports ks = perform_retire_imports ks v
handle_syscall_gc v retire_exports ks = perform_export_cleanup ks true v
handle_syscall_gc v abandon_exports ks = perform_export_cleanup ks false v

-- The `switch` of `handleSyscall`
unfoldable pub perform_syscall : EndpointId → Bool → KernelSyscall → K (Option Termination)
unfolding handle_syscall_subscribe handle_syscall_gc
perform_syscall v in_crank (KernelSyscall.send target m) =
    enqueue_send target m (not in_crank) >> pure none
perform_syscall v in_crank (KernelSyscall.subscribe k) =
    handle_syscall_subscribe v k in_crank >> pure none
perform_syscall v in_crank (KernelSyscall.resolve rs) =
    resolve_promises (some (endpoint v)) (map kernel_resolution rs) (not in_crank) >> pure none
perform_syscall v in_crank (KernelSyscall.exit failing c) =
    pure (some (record { reject = failing; info = c }))
perform_syscall v in_crank (KernelSyscall.gc op ks) =
    on_store (handle_syscall_gc v op ks) >> pure none

-- The translation and the work, which may throw
unfoldable pub run_syscall : EndpointId → Bool → VatSyscall → K (Option Termination)
unfolding perform_syscall
run_syscall v in_crank c = on_store (translate_syscall_v_to_k v c) >>= perform_syscall v in_crank

-- The end of `handleSyscall`, with its `catch`
abbrev pub syscall_outcome : Result (Option Termination) → KernelQueue → SyscallResult × VatSyscalls
syscall_outcome (ok t) q =
    (syscall_ok, record { queue = q; illegal_syscall = none; vat_requested_termination = t })
syscall_outcome (err e) q = (
  syscall_error,
  record { queue = q; illegal_syscall = some translation_failed; vat_requested_termination = none },
)

-- `handleSyscall`
unfoldable pub handle_syscall :
    EndpointId → Bool → VatSyscall → VatSyscalls → SyscallResult × VatSyscalls
unfolding run_syscall
handle_syscall v in_crank c x =
    let (r, q) = run_syscall v in_crank c x.queue in
    if is_vat_active v x.queue.store then syscall_outcome r q else (
      syscall_error,
      record {
        queue = x.queue;
        illegal_syscall = some inactive_vat;
        vat_requested_termination = none;
      },
    )
