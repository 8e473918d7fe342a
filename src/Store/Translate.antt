-- ===== src/Store/Translate.antt =====
-- Translation of references between the kernel and an endpoint
-- (packages/ocap-kernel/src/store/methods/translators.ts).
use ocap_kernel.Refs.{
  facet, stored, export_, plain, import_, is_remote_id, Direction, ERef, EndpointId, KRef,
}
use ocap_kernel.Exec.{
  no_result, unmapped_kref, bad_ref, deleted_kref, invalid_syscall, required, pure, raise, gets,
  require, map_each, ◌>>=◌, ◌>>◌,
}
use Prim.Native.String.{String}
use ocap_kernel.Prelude.{Bool, true, false, Option, none, some, List, if◌then◌else◌}
use ocap_kernel.Store.State.{M, CapData, Message}
use ocap_kernel.Store.RefCount.{kernel_ref_exists}
use ocap_kernel.Store.Reachable.{set_reachable_flag}
use ocap_kernel.Store.CList.{kref_to_eref, eref_to_kref, allocate_eref_for_kref}
use ocap_kernel.Store.Vat.{export_from_endpoint}

-- `CapData<ERef>`, and the message of an endpoint, whose `result` is a string, `null` or absent
pub record EndpointCapData : Type 0 where
  pub body : String
  pub slots : List ERef

pub record EndpointMessage : Type 0 where
  pub methargs : EndpointCapData
  pub result : Option ERef

abbrev pub opposite : Direction → Direction
opposite export_ = import_
opposite import_ = export_

-- `insistRRef(eref); invertRRef(eref)`: `/^(r[op])([-+])(\d+)$/`
unfoldable pub invert_rref : ERef → M ERef
invert_rref eref = do
  require eref.in_remote bad_ref
  elim eref.index [
    | plain n ↦ pure (record eref { direction = opposite eref.direction })
    | stored d a b ↦ raise bad_ref
    | facet d a b c ↦ raise bad_ref
  ]

-- The eref in the c-list, or a new one if one may be made
unfoldable pub import_eref : EndpointId → KRef → Bool → Option ERef → M ERef
import_eref e k import_if_needed (some eref) = pure eref
import_eref e k true none = do
  require (← gets (kernel_ref_exists k)) deleted_kref
  allocate_eref_for_kref e k
import_eref e k false none = raise unmapped_kref

-- `translateRefKtoE`
unfoldable pub translate_ref_k_to_e : EndpointId → KRef → Bool → M ERef
unfolding import_eref
translate_ref_k_to_e e k import_if_needed = do
  known ← gets (kref_to_eref e k)
  eref ← import_eref e k import_if_needed known
  set_reachable_flag e k
  if is_remote_id e then invert_rref eref else pure eref

-- `translateCapDataKtoE`
unfoldable pub translate_cap_data_k_to_e : EndpointId → CapData → M EndpointCapData
translate_cap_data_k_to_e e c = do
  slots ← map_each c.slots (λ k. translate_ref_k_to_e e k true)
  pure (record { body = c.body; slots = slots })

abbrev pub map_option : {A B : Type 0} → (A → M B) → Option A → M (Option B)
map_option f none = pure none
map_option f (some a) = f a >>= λ b. pure (some b)

-- `translateMessageKtoE`
unfoldable pub translate_message_k_to_e : EndpointId → Message → M EndpointMessage
translate_message_k_to_e e m = do
  methargs ← translate_cap_data_k_to_e e m.methargs
  result ← map_option (λ k. translate_ref_k_to_e e k true) m.result
  pure (record { methargs = methargs; result = result })

abbrev pub kref_or_export : EndpointId → ERef → Option KRef → M KRef
kref_or_export e eref none = export_from_endpoint e eref
kref_or_export e eref (some k) = pure k

-- `translateRefEtoK`
unfoldable pub translate_ref_e_to_k : EndpointId → ERef → M KRef
translate_ref_e_to_k e eref = do known ← gets (eref_to_kref e eref); kref_or_export e eref known

-- `translateCapDataEtoK`
unfoldable pub translate_cap_data_e_to_k : EndpointId → EndpointCapData → M CapData
translate_cap_data_e_to_k e c = do
  slots ← map_each c.slots (translate_ref_e_to_k e)
  pure (record { body = c.body; slots = slots })

-- `translateMessageEtoK`
unfoldable pub translate_message_e_to_k : EndpointId → EndpointMessage → M Message
translate_message_e_to_k e m = do
  methargs ← translate_cap_data_e_to_k e m.methargs
  eref ← required m.result no_result
  k ← translate_ref_e_to_k e eref
  pure (record { methargs = methargs; result = some k })

pub data GcOp : Type 0 where
  drop_imports retire_imports retire_exports abandon_exports : GcOp

-- `VatSyscallObject`; `vatstore` stands for `callNow` and the `vatstore…` calls, which are not for the
-- kernel.
pub data VatSyscall : Type 0 where
  send : ERef → EndpointMessage → VatSyscall
  subscribe : ERef → VatSyscall
  resolve : List (ERef × Bool × EndpointCapData) → VatSyscall
  exit : Bool → EndpointCapData → VatSyscall
  gc : GcOp → List ERef → VatSyscall
  vatstore : VatSyscall

-- `KernelSyscallObject`
pub data KernelSyscall : Type 0 where
  send : KRef → Message → KernelSyscall
  subscribe : KRef → KernelSyscall
  resolve : List (KRef × Bool × CapData) → KernelSyscall
  exit : Bool → CapData → KernelSyscall
  gc : GcOp → List KRef → KernelSyscall

unfoldable pub translate_resolution :
    EndpointId → ERef × Bool × EndpointCapData → M (KRef × Bool × CapData)
translate_resolution e (eref, rejecting, c) = do
  k ← translate_ref_e_to_k e eref
  v ← translate_cap_data_e_to_k e c
  pure (k, rejecting, v)

-- `translateSyscallVtoK`
unfoldable pub translate_syscall_v_to_k : EndpointId → VatSyscall → M KernelSyscall
unfolding translate_resolution
translate_syscall_v_to_k e (VatSyscall.send target m) = do
  k ← translate_ref_e_to_k e target
  km ← translate_message_e_to_k e m
  pure (KernelSyscall.send k km)
translate_syscall_v_to_k e (VatSyscall.subscribe p) = do
  k ← translate_ref_e_to_k e p
  pure (KernelSyscall.subscribe k)
translate_syscall_v_to_k e (VatSyscall.resolve rs) = do
  krs ← map_each rs (translate_resolution e)
  pure (KernelSyscall.resolve krs)
translate_syscall_v_to_k e (VatSyscall.exit failing info) = do
  c ← translate_cap_data_e_to_k e info
  pure (KernelSyscall.exit failing c)
translate_syscall_v_to_k e (VatSyscall.gc op erefs) = do
  ks ← map_each erefs (translate_ref_e_to_k e)
  pure (KernelSyscall.gc op ks)
translate_syscall_v_to_k e VatSyscall.vatstore = raise invalid_syscall
