-- ===== src/Vats/Syscalled.antt =====
-- What a vat is told of its syscall, and what the kernel keeps of it.
use ocap_kernel.Store.Translate.{
  translate_cap_data_e_to_k, translate_resolution, translate_message_e_to_k, translate_ref_e_to_k,
  KernelSyscall, translate_syscall_v_to_k, VatSyscall,
}
use ocap_kernel.Exec.{map_each, ◌>>=◌, err, pure, resume, ok, Result}
use ocap_kernel.Vats.Syscalls.{
  inactive_vat, translation_failed, syscall_error, syscall_ok, syscall_outcome, SyscallResult,
  Termination, VatSyscalls, handle_syscall, perform_syscall, run_syscall,
}
use ocap_kernel.Prelude.{
  ◌⊎◌, refl, ◌≡◌, inr, inl, none, some, sym, Bool-cases, ap, false, Option, true, Bool,
}
use ocap_kernel.Remotes.Handle.Flushing.{if-false, if-true}
use ocap_kernel.Remotes.Handle.Delivered.{ok_injective, err_ne_ok}
use ocap_kernel.Dict.{is_some}
use ocap_kernel.Store.Vat.{is_vat_active}
use ocap_kernel.Kernel.State.{KernelQueue}
use ocap_kernel.Refs.{EndpointId}
use ocap_kernel.Store.State.{M, Store}
use mathlib.Core.Path.{subst}

-- The syscall asks for the vat's own end.
abbrev pub is_exit : VatSyscall → Bool
is_exit (VatSyscall.exit failing info) = true
is_exit _ = false

abbrev asks_exit : KernelSyscall → Bool
asks_exit (KernelSyscall.exit failing info) = true
asks_exit _ = false

-- Where the call returns, it asks for a termination just as it should.
abbrev Asks : Bool → Result (Option Termination) → Type 0
Asks b r = (t : Option Termination) → r ≡ ok t → is_some t ≡ b

Asks-then : (r : Result (Unit {0})) (q : KernelQueue) → Asks false (resume r (λ _. pure none) q).0
Asks-then (ok u) q t e = ap is_some (sym (ok_injective e))
Asks-then (err x) q t e = absurd (err_ne_ok e)

perform_syscall-Asks :
    (v : EndpointId) (b : Bool) (c : KernelSyscall) (q : KernelQueue)
    → Asks (asks_exit c) (perform_syscall v b c q).0
unfolding perform_syscall
perform_syscall-Asks v b (KernelSyscall.send target m) q = Asks-then _ _
perform_syscall-Asks v b (KernelSyscall.subscribe k) q = Asks-then _ _
perform_syscall-Asks v b (KernelSyscall.resolve rs) q = Asks-then _ _
perform_syscall-Asks v b (KernelSyscall.exit failing c) q = λ t e. ap is_some (sym (ok_injective e))
perform_syscall-Asks v b (KernelSyscall.gc op ks) q = Asks-then _ _

-- A translated syscall asks for an exit just as the vat's syscall did.
abbrev IsKept : Bool → Result KernelSyscall → Type 0
IsKept b r = (c : KernelSyscall) → r ≡ ok c → asks_exit c ≡ b

resume-IsKept :
    {A : Type 0} (b : Bool) (g : A → M KernelSyscall) (r : Result A) (s : Store)
    → ((a : A) (t : Store) → IsKept b (g a t).0)
    → IsKept b (resume r g s).0
resume-IsKept b g (ok a) s h = h a s
resume-IsKept b g (err x) s h = λ c e. absurd (err_ne_ok e)

bind-IsKept :
    {A : Type 0} (b : Bool) (m : M A) (g : A → M KernelSyscall) (s : Store)
    → ((a : A) (t : Store) → IsKept b (g a t).0)
    → IsKept b ((m >>= g) s).0
bind-IsKept b m g s h = resume-IsKept b g (m s).0 (m s).1 h

pure-IsKept : (c : KernelSyscall) → IsKept (asks_exit c) (ok c)
pure-IsKept c d e = ap asks_exit (sym (ok_injective e))

translate_syscall_v_to_k-IsKept :
    (v : EndpointId) (c : VatSyscall) (s : Store)
    → IsKept (is_exit c) (translate_syscall_v_to_k v c s).0
unfolding translate_syscall_v_to_k
translate_syscall_v_to_k-IsKept v (VatSyscall.send target m) s =
    bind-IsKept false (translate_ref_e_to_k v target)
      (λ k. translate_message_e_to_k v m >>= λ km. pure (KernelSyscall.send k km)) s
      λ k t.
        bind-IsKept false (translate_message_e_to_k v m) (λ km. pure (KernelSyscall.send k km)) t
          λ km u. pure-IsKept (KernelSyscall.send k km)
translate_syscall_v_to_k-IsKept v (VatSyscall.subscribe p) s =
    bind-IsKept false (translate_ref_e_to_k v p) (λ k. pure (KernelSyscall.subscribe k)) s
      λ k t. pure-IsKept (KernelSyscall.subscribe k)
translate_syscall_v_to_k-IsKept v (VatSyscall.resolve rs) s =
    bind-IsKept false (map_each rs (translate_resolution v))
      (λ krs. pure (KernelSyscall.resolve krs)) s λ krs t. pure-IsKept (KernelSyscall.resolve krs)
translate_syscall_v_to_k-IsKept v (VatSyscall.exit failing info) s =
    bind-IsKept true (translate_cap_data_e_to_k v info) (λ c. pure (KernelSyscall.exit failing c)) s
      λ c t. pure-IsKept (KernelSyscall.exit failing c)
translate_syscall_v_to_k-IsKept v (VatSyscall.gc op erefs) s =
    bind-IsKept false (map_each erefs (translate_ref_e_to_k v))
      (λ ks. pure (KernelSyscall.gc op ks)) s λ ks t. pure-IsKept (KernelSyscall.gc op ks)
translate_syscall_v_to_k-IsKept v VatSyscall.vatstore s = λ c e. absurd (err_ne_ok e)

resume-Asks :
    (v : EndpointId) (b exits : Bool) (r : Result KernelSyscall) (q : KernelQueue)
    → IsKept exits r
    → Asks exits (resume r (perform_syscall v b) q).0
resume-Asks v b exits (ok c) q kept = rw⁻¹ (kept c refl) (perform_syscall-Asks v b c q)
resume-Asks v b exits (err x) q kept = λ t e. absurd (err_ne_ok e)

run_syscall-Asks :
    (v : EndpointId) (b : Bool) (c : VatSyscall) (q : KernelQueue)
    → Asks (is_exit c) (run_syscall v b c q).0
unfolding run_syscall
run_syscall-Asks v b c q =
    resume-Asks v b (is_exit c) _ _ (translate_syscall_v_to_k-IsKept v c q.store)

-- The three ways in which a syscall can end
abbrev pub IsTold : EndpointId → VatSyscall → VatSyscalls → SyscallResult × VatSyscalls → Type 0
IsTold v c x (r, y) =
    ((r ≡ syscall_ok)
      × (is_vat_active v x.queue.store ≡ true)
      × (y.illegal_syscall ≡ none)
      × (is_some y.vat_requested_termination ≡ is_exit c))
    ⊎ ((r ≡ syscall_error)
        × (y.vat_requested_termination ≡ none)
        × (((is_vat_active v x.queue.store ≡ true) × (y.illegal_syscall ≡ some translation_failed))
            ⊎ ((is_vat_active v x.queue.store ≡ false)
                × (y.illegal_syscall ≡ some inactive_vat)
                × (y.queue ≡ x.queue))))

syscall_outcome-IsTold :
    (v : EndpointId) (c : VatSyscall) (x : VatSyscalls) (r : Result (Option Termination))
    (q : KernelQueue)
    → is_vat_active v x.queue.store ≡ true
    → Asks (is_exit c) r
    → IsTold v c x (syscall_outcome r q)
syscall_outcome-IsTold v c x (ok t) q active asks = inl (refl, active, refl, asks t refl)
syscall_outcome-IsTold v c x (err e) q active asks = inr (refl, refl, inl (active, refl))

-- A syscall is answered with `ok` only where the vat is active and no fatal error is left behind, and then
-- a termination is requested just where the syscall is an exit. It is answered with an error where
-- something threw, or where the vat is not active and nothing is changed, and then the fatal error of the
-- one or the other is left behind and no termination is requested.
pub handle_syscall-IsTold :
    (v : EndpointId) (in_crank : Bool) (c : VatSyscall) (x : VatSyscalls)
    → IsTold v c x (handle_syscall v in_crank c x)
unfolding handle_syscall
handle_syscall-IsTold v b c x = elim (Bool-cases (is_vat_active v x.queue.store)) [
  | inl q ↦ subst (IsTold v c x) (sym (if-true _ _ (is_vat_active v x.queue.store) q)) (
      syscall_outcome-IsTold v c x (run_syscall v b c x.queue).0 (run_syscall v b c x.queue).1 q
        (run_syscall-Asks v b c x.queue))
  | inr q ↦
      subst (IsTold v c x) (sym (if-false _ _ (is_vat_active v x.queue.store) q))
        (inr (refl, refl, inr (q, refl, refl)))
]
