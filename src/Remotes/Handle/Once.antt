-- ===== src/Remotes/Handle/Once.antt =====
-- A message of the peer is taken at most once, whatever the handle goes through until the peer restarts.
use ocap_kernel.Remotes.Handle.Lasting.{facing, taken_in, taken_in-Lasts, Run, Run-Lasts}
use ocap_kernel.Exec.{ok}
use ocap_kernel.Kernel.State.{KernelQueue}
use ocap_kernel.Prelude.{arith, none, some, ◌≡◌, ◌≤◌, ◌⊎◌}
use ocap_kernel.Refs.{EndpointId, KRef}
use ocap_kernel.Remotes.Handle.Acks.{persist_acknowledged}
use ocap_kernel.Remotes.Handle.Deliveries.{RemoteMessageBase}
use ocap_kernel.Remotes.Handle.Inbound.{after_commit, deliver_inbound, AfterCommit}
use ocap_kernel.Remotes.Handle.Sessions.{Session}
use ocap_kernel.Remotes.Handle.State.{RemoteCommand}
use ocap_kernel.Remotes.Handle.Taken.{after_commit-receipt, deliver_inbound_again}
use Prim.Native.String.{String}

-- Once a message has been taken in a crank that committed, what follows the commit comes to its end. In
-- every session that the handle comes to from there until the peer restarts, by further deliveries, other
-- operations, commits, rollbacks and restarts of the kernel, no message with that number or a lower one
-- reaches the kernel: its delivery changes nothing but the rows of what was acknowledged.
pub deliver_inbound_once :
    (redeem : String → KRef ⊎ String) (e : EndpointId) (c : RemoteCommand RemoteMessageBase)
    (q : KernelQueue) (s t : Session) (a : AfterCommit) (later : RemoteCommand RemoteMessageBase)
    (q' : KernelQueue)
    → (deliver_inbound redeem e c (facing q s)).0 ≡ ok (some a)
    → Run (taken_in (deliver_inbound redeem e c (facing q s)).1.handle a) t
    → later.seq ≤ c.seq
    → ((after_commit a (deliver_inbound redeem e c (facing q s)).1.handle).0 ≡ ok tt)
      × (deliver_inbound redeem e later (facing q' t)
          ≡ (ok none, record { queue = q'; handle = persist_acknowledged t.handle }))
deliver_inbound_once redeem e c q s t a later q' h r le =
    let l = Run-Lasts c.seq r (taken_in-Lasts redeem e c q c.seq s a h (omega arith)) in
    (
      (after_commit-receipt a (deliver_inbound redeem e c (facing q s)).1.handle).0,
      deliver_inbound_again redeem e later q' t.handle (omega (arith, l.taken.memory, le)),
    )
