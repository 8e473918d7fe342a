-- ===== src/Remotes/Handle/Sessions.antt =====
-- A handle over the life of its kernel: its operations in any order, with the crank's commits and
-- rollbacks and the restarts of the kernel and of the peer.
use ocap_kernel.Remotes.Handle.Steps.{
  finalize_peer_restart-IsNumbered, persist_peer_restart-IsNumbered,
  release_restart_hold-IsNumbered, hold_for_restart-IsNumbered, retransmit_pending-IsNumbered,
  handle_ack_timeout-IsNumbered, take_turn-IsNumbered,
}
use ocap_kernel.Kernel.State.{KernelQueue}
use ocap_kernel.Refs.{EndpointId, KRef}
use ocap_kernel.Remotes.Handle.Deliveries.{RemoteMessageBase}
use ocap_kernel.Remotes.Handle.Inbound.{
  after_commit, deliver_inbound, receive_from_peer, redeem_ocap_url, remove, AfterCommit,
}
use ocap_kernel.Remotes.Handle.Reception.{
  after_commit-IsNumbered, cleanup-IsNumbered, deliver_bring_out_your_dead-IsNumbered,
  deliver_inbound-IsNumbered, receive_from_peer-IsNumbered, redeem_ocap_url-IsNumbered,
}
use ocap_kernel.Remotes.Handle.Restarts.{
  HoldWindow-stored, stored-HoldWindow, HoldWindow, make-IsNumbered,
}
use ocap_kernel.Remotes.Handle.Runs.{
  attach_transport-IsNumbered, transmit_remote_command-IsNumbered, give_up-IsNumbered,
}
use ocap_kernel.Remotes.Handle.Numbered.{
  persist_remote_command-IsNumbered, rows-IsNumbered, handle_ack-IsNumbered, moved-IsNumbered,
  IsNumbered,
}
use ocap_kernel.Prelude.{refl, ◌⊎◌, arith, none, [], true, ◌≡◌, Option, Bool, ℕ}
use ocap_kernel.Remotes.Handle.Acks.{
  finalize_peer_restart, persist_peer_restart, release_restart_hold, hold_for_restart, give_up,
  handle_ack, cleanup, reject_pending_redemptions,
}
use ocap_kernel.Remotes.Handle.Rows.{RemoteRows}
use ocap_kernel.Remotes.Handle.Transmit.{
  attach_transport, transmit_remote_command, SendOutcome, handle_ack_timeout, take_turn,
}
use ocap_kernel.Remotes.Handle.Retransmit.{retransmit_pending}
use ocap_kernel.Remotes.Handle.State.{
  clear_delayed_ack, RemoteCommand, make, PersistedCommand, RemoteHandle,
}
use ocap_kernel.Remotes.Handle.Sending.{deliver_bring_out_your_dead, persist_remote_command}
use Prim.Native.String.{String}

-- A handle, and what the store goes back to when a crank is rolled back or the kernel dies
pub record Session : Type 0 where
  pub handle : RemoteHandle RemoteMessageBase
  pub committed : RemoteRows (RemoteCommand RemoteMessageBase)

abbrev pub no_rows : RemoteRows (RemoteCommand RemoteMessageBase)
no_rows = record { next_send = none; highest_received = none; start = none; pending = [] }

abbrev at : Session → RemoteHandle RemoteMessageBase → Session
at s h = record s { handle = h }

-- One operation of the handle, in whatever state the kernel's queue is, or the end of a crank, or a restart.
-- A delivery to the peer is numbered and, after the commit, transmitted. A reply that does not come leaves
-- its redemption forgotten, and an acknowledgement that goes out alone leaves its timer cleared. The restart
-- of the peer is persisted while the handle is held for it.
pub data Step (s : Session) : Session → Type 0 where
  acknowledged : (ack : ℕ) → Step s (at s (handle_ack ack s.handle).1)
  offered : (ack seq : Option ℕ) → Step s (at s (receive_from_peer ack seq s.handle).1)
  received :
      (redeem : String → KRef ⊎ String) (e : EndpointId) (c : RemoteCommand RemoteMessageBase)
      (q : KernelQueue)
      → Step s
          (at s (deliver_inbound redeem e c (record { queue = q; handle = s.handle })).1.handle)
  followed : (a : AfterCommit) → Step s (at s (after_commit a s.handle).1)
  redeemed : (url : String) → Step s (at s (redeem_ocap_url url s.handle).1)
  redemption_forgotten :
      (key : ℕ)
      → Step s
          (at s (record s.handle { pending_redemptions = remove key s.handle.pending_redemptions }))
  numbered :
      (base : RemoteMessageBase) (exempt : Bool) (ack : Option ℕ)
      → Step s (at s (persist_remote_command base exempt ack s.handle).1)
  reaped : (base : RemoteMessageBase) → Step s (at s (deliver_bring_out_your_dead base s.handle).1)
  transmitted :
      (p : PersistedCommand RemoteMessageBase)
      → Step s (at s (transmit_remote_command p s.handle).1)
  attached : Step s (at s (attach_transport s.handle).1)
  turned : (o : SendOutcome) → Step s (at s (take_turn o s.handle).1)
  timed_out : Step s (at s (handle_ack_timeout s.handle).1)
  acknowledged_alone : Step s (at s (clear_delayed_ack s.handle))
  retransmitted : (o : ℕ → SendOutcome) → Step s (at s (retransmit_pending o s.handle).1)
  given_up : Step s (at s (give_up s.handle))
  redemptions_rejected : Step s (at s (reject_pending_redemptions s.handle))
  cleaned_up : Step s (at s (cleanup s.handle))
  put_on_hold : Step s (at s (hold_for_restart s.handle))
  released : Step s (at s (release_restart_hold s.handle))
  peer_restart_persisted :
      s.handle.held_for_restart ≡ true → Step s (at s (persist_peer_restart s.handle))
  peer_restart_finalized : Step s (at s (finalize_peer_restart s.handle))
  committed : Step s (record s { committed = s.handle.rows })
  rolled_back : Step s (at s (record s.handle { rows = s.committed }))
  restarted : (t : Bool) → Step s (at s (make t s.committed))

-- Both the handle and the committed rows have their numbers in order.
pub record IsOrderly (s : Session) : Type 0 where
  pub numbered : IsNumbered s.handle
  pub holds : HoldWindow s.committed

Step-IsOrderly : {s t : Session} → Step s t → IsOrderly s → IsOrderly t
Step-IsOrderly {s} (acknowledged ack) i = record {
  numbered = handle_ack-IsNumbered ack s.handle i.numbered;
  holds = i.holds;
}
Step-IsOrderly {s} (numbered base exempt ack) i = record {
  numbered = persist_remote_command-IsNumbered base exempt ack s.handle i.numbered;
  holds = i.holds;
}
Step-IsOrderly {s} (transmitted p) i = record {
  numbered = transmit_remote_command-IsNumbered p s.handle i.numbered;
  holds = i.holds;
}
Step-IsOrderly {s} attached i = record {
  numbered = attach_transport-IsNumbered s.handle i.numbered;
  holds = i.holds;
}
Step-IsOrderly {s} (turned o) i = record {
  numbered = take_turn-IsNumbered o s.handle i.numbered;
  holds = i.holds;
}
Step-IsOrderly {s} timed_out i = record {
  numbered = handle_ack_timeout-IsNumbered s.handle i.numbered;
  holds = i.holds;
}
Step-IsOrderly {s} (retransmitted o) i = record {
  numbered = retransmit_pending-IsNumbered o s.handle i.numbered;
  holds = i.holds;
}
Step-IsOrderly {s} given_up i = record {
  numbered = give_up-IsNumbered s.handle i.numbered;
  holds = i.holds;
}
Step-IsOrderly {s} put_on_hold i = record {
  numbered = hold_for_restart-IsNumbered s.handle i.numbered;
  holds = i.holds;
}
Step-IsOrderly {s} released i = record {
  numbered = release_restart_hold-IsNumbered s.handle i.numbered;
  holds = i.holds;
}
Step-IsOrderly {s} (peer_restart_persisted q) i = record {
  numbered = persist_peer_restart-IsNumbered s.handle q i.numbered;
  holds = i.holds;
}
Step-IsOrderly {s} peer_restart_finalized i = record {
  numbered = finalize_peer_restart-IsNumbered s.handle i.numbered;
  holds = i.holds;
}
Step-IsOrderly {s} (offered ack seq) i = record {
  numbered = receive_from_peer-IsNumbered ack seq s.handle i.numbered;
  holds = i.holds;
}
Step-IsOrderly {s} (received redeem e c q) i = record {
  numbered =
      deliver_inbound-IsNumbered redeem e c (record { queue = q; handle = s.handle }) i.numbered;
  holds = i.holds;
}
Step-IsOrderly {s} (followed a) i = record {
  numbered = after_commit-IsNumbered a s.handle i.numbered;
  holds = i.holds;
}
Step-IsOrderly {s} (redeemed url) i = record {
  numbered = redeem_ocap_url-IsNumbered url s.handle i.numbered;
  holds = i.holds;
}
Step-IsOrderly {s} (redemption_forgotten key) i = record {
  numbered =
      moved-IsNumbered s.handle _ refl i.numbered.window i.numbered.sent_below i.numbered.waiting
        i.numbered;
  holds = i.holds;
}
Step-IsOrderly {s} (reaped base) i = record {
  numbered = deliver_bring_out_your_dead-IsNumbered base s.handle i.numbered;
  holds = i.holds;
}
Step-IsOrderly {s} acknowledged_alone i = record {
  numbered =
      moved-IsNumbered s.handle (clear_delayed_ack s.handle) refl i.numbered.window
        i.numbered.sent_below i.numbered.waiting i.numbered;
  holds = i.holds;
}
Step-IsOrderly {s} redemptions_rejected i = record {
  numbered =
      moved-IsNumbered s.handle (reject_pending_redemptions s.handle) refl i.numbered.window
        i.numbered.sent_below i.numbered.waiting i.numbered;
  holds = i.holds;
}
Step-IsOrderly {s} cleaned_up i = record {
  numbered = cleanup-IsNumbered s.handle i.numbered;
  holds = i.holds;
}
Step-IsOrderly {s} committed i = record {
  numbered = i.numbered;
  holds = HoldWindow-stored s.handle i.numbered.stored;
}
Step-IsOrderly {s} rolled_back i = record {
  numbered =
      rows-IsNumbered s.handle s.committed
        (stored-HoldWindow (record s.handle { rows = s.committed }) i.holds) i.numbered;
  holds = i.holds;
}
Step-IsOrderly {s} (restarted t) i = record {
  numbered = make-IsNumbered t s.committed i.holds;
  holds = i.holds;
}

-- What a session comes to from a store that has no row of the remote
pub data Reach : Session → Type 0 where
  opened : (t : Bool) → Reach (record { handle = make t no_rows; committed = no_rows })
  later : {s t : Session} → Reach s → Step s t → Reach t

pub Reach-IsOrderly : {s : Session} → Reach s → IsOrderly s
Reach-IsOrderly (opened t) = record {
  numbered = make-IsNumbered t no_rows (omega arith);
  holds = omega arith;
}
Reach-IsOrderly (later r st) = Step-IsOrderly st (Reach-IsOrderly r)
