-- ===== src/Remotes/Handle/Inbound.antt =====
-- Taking a message of the peer in a crank of its own, and what follows its commit
-- (packages/ocap-kernel/src/remotes/kernel/RemoteHandle.ts). Redeeming a local URL, which the transport
-- does, is an argument: the kref, or what its error says.
use ocap_kernel.Store.Translate.{translate_ref_k_to_e, translate_ref_e_to_k}
use ocap_kernel.Prelude.{
  inl, nat_eq, zero, [], false, suc, inr, leb, none, true, ◌==◌, if◌then◌else◌, some, ◌+◌, ◌∷◌,
  Bool, List, ◌⊎◌, Option, ℕ,
}
use ocap_kernel.Store.State.{includes, M}
use ocap_kernel.Kernel.State.{on_store, K}
use ocap_kernel.Remotes.Handle.Deliveries.{
  bring_out_your_dead_delivery, on_handle, redeemed, text, nothing_deferred, on_queue, redeem_url,
  redeem_url_reply, ReplyValue, answers_request, completes_reply, deliver, RemoteSide,
  DeferredCompletion, RemoteMessageBase, handle_remote_deliver,
}
use ocap_kernel.Remotes.Handle.State.{
  get_ack_value, start_delayed_ack, RemoteCommand, RemoteHandle, PersistedCommand,
}
use ocap_kernel.Store.Pinned.{or_zero}
use ocap_kernel.Exec.{
  unknown_reply, ◌>>◌, bad_ref, in_restart, raise, ◌>>=◌, err, modify, ok, pure, Result, Exec,
}
use ocap_kernel.Remotes.Handle.Rows.{set_remote_highest_received_seq}
use ocap_kernel.Refs.{EndpointId, KRef}
use ocap_kernel.Remotes.Handle.Acks.{handle_ack, persist_acknowledged}
use ocap_kernel.Remotes.Handle.Sending.{persist_remote_command}
use ocap_kernel.Remotes.Handle.Transmit.{transmit_remote_command}
use Prim.Native.String.{String}

-- `#handleRedeemURLRequest`, once the transport has redeemed the URL
unfoldable pub handle_redeem_url_request : EndpointId → ℕ → KRef ⊎ String → M DeferredCompletion
handle_redeem_url_request e key (inr problem) = pure (answers_request key false (text problem))
handle_redeem_url_request e key (inl k) =
    translate_ref_k_to_e e k true >>= λ eref. pure (answers_request key true (redeemed eref))

-- `#handleRedeemURLReply`, with whether a redemption waits under the key
unfoldable pub handle_redeem_url_reply :
    EndpointId → Bool → ℕ → ReplyValue → Bool → M DeferredCompletion
handle_redeem_url_reply e success key v false = raise unknown_reply
handle_redeem_url_reply e true key (redeemed eref) true =
    translate_ref_e_to_k e eref >>= λ _. pure (completes_reply key)
handle_redeem_url_reply e true key (text t) true = raise bad_ref
handle_redeem_url_reply e false key v true = pure (completes_reply key)

-- The work of `#receiveInbound` on the kernel, by the method of the message
unfoldable pub process_inbound :
    (String → KRef ⊎ String) → EndpointId → List ℕ → RemoteMessageBase → K DeferredCompletion
unfolding handle_remote_deliver handle_redeem_url_request handle_redeem_url_reply
process_inbound redeem e waiting (deliver params) =
    handle_remote_deliver e params >>= λ _. pure nothing_deferred
process_inbound redeem e waiting (redeem_url url key) =
    on_store (handle_redeem_url_request e key (redeem url))
process_inbound redeem e waiting (redeem_url_reply success key v) =
    on_store (handle_redeem_url_reply e success key v (includes key waiting))

-- What a crank that took a message does once it is committed
pub record AfterCommit : Type 0 where
  pub seq : ℕ
  pub asked_reap : Bool
  pub reply : Option (PersistedCommand RemoteMessageBase)
  pub completion : DeferredCompletion

-- `method === 'deliver' && params[0] === 'bringOutYourDead'`
abbrev pub is_reap : RemoteMessageBase → Bool
is_reap (deliver bring_out_your_dead_delivery) = true
is_reap _ = false

abbrev pub some_reply :
    PersistedCommand RemoteMessageBase
    → Exec (RemoteHandle RemoteMessageBase) (Option (PersistedCommand RemoteMessageBase))
some_reply p = pure (some p)

-- `#persistRedeemURLReply`, where there is a request to answer
unfoldable pub persist_redeem_url_reply :
    DeferredCompletion
    → ℕ
    → Exec (RemoteHandle RemoteMessageBase) (Option (PersistedCommand RemoteMessageBase))
unfolding persist_remote_command
persist_redeem_url_reply (answers_request key success v) ack =
    persist_remote_command (redeem_url_reply success key v) true (some ack) >>= some_reply
persist_redeem_url_reply _ ack = pure none

-- `setRemoteHighestReceivedSeq`, and the acknowledgements
unfoldable pub record_receipt : ℕ → RemoteHandle RemoteMessageBase → RemoteHandle RemoteMessageBase
unfolding persist_acknowledged
record_receipt seq h =
    persist_acknowledged (record h { rows = set_remote_highest_received_seq seq h.rows })

abbrev pub what_follows :
    RemoteCommand RemoteMessageBase
    → DeferredCompletion
    → Option (PersistedCommand RemoteMessageBase)
    → Exec RemoteSide AfterCommit
what_follows c completion reply =
    pure
      (record { seq = c.seq; asked_reap = is_reap c.base; reply = reply; completion = completion })

-- `#receiveInbound`, once the message is processed
unfoldable pub write_receipt :
    RemoteCommand RemoteMessageBase → DeferredCompletion → Exec RemoteSide AfterCommit
unfolding record_receipt persist_redeem_url_reply
write_receipt c completion =
    on_handle (modify (record_receipt c.seq))
    >> on_handle (persist_redeem_url_reply completion c.seq)
    >>= what_follows c completion

-- `#receiveInbound`
unfoldable pub receive_inbound :
    (String → KRef ⊎ String)
    → EndpointId
    → RemoteCommand RemoteMessageBase
    → Exec RemoteSide AfterCommit
unfolding process_inbound write_receipt
receive_inbound redeem e c x =
    (on_queue (process_inbound redeem e x.handle.pending_redemptions c.base) >>= write_receipt c) x

abbrev pub some_after : AfterCommit → Exec RemoteSide (Option AfterCommit)
some_after a = pure (some a)

-- `deliverInbound`
unfoldable pub deliver_inbound :
    (String → KRef ⊎ String)
    → EndpointId
    → RemoteCommand RemoteMessageBase
    → Exec RemoteSide (Option AfterCommit)
unfolding receive_inbound persist_acknowledged
deliver_inbound redeem e c x =
    if leb c.seq x.handle.highest_received_seq
    then (ok none, record x { handle = persist_acknowledged x.handle })
    else (receive_inbound redeem e c >>= some_after) x

-- `Map.delete`, on the keys
unfoldable pub remove : ℕ → List ℕ → List ℕ
remove k [] = []
remove k (j ∷ js) = let rest = remove k js in if j == k then rest else j ∷ rest

-- `#completeHandleRedeemURLReply`, where there is no reply to send
unfoldable pub complete_redemption :
    DeferredCompletion → RemoteHandle RemoteMessageBase → RemoteHandle RemoteMessageBase
unfolding remove
complete_redemption (completes_reply key) h = record h {
  pending_redemptions = remove key h.pending_redemptions;
}
complete_redemption _ h = h

-- Sending the reply that was written down, or completing a redemption
abbrev pub finish_receipt :
    Option (PersistedCommand RemoteMessageBase)
    → DeferredCompletion
    → RemoteHandle RemoteMessageBase
    → Result (Unit {0}) × RemoteHandle RemoteMessageBase
finish_receipt (some p) d h = transmit_remote_command p h
finish_receipt none d h = (ok tt, complete_redemption d h)

-- The function that `#receiveInbound` returns
unfoldable pub after_commit : AfterCommit → Exec (RemoteHandle RemoteMessageBase) (Unit {0})
unfolding transmit_remote_command complete_redemption
after_commit a h =
    let h' : RemoteHandle RemoteMessageBase = record h {
      highest_received_seq = a.seq;
      remote_gc_requested = if a.asked_reap then true else h.remote_gc_requested;
    } in
    (finish_receipt a.reply a.completion >> modify start_delayed_ack) h'

-- The `catch` of `redeemOcapURL`
abbrev pub forget_failed :
    ℕ
    → Result (Unit {0}) × RemoteHandle RemoteMessageBase
    → Result ℕ × RemoteHandle RemoteMessageBase
forget_failed key (ok u, h) = (ok key, h)
forget_failed key (err e, h) =
    (err e, record h { pending_redemptions = remove key h.pending_redemptions })

-- The check of the number, and what `acceptRemoteInbound` is given
unfoldable pub offer : ℕ → Exec (RemoteHandle RemoteMessageBase) (Option (ℕ × ℕ))
offer zero h = (err bad_ref, h)
offer (suc n) h = (ok (some (suc n, h.highest_received_seq)), h)

-- `redeemOcapURL`, up to waiting for the reply: the key of the redemption
unfoldable pub redeem_ocap_url : String → Exec (RemoteHandle RemoteMessageBase) ℕ
unfolding persist_remote_command transmit_remote_command remove
redeem_ocap_url url h =
    let key = h.redemption_counter in
    let h' : RemoteHandle RemoteMessageBase = record h {
      redemption_counter = key + 1;
      pending_redemptions = key ∷ remove key h.pending_redemptions;
    } in
    if h.held_for_restart
    then (err in_restart, h)
    else forget_failed key (
        (persist_remote_command (redeem_url url key) false (get_ack_value h)
            >>= transmit_remote_command)
          h')

-- `receiveFromPeer`: the number that is offered to the kernel's queue, with the highest one received, if
-- the message is not an acknowledgement alone. A number that is not one is 0.
unfoldable pub receive_from_peer :
    Option ℕ → Option ℕ → Exec (RemoteHandle RemoteMessageBase) (Option (ℕ × ℕ))
unfolding handle_ack offer
receive_from_peer none seq = modify start_delayed_ack >> offer (or_zero seq)
receive_from_peer (some ack) none = handle_ack ack >> pure none
receive_from_peer (some ack) (some seq) = handle_ack ack >> modify start_delayed_ack >> offer seq
