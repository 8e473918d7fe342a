-- ===== src/Remotes/Handle/Counted.antt =====
-- What the deliveries of a peer do to the reference counts.
use ocap_kernel.Refs.{ko, kp, export_, import_, Direction, ERef, EndpointId, KRef}
use ocap_kernel.Store.Audit.Weights.{expected_reachable, expected_recognizable}
use ocap_kernel.Store.Audit.Handlers.{
  perform_export_cleanup-IsAudited, perform_retire_imports-IsAudited,
  perform_drop_imports-IsAudited,
}
use ocap_kernel.Store.GcHandlers.{
  perform_export_cleanup, perform_retire_imports, perform_drop_imports,
}
use ocap_kernel.Remotes.Handle.Deliveries.{
  retire_exports, retire_imports, bring_out_your_dead_delivery, retire_imports_delivery, has_prefix,
  retire_exports_delivery, drop_exports_delivery, notify_delivery, drop_exports, known_kref,
  known_krefs, message_delivery, DeliveryParams, handle_remote_deliver,
}
use ocap_kernel.Store.Audit.Keeps.{require-Keeps, map_each-Keeps, bind-Keeps, Keeps}
use ocap_kernel.Exec.{bad_ref, map_each, require, modify}
use ocap_kernel.Prelude.{arith, true, ◌≡◌, false, Bool, List}
use ocap_kernel.Store.Audit.Laws.{IsAudited}
use ocap_kernel.Kernel.State.{KernelQueue}
use ocap_kernel.Store.Gc.{schedule_reap}

module _ {hand : List KRef} where
  known_kref-Keeps :
      (d : Direction) (e : EndpointId) (eref : ERef) → Keeps hand (known_kref d e eref)
  unfolding known_kref
  known_kref-Keeps d e eref =
      bind-Keeps (require (has_prefix d eref) bad_ref) _ (require-Keeps (has_prefix d eref) bad_ref)
        (λ _ s a. a)

  known_krefs-Keeps :
      (d : Direction) (e : EndpointId) (erefs : List ERef) → Keeps hand (known_krefs d e erefs)
  unfolding known_krefs
  known_krefs-Keeps d e erefs =
      bind-Keeps (map_each erefs (known_kref d e)) _
        (map_each-Keeps (known_kref d e) erefs (known_kref-Keeps d e)) (λ kss s a. a)

  drop_exports-Keeps : (e : EndpointId) (erefs : List ERef) → Keeps hand (drop_exports e erefs)
  unfolding drop_exports
  drop_exports-Keeps e erefs =
      bind-Keeps (known_krefs import_ e erefs) (λ ks. perform_drop_imports ks e)
        (known_krefs-Keeps import_ e erefs) (λ ks. perform_drop_imports-IsAudited ks e)

  retire_exports-Keeps : (e : EndpointId) (erefs : List ERef) → Keeps hand (retire_exports e erefs)
  unfolding retire_exports
  retire_exports-Keeps e erefs =
      bind-Keeps (known_krefs import_ e erefs) (λ ks. perform_retire_imports ks e)
        (known_krefs-Keeps import_ e erefs) (λ ks. perform_retire_imports-IsAudited ks e)

  retire_imports-Keeps : (e : EndpointId) (erefs : List ERef) → Keeps hand (retire_imports e erefs)
  unfolding retire_imports
  retire_imports-Keeps e erefs =
      bind-Keeps (known_krefs export_ e erefs) (λ ks. perform_export_cleanup ks true e)
        (known_krefs-Keeps export_ e erefs) (λ ks. perform_export_cleanup-IsAudited ks true e)

-- A delivery about garbage collection
abbrev pub is_gc_delivery : DeliveryParams → Bool
is_gc_delivery (message_delivery target m) = false
is_gc_delivery (notify_delivery rs) = false
is_gc_delivery (drop_exports_delivery erefs) = true
is_gc_delivery (retire_exports_delivery erefs) = true
is_gc_delivery (retire_imports_delivery erefs) = true
is_gc_delivery bring_out_your_dead_delivery = true

schedule_reap-Keeps : {hand : List KRef} (e : EndpointId) → Keeps hand (modify (schedule_reap e))
unfolding schedule_reap expected_reachable expected_recognizable
schedule_reap-Keeps e s a = record {
  balanced = elim [ ko n ↦ a.balanced (ko n) | kp n ↦ a.balanced (kp n) ];
  clist_rows = a.clist_rows;
  pin_rows = a.pin_rows;
  promise_rows = a.promise_rows;
  queue_rows = a.queue_rows;
  kinds = a.kinds;
  retired = a.retired;
}

-- On an audited store, taking any garbage collection delivery of a peer keeps every count equal to the
-- references held, whatever references the peer names, and also where one of them makes it throw.
pub handle_remote_deliver-IsAudited :
    {hand : List KRef} (e : EndpointId) (d : DeliveryParams) (q : KernelQueue)
    → is_gc_delivery d ≡ true
    → IsAudited hand q.store
    → IsAudited hand (handle_remote_deliver e d q).1.store
unfolding handle_remote_deliver
handle_remote_deliver-IsAudited e (message_delivery target m) q g a = absurd (ground (arith, g))
handle_remote_deliver-IsAudited e (notify_delivery rs) q g a = absurd (ground (arith, g))
handle_remote_deliver-IsAudited e (drop_exports_delivery erefs) q g a =
    drop_exports-Keeps e erefs q.store a
handle_remote_deliver-IsAudited e (retire_exports_delivery erefs) q g a =
    retire_exports-Keeps e erefs q.store a
handle_remote_deliver-IsAudited e (retire_imports_delivery erefs) q g a =
    retire_imports-Keeps e erefs q.store a
handle_remote_deliver-IsAudited e bring_out_your_dead_delivery q g a =
    schedule_reap-Keeps e q.store a
