-- ===== src/Tests/Queues.antt =====
-- The theorems on stored queues and on subclusters, at short lists.
use ocap_kernel.Prelude.{refl, arith, nat_eq, ℕ, ◌≡◌, none, some, [], ◌∷◌}
use ocap_kernel.Store.Membership.{joined, Change-IsPlaced, IsPlaced}
use ocap_kernel.Refs.{vat}
use ocap_kernel.Store.State.{empty_store, Store}
use ocap_kernel.Store.Subclusters.{add_subcluster_vat, find_subcluster, string_eq}
use ocap_kernel.Dict.{get}
use ocap_kernel.Queue.Contents.{Holds, provide-Holds, enqueue-Holds}
use ocap_kernel.Exec.{ok}
use ocap_kernel.Queue.Stored.{Queue, enqueue, provide_stored_queue}
use ocap_kernel.Store.Counts.{negsuc}
use ocap_kernel.Queue.Run.{RunQueue}
use ocap_kernel.Queue.RunLength.{
  Counts, replies, replies-Counts, added, taken, count, measures, enqueues, dequeues,
}

abbrev new_queue : Queue ℕ
new_queue = provide_stored_queue (record { head = none; tail = none; entries = [] })

abbrev one_entry : Queue ℕ
one_entry = (enqueue 7 new_queue).1

one_entry-Holds : Holds one_entry (7 ∷ [])
one_entry-Holds = (enqueue-Holds new_queue [] 7 provide-Holds).1

abbrev one_entry_run : RunQueue ℕ
one_entry_run = record { queue = one_entry; length_cache = negsuc 0 }

one_entry_run-Counts : Counts one_entry_run (7 ∷ [])
one_entry_run-Counts = record { holds = one_entry-Holds; exact = λ n h. ground (arith, h) }

replies-Counts_example :
    replies (dequeues ∷ dequeues ∷ measures ∷ enqueues 8 ∷ measures ∷ []) one_entry_run
    ≡ taken (ok (some 7)) ∷ taken (ok none) ∷ count (ok 0) ∷ added (ok tt) ∷ count (ok 1) ∷ []
replies-Counts_example =
    replies-Counts (dequeues ∷ dequeues ∷ measures ∷ enqueues 8 ∷ measures ∷ []) one_entry_run
      (7 ∷ []) one_entry_run-Counts

-- A subcluster with one vat
abbrev one_member : Store
one_member = record empty_store {
  subclusters = record { id = 1; vats = ("alice", vat 1) ∷ [] } ∷ [];
  next_subcluster_id = 2;
  vat_to_subcluster = (vat 1, 1) ∷ [];
}

one_member-IsPlaced : IsPlaced one_member
unfolding get find_subcluster
one_member-IsPlaced v id q = ground (arith, q)

Change-IsPlaced_example : IsPlaced (add_subcluster_vat 1 "bob" (vat 2) one_member).1
unfolding find_subcluster get
Change-IsPlaced_example =
    Change-IsPlaced one_member (add_subcluster_vat 1 "bob" (vat 2) one_member).1 one_member-IsPlaced
      (joined 1 "bob" (vat 2) refl)
