-- ===== src/Lib.antt =====
-- The kernel of the Ocap Kernel: the store of an object-capability kernel that runs vats and talks to
-- remote kernels. All paths are below packages/ocap-kernel/src.
--
-- The kernel names objects and promises by krefs (`ko12`, `kp3`). Each endpoint (a vat or a remote)
-- has a capability list (c-list) that maps krefs to its own erefs (`o+0`, `p-7`, `ro+1`) and back. The
-- store counts, for each object, how many holders reach it and how many recognize it, and for each
-- promise how many refer to it. The holders are c-list entries, queued and buffered messages,
-- unsettled promises, the values of settled ones, and pins. When a count comes down to zero the kref
-- becomes a candidate that garbage collection takes up.
--
-- Refs: references and endpoint identifiers (types.ts, store/utils). A number stands for its decimal
--   spelling; Text/Decimal writes it out where the code sorts strings, and Text/Order is the sort.
-- Dict: an association list for a family of rows of the key-value store. Exec: state and exceptions;
--   what was written before a throw stays written.
-- Store/State: all rows of the store and the fields of `StoreContext` in memory (store/types.ts).
-- Store/Object, Store/RefCount, Store/Reachable, Store/CList, Store/Pinned, Store/Revocation,
--   Store/Promise, Store/Translate: the methods of the file of store/methods that has the same name
--   (object.ts, refcount.ts, reachable.ts, clist.ts, pinned.ts, revocation.ts, promise.ts,
--   translators.ts), one definition for each, in the code's words (`addCListEntry` is
--   `add_clist_entry`). Store/Counts holds the numbers that `setObjectRefCount` refuses when negative.
-- Store/Vat: importers, terminated vats and exports (store/methods/vat.ts).
-- Store/Subclusters: the subclusters and the vats in them (store/methods/subclusters.ts), with what their
--   changes keep (Membership).
-- Store/Gc and Store/Collect: store/methods/gc.ts, the second for `collectGarbage`.
-- Store/GcHandlers, Store/GcSchedule: garbage-collection/gc-handlers.ts and garbage-collection.ts.
-- Store/Audit: the audit of store/methods/refcount-audit.ts as a sum of credits (Weights), the
--   invariant that it checks (Laws), and the methods under it: reachable flags (Flags), c-list entries
--   (CList, from Rows for new rows, Entries for rewritten ones and Removal for deleted ones), pins.
-- Store/Audit/Keeps, Handlers, Delivery, Naming: the audit through whole syscalls and deliveries.
-- Store/Audit/Shares, Hand, Messages, Reheld, Resolve, Settling: the references that a method has in hand while
--   they are no row's, as between taking an item from the run queue and giving its references back.
--   The invariant counts them too, so each method says what it takes in hand and what it gives back.
-- Store/Scheduling, Store/Idle: the actions through `processGCActionSet`.
-- Crank: store/methods/crank.ts (Savepoints), over a database that is a parameter, with what a rollback
--   and the end of a crank leave in memory (Rollback, Caches).
-- Kernel/State, Kernel/Enqueue, Kernel/Arrivals, Kernel/Held: KernelQueue.ts over the store (its
--   subscriptions, what arrives from peers and from the host, and the state of the run loop), with the
--   stored run queue as its list.
--   Kernel/Router and Kernel/Notify: the routing and delivery of sends and of notifications
--   (KernelRouter.ts). References, Resolving, Resolution and Groups are on what the queue does to
--   the counts, Subscribers, FlushItems and Flush on the flush of the crank buffer, ArrivalBounds and
--   Turns on arrivals and the choice of the next item, and Routing, Undeliverable, Services and
--   Notifying on whole deliveries; Ingress is on messages from the host.
-- Remotes/RateLimiter, Remotes/Reconnection: remotes/platform/rate-limiter.ts and reconnection.ts, with
--   the clock as an argument; RateBounds, Failures and Streaks are on what they promise.
-- Remotes/Handle: the session with one peer, remotes/kernel/RemoteHandle.ts over the rows of
--   store/methods/remote.ts. Rows has those rows, State the fields of the handle with its windows of
--   numbers, its timers and its start-up (`restorePersistedState` is `restore_persisted_state`), Acks the
--   acknowledgements and the ways in which a session is given up or starts over, Sending the numbering
--   of messages, Transmit and Retransmit the way to the transport, Deliveries and Inbound what comes
--   from the peer. The chain of promises on which sends wait for their turn is a list of them, with a
--   step that takes the next turn; what a send comes to is an argument of that step. Rounds, Flushing,
--   Recovery, Acknowledged, Windows, Numbered, Runs, Restarts, Steps, Reception, Sessions, Delivered,
--   Receipts, Kept, KeptTurns, Taken, Lasting, Once and Counted are on what they promise: Sessions has
--   the sequences of operations, with deliveries, commits, rollbacks and restarts, that a handle can go
--   through, and Lasting those of them that stay in one session with the peer.
-- Vats/Syscalls: vats/VatSyscall.ts, from the translation of a syscall to what the vat is told
--   (Syscalled).
-- Text/Slots: store/utils/parse-ref.ts on lists of code points.
-- Queue: the stored queues of store/methods/base.ts (Stored, Contents), and the run queue of
--   store/methods/queue.ts with its count in memory (Run, RunLength).
--
-- Fuel: the loop of a queue's `delete` has one more round than entries. `collectGarbage` has a round
-- for each candidate and for each slot of a promise's value, since only a deleted value adds
-- candidates. `getKpidsToRetire` has one level for each promise and one more, since every level of the
-- recursion takes up a promise that was not seen before. The loop of `handleAck` has a round for each
-- number up to the next one, and that of `flushTransmitQueue` one for each number and each message that
-- waits; both are shown to be enough.
--
-- Not modelled: log lines and their tags, JSON and the decimal spelling of rows, the database, the
-- loop that runs the cranks, other deliveries, the workers of vats, what callers of redemptions are told,
-- and the network. A timer of a remote handle is whether it is armed. What
-- the router calls (endpoints, services, marshalling) is a parameter, and theorems name what they ask of it.
-- Store counters are natural numbers without a bound, where the code uses double precision numbers.
pub mod Prelude
pub mod Dict
pub mod Refs
pub mod Exec
pub mod Text
pub mod Queue
pub mod Store
pub mod Crank
pub mod Kernel
pub mod Remotes
pub mod Vats
pub mod Tests
