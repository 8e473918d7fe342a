-- ===== src/Queue/Contents.antt =====
-- A stored queue is a list, oldest entry first: what each operation does to the list.
use ocap_kernel.Prelude.{
  inr, inl, nat_beq, Bool-cases, ap, ℕ, zero, suc, ◌+◌, ◌-◌, ◌≡◌, refl, Option, none, some, List,
  [], ◌∷◌, ◌++◌, arith, nat_eq, length, ◌≤◌, ◌<◌,
}
use ocap_kernel.Exec.{err, Result, ok}
use ocap_kernel.Dict.{Dict, get, put, delete, get-put, get-delete}
use ocap_kernel.Queue.Stored.{
  Queue, enqueue, dequeue, get_queue_length, delete_queue, delete_entries, provide_stored_queue,
}

module _ {A : Type 0} where
  -- The rows from the tail up to the head are these entries, in order.
  abbrev pub Rows : Dict ℕ A → ℕ → List A → ℕ → Type 0
  Rows m t [] h = t ≡ h
  Rows m t (x ∷ xs) h = (get t m ≡ some x) × Rows m (suc t) xs h

  -- The queue holds these entries, oldest first, and no row lies outside.
  pub record Holds (q : Queue A) (xs : List A) : Type 0 where
    pub first : ℕ
    pub past : ℕ
    pub at_head : q.head ≡ some past
    pub at_tail : q.tail ≡ some first
    pub rows : Rows q.entries first xs past
    pub below_first : (n : ℕ) → n < first → get n q.entries ≡ none
    pub beyond_past : (n : ℕ) → past ≤ n → get n q.entries ≡ none

  Rows-length : (m : Dict ℕ A) (t : ℕ) (xs : List A) (h : ℕ) → Rows m t xs h → t + length xs ≡ h
  Rows-length m t [] h r = omega arith
  Rows-length m t (x ∷ xs) h r = omega (arith, Rows-length m (suc t) xs h r.1)

  Rows-put :
      (m : Dict ℕ A) (t : ℕ) (xs : List A) (h : ℕ) (a : A)
      → Rows m t xs h
      → Rows (put h a m) t (xs ++ a ∷ []) (suc h)
  Rows-put m t [] h a r = ground (arith, get-put h t a m)
  Rows-put m t (x ∷ xs) h a r =
      ground (arith, get-put h t a m, Rows-put m (suc t) xs h a r.1, Rows-length m (suc t) xs h r.1)

  Rows-delete :
      (m : Dict ℕ A) (d t : ℕ) (xs : List A) (h : ℕ)
      → d < t
      → Rows m t xs h
      → Rows (delete d m) t xs h
  Rows-delete m d t [] h l r = r
  Rows-delete m d t (x ∷ xs) h l r =
      ground (arith, get-delete d t m, Rows-delete m d (suc t) xs h (omega arith) r.1)

module _ {A : Type 0} where
  -- A provided queue is empty if it was not there.
  pub provide-Holds :
      Holds {A = A} (provide_stored_queue (record { head = none; tail = none; entries = [] })) []
  unfolding provide_stored_queue get
  provide-Holds = record {
    first = 1;
    past = 1;
    at_head = refl;
    at_tail = refl;
    rows = refl;
    below_first = λ n l. refl;
    beyond_past = λ n l. refl;
  }

  -- What `enqueue` adds comes last, and it does not throw.
  pub enqueue-Holds :
      (q : Queue A) (xs : List A) (a : A)
      → Holds q xs
      → ((enqueue a q).0 ≡ ok tt) × Holds (enqueue a q).1 (xs ++ a ∷ [])
  unfolding enqueue
  enqueue-Holds q xs a v =
      rw (v.at_head, enqueue)
        (
          refl,
          record {
            first = v.first;
            past = suc v.past;
            at_head = ground arith;
            at_tail = v.at_tail;
            rows = Rows-put q.entries v.first xs v.past a v.rows;
            below_first = λ n l. ground (
              arith,
              get-put v.past n a q.entries,
              v.below_first n l,
              Rows-length q.entries v.first xs v.past v.rows,
            );
            beyond_past =
                λ n l. ground (arith, get-put v.past n a q.entries, v.beyond_past n (omega arith));
          },
        )

  dequeue_head :
      (q : Queue A) (x : A) (xs : List A) (v : Holds q (x ∷ xs))
      → dequeue q
        ≡ (ok (some x), record q { tail = some (v.first + 1); entries = delete v.first q.entries })
  unfolding dequeue
  dequeue_head q x xs v =
      rw (v.at_head, dequeue)
        (rw (v.at_tail, dequeue)
          (ground (arith, v.rows, Rows-length q.entries (suc v.first) xs v.past v.rows.1)))

  -- `dequeue` takes the oldest entry, and it does not throw.
  pub dequeue-Holds :
      (q : Queue A) (x : A) (xs : List A)
      → Holds q (x ∷ xs)
      → ((dequeue q).0 ≡ ok (some x)) × Holds (dequeue q).1 xs
  dequeue-Holds q x xs v = rw (dequeue_head q x xs v) (
    refl,
    record {
      first = suc v.first;
      past = v.past;
      at_head = v.at_head;
      at_tail = ground arith;
      rows = Rows-delete q.entries v.first (suc v.first) xs v.past (omega arith) v.rows.1;
      below_first = λ n l. ground (arith, get-delete v.first n q.entries, v.below_first n);
      beyond_past = λ n l. ground (arith, get-delete v.first n q.entries, v.beyond_past n l);
    },
  )

  -- On an empty queue it returns nothing and changes nothing.
  pub dequeue-empty : (q : Queue A) → Holds q [] → dequeue q ≡ (ok none, q)
  unfolding dequeue
  dequeue-empty q v = rw (v.at_head, dequeue) (rw (v.at_tail, dequeue) (ground (arith, v.rows)))

  -- `getQueueLength` of a queue that holds a list of entries is their number.
  pub get_queue_length-Holds :
      (q : Queue A) (xs : List A) → Holds q xs → get_queue_length q ≡ ok (length xs)
  unfolding get_queue_length
  get_queue_length-Holds q xs v =
      rw (v.at_head, get_queue_length)
        (rw (v.at_tail, get_queue_length)
          (ground (arith, Rows-length q.entries v.first xs v.past v.rows)))

  -- What the loop of `delete` leaves: nothing, if nothing lies outside the rows that it visits.
  delete_entries-clears :
      (fuel t h : ℕ) (m : Dict ℕ A)
      → t ≤ h
      → h < t + fuel
      → ((n : ℕ) → n < t → get n m ≡ none)
      → ((n : ℕ) → h ≤ n → get n m ≡ none)
      → (m' : Dict ℕ A) × (delete_entries fuel t h m ≡ some m') × ((n : ℕ) → get n m' ≡ none)
  unfolding delete_entries
  delete_entries-clears zero t h m l f low high = absurd (omega arith)
  delete_entries-clears (suc fuel) t h m l f low high = elim (Bool-cases (nat_beq t h)) [
    | inl e ↦ (m, rw e, λ n. ground (arith, low n, high n))
    | inr e ↦
        let (m', q, clear) =
          delete_entries-clears fuel (t + 1) h (delete t m) (ground arith) (omega arith)
            (λ n l'. ground (arith, get-delete t n m, low n))
            (λ n l'. ground (arith, get-delete t n m, high n l')) in
        (m', rw e q, clear)
  ]

  -- On a queue that holds a list of entries, `delete` ends, and leaves neither the limits nor any entry.
  pub delete_queue-Holds :
      (q : Queue A) (xs : List A)
      → Holds q xs
      → (q' : Queue A) × (delete_queue q ≡ some q')
        × (q'.head ≡ none)
        × (q'.tail ≡ none)
        × ((n : ℕ) → get n q'.entries ≡ none)
  unfolding delete_queue
  delete_queue-Holds q xs v =
      let l = Rows-length q.entries v.first xs v.past v.rows in
      let (m, e, clear) =
        delete_entries-clears (suc (v.past - v.first)) v.first v.past q.entries (omega arith)
          (omega arith) v.below_first v.beyond_past in
      (
        record { head = none; tail = none; entries = m },
        rw (v.at_head, delete_queue) (rw (v.at_tail, delete_queue) (rw e)),
        refl,
        refl,
        clear,
      )

-- A client's calls on a queue.
pub data Call (A : Type 0) : Type 0 where
  enqueues : A → Call A
  dequeues : Call A

-- Their replies on a stored queue and on a list: the entry that a `dequeue` returns.
abbrev pub reply : {A : Type 0} → Result (Option A) → Option A
reply (ok o) = o
reply (err e) = none

unfoldable pub run_queue : {A : Type 0} → List (Call A) → Queue A → List (Option A)
run_queue [] q = []
run_queue (enqueues a ∷ cs) q = run_queue cs (enqueue a q).1
run_queue (dequeues ∷ cs) q = reply (dequeue q).0 ∷ run_queue cs (dequeue q).1

abbrev pub run_list : {A : Type 0} → List (Call A) → List A → List (Option A)
run_list [] xs = []
run_list (enqueues a ∷ cs) xs = run_list cs (xs ++ a ∷ [])
run_list (dequeues ∷ cs) [] = none ∷ run_list cs []
run_list (dequeues ∷ cs) (x ∷ xs) = some x ∷ run_list cs xs

-- A stored queue that holds a list gives every history of calls the replies that a first-in
-- first-out list gives.
pub run_queue-Holds :
    {A : Type 0} (cs : List (Call A)) (q : Queue A) (xs : List A)
    → Holds q xs
    → run_queue cs q ≡ run_list cs xs
unfolding run_queue
run_queue-Holds [] q xs v = refl
run_queue-Holds (enqueues a ∷ cs) q xs v =
    run_queue-Holds cs (enqueue a q).1 (xs ++ a ∷ []) (enqueue-Holds q xs a v).1
run_queue-Holds (dequeues ∷ cs) q [] v =
    rw (dequeue-empty q v) (ap (◌∷◌ none) (run_queue-Holds cs q [] v))
run_queue-Holds (dequeues ∷ cs) q (x ∷ xs) v =
    let (e, v') = dequeue-Holds q x xs v in
    rw e (ap (◌∷◌ (some x)) (run_queue-Holds cs (dequeue q).1 xs v'))
