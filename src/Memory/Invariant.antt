-- ===== src/Memory/Invariant.antt =====
-- The invariant of the cache, kept by every interleaving.
use idempotent_proxy.Prelude.{
  ℕ, ◌<◌, ◌≡◌, ◌≢◌, inl, inr, String, List, [], ◌∷◌, arith, eq_iff, some, Option-cases, Bool-cases,
  str_eq, ltb, leb, lookup, insert, remove, lookup-insert, lookup-remove, Member, ap, sym,
}
use idempotent_proxy.Memory.{
  PriorityKey, MemoryCacher, entry_key, deadline, obtain, set, del, polling_round, run_cleaner,
  clean_expired_values, queue_insert, queue_remove,
}
use idempotent_proxy.Memory.Queue.{
  IsSorted, Member-queue_insert_self, Member-queue_insert, Member-queue_remove,
  queue_insert-IsSorted, queue_remove-IsSorted,
}
use idempotent_proxy.Memory.Cleaning.{
  run_cleaner-IsSorted, Member-run_cleaner, lookup-run_cleaner_expired, lookup_of_run_cleaner,
}
use idempotent_proxy.Memory.Lookups.{polling_round-kv, polling_round-queue}
use idempotent_proxy.Memory.Runs.{Event, obtains, sets, dels, polls, cleans, apply, run}

-- The queue is sorted, and it holds each entry of the map under the entry's expiry.
pub record IsValid (s : MemoryCacher) : Type 0 where
  pub sorted : IsSorted s.priority_queue
  pub covered :
      (k : String) (e : ℕ) (v : List ℕ)
      → lookup k s.kv ≡ some (e, v)
      → Member (entry_key e k) s.priority_queue

-- Inserting an entry in both, where the queue lost entries of the same key at most.
covered-insert :
    (key : String) (e' : ℕ) (v' : List ℕ) (kv : List (String × (ℕ × List ℕ)))
    (pq : List PriorityKey)
    → ((k : String) (e : ℕ) (v : List ℕ)
        → key ≢ k
        → lookup k kv ≡ some (e, v)
        → Member (entry_key e k) pq)
    → (k : String) (e : ℕ) (v : List ℕ) → lookup k (insert key (e', v') kv) ≡ some (e, v)
    → Member (entry_key e k) (queue_insert (entry_key e' key) pq)
covered-insert key e' v' kv pq others k e v h = elim (Bool-cases (str_eq key k)) [
  | inl same ↦ ground (
    arith,
    eq_iff key k,
    lookup-insert key k (e', v') kv,
    Member-queue_insert_self (entry_key e' key) pq,
  )
  | inr other ↦ ground (
    arith,
    eq_iff key k,
    lookup-insert key k (e', v') kv,
    others k e v,
    Member-queue_insert (entry_key e' key) (entry_key e k) pq,
  )
]

module _ {s : MemoryCacher} (valid : IsValid s) where
  covered_other :
      (key : String) (old : ℕ) (k : String) (e : ℕ) (v : List ℕ)
      → key ≢ k
      → lookup k s.kv ≡ some (e, v)
      → Member (entry_key e k) (queue_remove (entry_key old key) s.priority_queue)
  covered_other key old k e v ne h =
      Member-queue_remove (entry_key old key) (entry_key e k) s.priority_queue
        (λ p. ne (sym (ap (λ (q : PriorityKey). q.key) p))) (valid.covered k e v h)

  -- What `obtain` and `set` do to a live or vacant entry.
  replaced-IsValid :
      (key : String) (old e' : ℕ) (v' : List ℕ)
      → IsValid (record s {
        kv = insert key (e', v') s.kv;
        priority_queue =
            queue_insert (entry_key e' key) (queue_remove (entry_key old key) s.priority_queue);
      })
  replaced-IsValid key old e' v' = record {
    sorted = queue_insert-IsSorted _ _ (queue_remove-IsSorted _ _ valid.sorted);
    covered = covered-insert key e' v' s.kv _ (covered_other key old);
  }

  inserted-IsValid :
      (key : String) (e' : ℕ) (v' : List ℕ)
      → IsValid (record s {
        kv = insert key (e', v') s.kv;
        priority_queue = queue_insert (entry_key e' key) s.priority_queue;
      })
  inserted-IsValid key e' v' = record {
    sorted = queue_insert-IsSorted _ _ valid.sorted;
    covered = covered-insert key e' v' s.kv _ (λ k e v ne h. valid.covered k e v h);
  }

  removed-IsValid :
      (key : String) (old n : ℕ)
      → IsValid (record s {
        kv = remove key s.kv;
        priority_queue = queue_remove (entry_key old key) s.priority_queue;
        cleaners = n;
      })
  removed-IsValid key old n = record {
    sorted = queue_remove-IsSorted _ _ valid.sorted;
    covered = λ k e v h.
        ground (arith, eq_iff key k, lookup-remove key k s.kv, covered_other key old k e v);
  }

  pub obtain-IsValid : (now : ℕ) (key : String) (ttl : ℕ) → IsValid (obtain now key ttl s).0
  unfolding obtain
  obtain-IsValid now key ttl = elim (Option-cases (lookup key s.kv)) [
    | inl vacant ↦ rw (vacant, obtain) (inserted-IsValid key (deadline now ttl) [])
    | inr ((expire_at, value), found) ↦ elim (Bool-cases (ltb now expire_at)) [
      | inl busy ↦ rw (found, obtain) (rw busy valid)
      | inr expired ↦
          rw (found, obtain) (rw expired (replaced-IsValid key expire_at (deadline now ttl) []))
    ]
  ]

  pub set-IsValid :
      (now : ℕ) (key : String) (val : List ℕ) (ttl : ℕ) → IsValid (set now key val ttl s).0
  unfolding set clean_expired_values
  set-IsValid now key val ttl = elim (Option-cases (lookup key s.kv)) [
    | inl vacant ↦ rw (vacant, set) valid
    | inr ((expire_at, value), found) ↦ elim (Bool-cases (leb expire_at now)) [
      | inl expired ↦
          rw (found, set)
            (rw expired (record {
              sorted = valid.sorted;
              covered = λ k e v h. ground (arith, lookup-remove key k s.kv, valid.covered k e v);
            }))
      | inr fresh ↦
          rw (found, set) (rw fresh (replaced-IsValid key expire_at (deadline now ttl) val))
    ]
  ]

  pub del-IsValid : (key : String) → IsValid (del key s).0
  unfolding del clean_expired_values
  del-IsValid key = elim (Option-cases (lookup key s.kv)) [
    | inl vacant ↦ rw (vacant, del) (record { sorted = valid.sorted; covered = valid.covered })
    | inr ((expire_at, value), found) ↦ rw (found, del) (removed-IsValid key expire_at _)
  ]

  pub polling_round-IsValid : (now : ℕ) (key : String) → IsValid (polling_round now key s).0
  polling_round-IsValid now key = record {
    sorted = rw (polling_round-queue key s now) valid.sorted;
    covered = λ k e v h.
        rw (polling_round-queue key s now)
          (valid.covered k e v (rw (polling_round-kv key s now) at h));
  }

  -- A cleaner drops no live entry's key from the queue, and drops the key of an expired one.
  pub run_cleaner-IsValid : (now : ℕ) → IsValid (run_cleaner now s)
  run_cleaner-IsValid now = record {
    sorted = run_cleaner-IsSorted now s valid.sorted;
    covered = λ k e v h. ground (
      arith,
      lookup_of_run_cleaner now s k,
      valid.covered k e v,
      lookup-run_cleaner_expired now s (entry_key e k) valid.sorted,
      Member-run_cleaner now s (entry_key e k),
    );
  }

  pub apply-IsValid : (now : ℕ) (e : Event) → IsValid (apply now e s)
  unfolding apply
  apply-IsValid now (obtains key ttl) = obtain-IsValid now key ttl
  apply-IsValid now (sets key val ttl) = set-IsValid now key val ttl
  apply-IsValid now (dels key) = del-IsValid key
  apply-IsValid now (polls key) = polling_round-IsValid now key
  apply-IsValid now cleans = run_cleaner-IsValid now

-- Every interleaving of the operations, at any times, keeps the invariant: the queue stays sorted
-- by expiry and holds each entry of the map under its expiry.
pub run-IsValid :
    (events : List (ℕ × Event)) (s : MemoryCacher) → IsValid s → IsValid (run events s)
unfolding run
run-IsValid [] s valid = valid
run-IsValid ((now, e) ∷ events) s valid =
    run-IsValid events (apply now e s) (apply-IsValid valid now e)

-- On a valid cache a cleaner leaves no expired entry in the map.
pub run_cleaner-live :
    (now : ℕ) (s : MemoryCacher) (k : String) (e : ℕ) (v : List ℕ)
    → IsValid s
    → lookup k (run_cleaner now s).kv ≡ some (e, v)
    → now < e
run_cleaner-live now s k e v valid h = ground (
  arith,
  lookup_of_run_cleaner now s k,
  valid.covered k e v,
  lookup-run_cleaner_expired now s (entry_key e k) valid.sorted,
)
