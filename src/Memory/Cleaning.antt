-- ===== src/Memory/Cleaning.antt =====
-- The loop of the spawned cleaner.
use idempotent_proxy.Prelude.{
  ℕ, ◌≤◌, ◌<◌, ◌≡◌, refl, ◌⊎◌, inl, inr, String, List, [], ◌∷◌, arith, Member, eq_iff, none,
  Bool-cases, ltb, lookup, remove, lookup-remove,
}
use idempotent_proxy.Memory.{PriorityKey, MemoryCacher, Kv, clean_loop, run_cleaner}
use idempotent_proxy.Memory.Queue.{
  IsSorted, Member-queue_insert_self, Member-queue_insert, Member-of_queue_insert,
  queue_insert-IsSorted, expire_of_Member,
}

clean_loop-IsSorted :
    (now : ℕ) (pq : List PriorityKey) (kv : Kv) → IsSorted pq → IsSorted (clean_loop now pq kv).0
unfolding clean_loop
clean_loop-IsSorted now [] kv s = tt
clean_loop-IsSorted now (p ∷ pq) kv s =
    ground (arith, queue_insert-IsSorted p pq, clean_loop-IsSorted now pq (remove p.key kv))

-- The loop keeps the queue's entries that have not expired.
Member-clean_loop :
    (now : ℕ) (pq : List PriorityKey) (kv : Kv) (q : PriorityKey)
    → Member q pq
    → now < q.expire_at
    → Member q (clean_loop now pq kv).0
unfolding clean_loop
Member-clean_loop now [] kv q m h = absurd m
Member-clean_loop now (p ∷ pq) kv q m h = ground (
  arith,
  Member-queue_insert p q pq,
  Member-queue_insert_self p pq,
  Member-clean_loop now pq (remove p.key kv) q,
)

-- It keeps no other, since the queue is sorted.
Member-of_clean_loop :
    (now : ℕ) (pq : List PriorityKey) (kv : Kv) (q : PriorityKey)
    → IsSorted pq
    → Member q (clean_loop now pq kv).0
    → Member q pq × (now < q.expire_at)
unfolding clean_loop
Member-of_clean_loop now [] kv q s m = absurd m
Member-of_clean_loop now (p ∷ pq) kv q s m = ground (
  arith,
  Member-of_queue_insert p q pq,
  expire_of_Member p.expire_at q pq,
  Member-of_clean_loop now pq (remove p.key kv) q,
)

lookup-clean_loop_of_none :
    (now : ℕ) (pq : List PriorityKey) (kv : Kv) (k : String)
    → lookup k kv ≡ none
    → lookup k (clean_loop now pq kv).1 ≡ none
unfolding clean_loop
lookup-clean_loop_of_none now [] kv k h = h
lookup-clean_loop_of_none now (p ∷ pq) kv k h =
    ground (arith, lookup-remove p.key k kv, lookup-clean_loop_of_none now pq (remove p.key kv) k)

-- A key with an expired entry in the queue is dropped, whatever the map holds for it.
lookup-clean_loop_expired :
    (now : ℕ) (pq : List PriorityKey) (kv : Kv) (q : PriorityKey)
    → IsSorted pq
    → Member q pq
    → q.expire_at ≤ now
    → lookup q.key (clean_loop now pq kv).1 ≡ none
unfolding clean_loop
lookup-clean_loop_expired now [] kv q s m h = absurd m
lookup-clean_loop_expired now (p ∷ pq) kv q s m h = ground (
  arith,
  eq_iff p.key q.key,
  expire_of_Member p.expire_at q pq,
  lookup-remove p.key q.key kv,
  lookup-clean_loop_of_none now pq (remove p.key kv) q.key,
  lookup-clean_loop_expired now pq (remove p.key kv) q,
)

-- A key none of whose entries in the queue has expired is left alone.
lookup-clean_loop_live :
    (now : ℕ) (pq : List PriorityKey) (kv : Kv) (k : String)
    → ((q : PriorityKey) → Member q pq → q.key ≡ k → now < q.expire_at)
    → lookup k (clean_loop now pq kv).1 ≡ lookup k kv
unfolding clean_loop
lookup-clean_loop_live now [] kv k live = refl
lookup-clean_loop_live now (p ∷ pq) kv k live = elim (Bool-cases (ltb now p.expire_at)) [
  | inl stop ↦ ground arith
  | inr expired ↦ ground (
    arith,
    eq_iff p.key k,
    live p (inl refl),
    lookup-remove p.key k kv,
    lookup-clean_loop_live now pq (remove p.key kv) k (λ q m. live q (inr m)),
  )
]

-- What the map holds after the loop, it held before.
lookup_of_clean_loop :
    (now : ℕ) (pq : List PriorityKey) (kv : Kv) (k : String)
    → (lookup k (clean_loop now pq kv).1 ≡ none) ⊎ (lookup k (clean_loop now pq kv).1 ≡ lookup k kv)
unfolding clean_loop
lookup_of_clean_loop now [] kv k = inr refl
lookup_of_clean_loop now (p ∷ pq) kv k =
    ground (arith, lookup-remove p.key k kv, lookup_of_clean_loop now pq (remove p.key kv) k)

module _ (now : ℕ) (s : MemoryCacher) where
  pub run_cleaner-IsSorted : IsSorted s.priority_queue → IsSorted (run_cleaner now s).priority_queue
  unfolding run_cleaner
  run_cleaner-IsSorted h = clean_loop-IsSorted now s.priority_queue s.kv h

  pub Member-run_cleaner :
      (q : PriorityKey)
      → Member q s.priority_queue
      → now < q.expire_at
      → Member q (run_cleaner now s).priority_queue
  unfolding run_cleaner
  Member-run_cleaner q m h = Member-clean_loop now s.priority_queue s.kv q m h

  pub Member-of_run_cleaner :
      (q : PriorityKey)
      → IsSorted s.priority_queue
      → Member q (run_cleaner now s).priority_queue
      → Member q s.priority_queue × (now < q.expire_at)
  unfolding run_cleaner
  Member-of_run_cleaner q sorted m = Member-of_clean_loop now s.priority_queue s.kv q sorted m

  pub lookup-run_cleaner_expired :
      (q : PriorityKey)
      → IsSorted s.priority_queue
      → Member q s.priority_queue
      → q.expire_at ≤ now
      → lookup q.key (run_cleaner now s).kv ≡ none
  unfolding run_cleaner
  lookup-run_cleaner_expired q sorted m h =
      lookup-clean_loop_expired now s.priority_queue s.kv q sorted m h

  pub lookup-run_cleaner_live :
      (k : String)
      → ((q : PriorityKey) → Member q s.priority_queue → q.key ≡ k → now < q.expire_at)
      → lookup k (run_cleaner now s).kv ≡ lookup k s.kv
  unfolding run_cleaner
  lookup-run_cleaner_live k live = lookup-clean_loop_live now s.priority_queue s.kv k live

  pub lookup_of_run_cleaner :
      (k : String)
      → (lookup k (run_cleaner now s).kv ≡ none) ⊎ (lookup k (run_cleaner now s).kv ≡ lookup k s.kv)
  unfolding run_cleaner
  lookup_of_run_cleaner k = lookup_of_clean_loop now s.priority_queue s.kv k
