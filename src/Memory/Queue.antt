-- ===== src/Memory/Queue.antt =====
-- The sorted list behind the `BTreeSet`: order and membership after insert and remove.
use text.Mathlib.TextEquality.{path_by_compare}
use idempotent_proxy.Prelude.{
  ℕ, ◌≤◌, ◌≡◌, refl, ◌≢◌, ◌⊎◌, inl, List, [], ◌∷◌, arith, All, Member, eq_iff, Ordering, true, ◌↔◌,
}
use idempotent_proxy.Memory.{PriorityKey, priority_compare, priority_eq, queue_insert, queue_remove}

-- Sorted by expiry.
abbrev pub IsSorted : List PriorityKey → Type 0
IsSorted [] = Unit
IsSorted (p ∷ pq) = All (λ q. p.expire_at ≤ q.expire_at) pq × IsSorted pq

priority_eq_iff : (p q : PriorityKey) → (priority_eq p q ≡ true) ↔ (p ≡ q)
priority_eq_iff p q = ground (arith, eq_iff p.key q.key)

eq_of_priority_compare : (p q : PriorityKey) → priority_compare p q ≡ Ordering.eq → p ≡ q
eq_of_priority_compare p q h = ground (arith, path_by_compare p.key q.key)

pub Member-queue_insert_self :
    (p : PriorityKey) (pq : List PriorityKey) → Member p (queue_insert p pq)
unfolding queue_insert
Member-queue_insert_self p [] = inl refl
Member-queue_insert_self p (q ∷ pq) =
    ground (arith, eq_of_priority_compare p q, Member-queue_insert_self p pq)

pub Member-queue_insert :
    (p q : PriorityKey) (pq : List PriorityKey) → Member q pq → Member q (queue_insert p pq)
unfolding queue_insert
Member-queue_insert p q [] m = absurd m
Member-queue_insert p q (r ∷ pq) m = ground (arith, Member-queue_insert p q pq)

pub Member-of_queue_insert :
    (p q : PriorityKey) (pq : List PriorityKey)
    → Member q (queue_insert p pq)
    → (q ≡ p) ⊎ Member q pq
unfolding queue_insert
Member-of_queue_insert p q [] m = m
Member-of_queue_insert p q (r ∷ pq) m = ground (arith, Member-of_queue_insert p q pq)

pub Member-queue_remove :
    (p q : PriorityKey) (pq : List PriorityKey) → q ≢ p → Member q pq → Member q (queue_remove p pq)
unfolding queue_remove
Member-queue_remove p q [] ne m = m
Member-queue_remove p q (r ∷ pq) ne m =
    ground (arith, priority_eq_iff r p, Member-queue_remove p q pq ne)

pub Member-of_queue_remove :
    (p q : PriorityKey) (pq : List PriorityKey)
    → Member q (queue_remove p pq)
    → (q ≢ p) × Member q pq
unfolding queue_remove
Member-of_queue_remove p q [] m = absurd m
Member-of_queue_remove p q (r ∷ pq) m =
    ground (arith, priority_eq_iff r p, Member-of_queue_remove p q pq)

All-queue_insert :
    (n : ℕ) (p : PriorityKey) (pq : List PriorityKey)
    → n ≤ p.expire_at
    → All (λ q. n ≤ q.expire_at) pq
    → All (λ q. n ≤ q.expire_at) (queue_insert p pq)
unfolding queue_insert
All-queue_insert n p [] h a = (h, tt)
All-queue_insert n p (q ∷ pq) h a = ground (arith, All-queue_insert n p pq h)

All-le_trans :
    (m n : ℕ) (pq : List PriorityKey)
    → m ≤ n
    → All (λ q. n ≤ q.expire_at) pq
    → All (λ q. m ≤ q.expire_at) pq
All-le_trans m n [] h a = tt
All-le_trans m n (q ∷ pq) h a = (omega arith, All-le_trans m n pq h a.1)

pub queue_insert-IsSorted :
    (p : PriorityKey) (pq : List PriorityKey) → IsSorted pq → IsSorted (queue_insert p pq)
unfolding queue_insert
queue_insert-IsSorted p [] s = (tt, tt)
queue_insert-IsSorted p (q ∷ pq) s = ground (
  arith,
  All-le_trans p.expire_at q.expire_at pq,
  All-queue_insert q.expire_at p pq,
  queue_insert-IsSorted p pq,
)

All-queue_remove :
    (n : ℕ) (p : PriorityKey) (pq : List PriorityKey)
    → All (λ q. n ≤ q.expire_at) pq
    → All (λ q. n ≤ q.expire_at) (queue_remove p pq)
unfolding queue_remove
All-queue_remove n p [] a = tt
All-queue_remove n p (q ∷ pq) a = ground (arith, All-queue_remove n p pq)

pub queue_remove-IsSorted :
    (p : PriorityKey) (pq : List PriorityKey) → IsSorted pq → IsSorted (queue_remove p pq)
unfolding queue_remove
queue_remove-IsSorted p [] s = tt
queue_remove-IsSorted p (q ∷ pq) s =
    ground (arith, All-queue_remove q.expire_at p pq, queue_remove-IsSorted p pq)

-- What is put back in front of a sorted list stays in front.
pub expire_of_Member :
    (n : ℕ) (q : PriorityKey) (pq : List PriorityKey)
    → All (λ p. n ≤ p.expire_at) pq
    → Member q pq
    → n ≤ q.expire_at
expire_of_Member n q [] a m = absurd m
expire_of_Member n q (p ∷ pq) a m = ground (arith, expire_of_Member n q pq)
