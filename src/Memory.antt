-- ===== src/Memory.antt =====
-- idempotent-proxy-server/src/cache/memory.rs: the in-memory cache.
--
-- `HashMap` and `BTreeSet` are the association list `kv` and the sorted list `priority_queue`. An
-- operation holds the write lock of `kv` from its first access to its end, so it is one function
-- from the state to the state; `now` is what its call of `unix_ms` returns. `clean_expired_values`
-- only spawns a task: `cleaners` counts the tasks that are spawned and have not run, and
-- `run_cleaner` is the body of such a task, from when it holds both locks; its `now` may be older.
pub mod Queue
pub mod Cleaning
pub mod Lookups
pub mod Runs
pub mod Invariant
pub mod Held
pub mod Exclusion
pub mod Sync
pub mod Fresh
pub mod Contract
pub mod LateSet
pub mod Polling
pub mod Locks
mod Tests
use Prim.Native.String.{compare as str_compare}
use idempotent_proxy.Prelude.{
  ℕ, zero, suc, ◌+◌, ◌-◌, ◌%◌, compare, Ordering, String, Bool, true, false, Option, none, some,
  List, [], ◌∷◌, ltb, leb, if◌then◌else◌, str_eq, ◌==◌, ◌&&◌, is_empty, lookup, insert, remove,
  Result, ok, err, u64_mod,
}

pub record PriorityKey : Type 0 where
  pub expire_at : ℕ
  pub key : String

-- The derived `Ord`: the expiry first, then the key.
abbrev pub priority_compare : PriorityKey → PriorityKey → Ordering
priority_compare p q = elim (compare p.expire_at q.expire_at) [
  | Ordering.lt ↦ Ordering.lt
  | Ordering.eq ↦ str_compare p.key q.key
  | Ordering.gt ↦ Ordering.gt
]

abbrev pub priority_eq : PriorityKey → PriorityKey → Bool
priority_eq p q = p.expire_at == q.expire_at && str_eq p.key q.key

-- `BTreeSet::insert` and `BTreeSet::remove`; a set holds an element once, so that to remove every
-- equal element is to remove it.
unfoldable pub queue_insert : PriorityKey → List PriorityKey → List PriorityKey
queue_insert p [] = p ∷ []
queue_insert p (q ∷ pq) =
    let later = q ∷ queue_insert p pq in
    elim (priority_compare p q) [
      | Ordering.lt ↦ p ∷ q ∷ pq
      | Ordering.eq ↦ q ∷ pq
      | Ordering.gt ↦ later
    ]

unfoldable pub queue_remove : PriorityKey → List PriorityKey → List PriorityKey
queue_remove p [] = []
queue_remove p (q ∷ pq) = if priority_eq q p then queue_remove p pq else q ∷ queue_remove p pq

abbrev pub Kv : Type 0
Kv = List (String × (ℕ × List ℕ))

pub record MemoryCacher : Type 0 where
  pub priority_queue : List PriorityKey
  pub kv : Kv
  pub cleaners : ℕ

abbrev pub empty_cacher : MemoryCacher
empty_cacher = record { priority_queue = []; kv = []; cleaners = 0 }

-- `now + ttl` in a `u64`; the release build wraps.
unfoldable pub deadline : ℕ → ℕ → ℕ
deadline now ttl = (now + ttl) % u64_mod

abbrev pub entry_key : ℕ → String → PriorityKey
entry_key expire_at key = record { expire_at = expire_at; key = key }

unfoldable pub clean_expired_values : MemoryCacher → MemoryCacher
clean_expired_values s = record s { cleaners = s.cleaners + 1 }

-- The loop of the spawned task: `pop_first`, then put back and stop, or drop the key.
unfoldable pub clean_loop : ℕ → List PriorityKey → Kv → List PriorityKey × Kv
clean_loop now [] kv = ([], kv)
clean_loop now (p ∷ pq) kv =
    if ltb now p.expire_at then (queue_insert p pq, kv) else clean_loop now pq (remove p.key kv)

-- The task is over after its loop.
unfoldable pub run_cleaner : ℕ → MemoryCacher → MemoryCacher
run_cleaner now s =
    let (pq, kv) = clean_loop now s.priority_queue s.kv in
    record { priority_queue = pq; kv = kv; cleaners = s.cleaners - 1 }

unfoldable pub obtain : ℕ → String → ℕ → MemoryCacher → MemoryCacher × Result Bool String
obtain now key ttl s = elim (lookup key s.kv) [
  | some (expire_at, value) ↦ if ltb now expire_at then (s, ok false) else (
    record s {
      kv = insert key (deadline now ttl, []) s.kv;
      priority_queue =
          queue_insert (entry_key (deadline now ttl) key)
            (queue_remove (entry_key expire_at key) s.priority_queue);
    },
    ok true,
  )
  | none ↦ (
    record s {
      kv = insert key (deadline now ttl, []) s.kv;
      priority_queue = queue_insert (entry_key (deadline now ttl) key) s.priority_queue;
    },
    ok true,
  )
]

-- One round of the loop of `polling_get`: an answer, or `none` to sleep and try again.
unfoldable pub polling_round :
    ℕ → String → MemoryCacher → MemoryCacher × Option (Result (List ℕ) String)
unfolding clean_expired_values
polling_round now key s = elim (lookup key s.kv) [
  | none ↦ (s, some (err "not obtained"))
  | some (expire_at, value) ↦ (
    if leb expire_at now then clean_expired_values s else s,
    if is_empty value then none else some (ok value),
  )
]

-- `clock` gives the time of a round, by the value of `counter`, and `sleep` what the other tasks
-- make of the state between two rounds. The read lock of a round is held through its sleep, so
-- that they come in when it is released and before the next round takes it again.
unfoldable pub polling_get :
    (clock : ℕ → ℕ) (sleep : ℕ → ℕ → MemoryCacher → MemoryCacher)
    → String
    → ℕ
    → ℕ
    → MemoryCacher
    → MemoryCacher × Result (List ℕ) String
polling_get clock sleep key poll_interval zero s = (s, err "polling get cache timeout")
polling_get clock sleep key poll_interval (suc counter) s =
    let (s', answer) = polling_round (clock (suc counter)) key s in
    elim answer [
      | some r ↦ (s', r)
      | none ↦ polling_get clock sleep key poll_interval counter (sleep poll_interval counter s')
    ]

unfoldable pub set : ℕ → String → List ℕ → ℕ → MemoryCacher → MemoryCacher × Result Bool String
unfolding clean_expired_values
set now key val ttl s = elim (lookup key s.kv) [
  | some (expire_at, value) ↦
      if leb expire_at now
      then (clean_expired_values (record s { kv = remove key s.kv }), err "value expired")
      else (
        record s {
          kv = insert key (deadline now ttl, val) s.kv;
          priority_queue =
              queue_insert (entry_key (deadline now ttl) key)
                (queue_remove (entry_key expire_at key) s.priority_queue);
        },
        ok true,
      )
  | none ↦ (s, err "not obtained")
]

unfoldable pub del : String → MemoryCacher → MemoryCacher × Result (Unit {0}) String
unfolding clean_expired_values
del key s = elim (lookup key s.kv) [
  | some (expire_at, value) ↦ (
    clean_expired_values (record s {
      kv = remove key s.kv;
      priority_queue = queue_remove (entry_key expire_at key) s.priority_queue;
    }),
    ok tt,
  )
  | none ↦ (clean_expired_values s, ok tt)
]
