-- ===== src/Memory/LateSet.antt =====
-- `set` on an expired entry, and the stale entry that it leaves in the queue.
use idempotent_proxy.Prelude.{
  ℕ, ◌≤◌, ◌≡◌, String, true, List, arith, eq_iff, none, some, lookup, Member, ok, err, ◌+◌,
}
use idempotent_proxy.Memory.{MemoryCacher, entry_key, deadline, obtain, set, run_cleaner}
use idempotent_proxy.Memory.Queue.{Member-queue_insert}
use idempotent_proxy.Memory.Cleaning.{lookup-run_cleaner_expired}
use idempotent_proxy.Memory.Lookups.{obtain-result, lookup-set}
use idempotent_proxy.Memory.Invariant.{IsValid, obtain-IsValid, set-IsValid}

module _ (t : ℕ) (k : String) (val : List ℕ) (ttl e : ℕ) (v : List ℕ) (s : MemoryCacher) where
  late_set-result :
      lookup k s.kv ≡ some (e, v)
      → e ≤ t
      → ((set t k val ttl s).1 ≡ err "value expired")
        × ((set t k val ttl s).0.cleaners ≡ s.cleaners + 1)
  unfolding set
  late_set-result found expired = ground arith

  late_set-queue :
      lookup k s.kv ≡ some (e, v) → e ≤ t → (set t k val ttl s).0.priority_queue ≡ s.priority_queue
  unfolding set
  late_set-queue found expired = ground arith

stale-obtain :
    (t : ℕ) (k : String) (ttl e : ℕ) (s : MemoryCacher)
    → lookup k s.kv ≡ none
    → Member (entry_key e k) s.priority_queue
    → Member (entry_key e k) (obtain t k ttl s).0.priority_queue
unfolding obtain
stale-obtain t k ttl e s vacant m =
    rw (vacant, obtain) (Member-queue_insert (entry_key (deadline t ttl) k) (entry_key e k) _ m)

-- A late `set` breaks the lock. On a valid cache, where the entry of a key has expired, `set`
-- answers with an error and leaves a stale entry in the queue and a cleaner that is spawned. If
-- another task obtains the key before that cleaner runs, the cleaner drops the new lock, and
-- `obtain` hands the key out a second time, at any time, before the expiry of the first lock too.
pub late_set-obtain-obtain :
    (t₁ t₂ t₃ t₄ : ℕ) (k : String) (val : List ℕ) (ttl e : ℕ) (v : List ℕ) (s : MemoryCacher)
    → IsValid s
    → lookup k s.kv ≡ some (e, v)
    → e ≤ t₁
    → t₁ ≤ t₃
    → ((set t₁ k val ttl s).1 ≡ err "value expired")
      × ((set t₁ k val ttl s).0.cleaners ≡ s.cleaners + 1)
      × ((obtain t₂ k ttl (set t₁ k val ttl s).0).1 ≡ ok true)
      × ((obtain t₄ k ttl (run_cleaner t₃ (obtain t₂ k ttl (set t₁ k val ttl s).0).0)).1 ≡ ok true)
late_set-obtain-obtain t₁ t₂ t₃ t₄ k val ttl e v s valid found expired later =
    let s₁ = (set t₁ k val ttl s).0 in
    let s₂ = (obtain t₂ k ttl s₁).0 in
    let vacant : lookup k s₁.kv ≡ none = ground (arith, lookup-set t₁ k val ttl s k, eq_iff k k) in
    let dropped : lookup k (run_cleaner t₃ s₂).kv ≡ none =
      lookup-run_cleaner_expired t₃ s₂ (entry_key e k)
        (obtain-IsValid (set-IsValid valid t₁ k val ttl) t₂ k ttl).sorted
        (stale-obtain t₂ k ttl e s₁ vacant
          (rw (late_set-queue t₁ k val ttl e v s found expired) (valid.covered k e v found)))
        (omega arith) in
    (
      ground (arith, late_set-result t₁ k val ttl e v s found expired),
      ground (arith, late_set-result t₁ k val ttl e v s found expired),
      ground (arith, obtain-result t₂ k ttl s₁),
      ground (arith, obtain-result t₄ k ttl (run_cleaner t₃ s₂)),
    )
