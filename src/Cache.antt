-- ===== src/Cache.antt =====
-- idempotent-proxy-server/src/cache/mod.rs: the trait of the caches, and the cache that is one of
-- two.
--
-- An operation's `now` is the time at which it runs; `clock` and `sleep` of `polling_get` are those
-- of the in-memory cache and of the Redis client, whose state is of type `S`.
pub mod Contract
pub mod Histories
pub mod Hybrid
pub mod Refinement
pub mod Quiet
pub mod Replies
pub mod Rounds
use idempotent_proxy.Prelude.{ℕ, String, Bool, List, Result}
use idempotent_proxy.Memory
use idempotent_proxy.Memory.{MemoryCacher}
use idempotent_proxy.Redis.{Server, redis_obtain, redis_polling_get, redis_set, redis_del}

-- `trait Cacher`, on a world `W`.
pub record Cacher (W : Type 0) : Type 0 where
  pub obtain : String → ℕ → W → W × Result Bool String
  pub polling_get : String → ℕ → ℕ → W → W × Result (List ℕ) String
  pub set : String → List ℕ → ℕ → W → W × Result Bool String
  pub del : String → W → W × Result (Unit {0}) String

pub data CacherEntry (S : Type 0) : Type 0 where
  memory : MemoryCacher → CacherEntry S
  redis : S → CacherEntry S

-- The fields other than the cache itself.
pub record HybridCacher : Type 0 where
  pub poll_interval : ℕ
  pub cache_ttl : ℕ

-- The calls of the two caches, with the state put back where it was.
abbrev pub in_memory : {S A : Type 0} → MemoryCacher × A → CacherEntry S × A
in_memory (s, a) = (memory s, a)

abbrev pub in_redis : {S A : Type 0} → S × A → CacherEntry S × A
in_redis (s, a) = (redis s, a)

module _ {S : Type 0} (server : Server S) where
  unfoldable pub hybrid_obtain : ℕ → String → ℕ → CacherEntry S → CacherEntry S × Result Bool String
  hybrid_obtain now key ttl (memory s) = in_memory (Memory.obtain now key ttl s)
  hybrid_obtain now key ttl (redis s) = in_redis (redis_obtain server now key ttl s)

  unfoldable pub hybrid_polling_get :
      (clock : ℕ → ℕ) (sleep_memory : ℕ → ℕ → MemoryCacher → MemoryCacher)
      (sleep_redis : ℕ → ℕ → S → S)
      → ℕ
      → String
      → ℕ
      → ℕ
      → CacherEntry S
      → CacherEntry S × Result (List ℕ) String
  hybrid_polling_get clock sleep_memory sleep_redis now key poll_interval counter (memory s) =
      in_memory (Memory.polling_get clock sleep_memory key poll_interval counter s)
  hybrid_polling_get clock sleep_memory sleep_redis now key poll_interval counter (redis s) =
      in_redis (redis_polling_get server clock sleep_redis now key poll_interval counter s)

  unfoldable pub hybrid_set :
      ℕ → String → List ℕ → ℕ → CacherEntry S → CacherEntry S × Result Bool String
  hybrid_set now key val ttl (memory s) = in_memory (Memory.set now key val ttl s)
  hybrid_set now key val ttl (redis s) = in_redis (redis_set server now key val ttl s)

  unfoldable pub hybrid_del : ℕ → String → CacherEntry S → CacherEntry S × Result (Unit {0}) String
  hybrid_del now key (memory s) = in_memory (Memory.del key s)
  hybrid_del now key (redis s) = in_redis (redis_del server now key s)
