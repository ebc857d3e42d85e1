-- ===== src/Cache/Refinement.antt =====
-- Histories of the server's cache.
use idempotent_proxy.Prelude.{ℕ, ◌≡◌, String}
use idempotent_proxy.Cache.{CacherEntry}
use idempotent_proxy.Cache.Contract.{Slot, live}
use idempotent_proxy.Cache.Histories.{History, AreOrderly, Follows, run-Follows}
use idempotent_proxy.Cache.Hybrid.{IsSoundEntry, hybrid_slot, hybrid_cache, hybrid-CacheLaws}
use idempotent_proxy.Redis.{Server}
use idempotent_proxy.Redis.Contract.{ServerLaws}

module _ {S : Type 0} (server : Server S) (entry : String → S → Slot) where
  -- Refinement. Take the server's cache, in memory or at a Redis server that can be reached and
  -- does as Redis documents, and any history of calls, of any keys by any tasks, and of runs of
  -- the cleaner. If the clock does not go back, each call's time to live is positive and ends
  -- within a `u64`, and values have more than one byte and are set only for keys that are held:
  -- then for every key the cache replies as an abstract slot of that key alone does, call for
  -- call, from the slot that the key has at the start (the reply to a poll of a key that nobody
  -- holds is left open), and ends with that slot.
  pub hybrid_cache-Follows :
      ServerLaws server entry
      → (k : String) (history : History) (t : ℕ) (slot : Slot) (w : CacherEntry S)
      → IsSoundEntry server entry w
      → AreOrderly (hybrid_cache server entry) t history w
      → live t (hybrid_slot server entry k w) ≡ live t slot
      → Follows (hybrid_cache server entry) k t history slot w
  hybrid_cache-Follows laws =
      run-Follows (hybrid_cache server entry) (hybrid-CacheLaws server entry laws)
