-- ===== src/Proxy/OverHybrid/Unpolled.antt =====
-- A poll interval above the time to live.
use idempotent_proxy.Prelude.{
  err, refl, ℕ, ◌+◌, ◌/◌, ◌≡◌, ◌<◌, ap, ◌∙◌, String, List, some, Result, ok, u64_mod,
}
use idempotent_proxy.Memory.{MemoryCacher}
use idempotent_proxy.Cache.{Cacher, hybrid_obtain}
use idempotent_proxy.Cache.Contract.{Slot}
use idempotent_proxy.Cache.Hybrid.{IsSoundEntry}
use idempotent_proxy.Cache.Replies.{hybrid_polling_get-never}
use idempotent_proxy.Redis.{Server}
use idempotent_proxy.Redis.Contract.{ServerLaws}
use idempotent_proxy.Response.{ResponseData, Codec}
use idempotent_proxy.Proxy.Access.{Packages, AppState, Request, Prepared, prepare}
use idempotent_proxy.Cache.{hybrid_polling_get}
use idempotent_proxy.Proxy.{wait, Outgoing, Upstream}
use idempotent_proxy.Proxy.OverHybrid.{HybridWorld, hybrid_cacher, hybrid_proxy, seen, held-wait}
use native.Mathlib.Nat

module _ {S : Type 0} (server : Server S) (entry : String → S → Slot) (clock : ℕ → ℕ)
    (sleep_memory : ℕ → ℕ → MemoryCacher → MemoryCacher) (sleep_redis : ℕ → ℕ → S → S)
    (p : Packages) (codec : Codec) (from_utf8_lossy : List ℕ → String)
    (execute : Outgoing p → HybridWorld S → HybridWorld S × Result (Upstream p) String)
    (app : AppState p) (laws : ServerLaws server entry) where
  abbrev server_cache : Cacher (HybridWorld S)
  server_cache = hybrid_cacher server clock sleep_memory sleep_redis

  -- A server whose poll interval exceeds its time to live, as the environment may set them, never
  -- polls: every request whose key is held gets the error of a poll that has timed out, even
  -- where the cache has the response. The time to live is positive and ends within a `u64`, and a
  -- Redis server can be reached and does as Redis documents.
  pub unpolled_timeout :
      (req : Request p) (prepared : Prepared p) (now_ms d : ℕ) (bytes : List ℕ) (w : HybridWorld S)
      → app.cache_ttl < app.poll_interval
      → prepare p app req now_ms ≡ ok prepared
      → IsSoundEntry server entry w.cache
      → 0 < app.cache_ttl
      → w.now + app.cache_ttl < u64_mod
      → seen server entry clock sleep_memory sleep_redis p codec from_utf8_lossy execute app w.now
          prepared.idempotency_key w
        ≡ some (d, bytes)
      → (hybrid_proxy server entry clock sleep_memory sleep_redis p codec from_utf8_lossy execute
          app req now_ms w).1
        ≡ err (502, "polling get cache timeout")
  unfolding wait
  unpolled_timeout req prepared now_ms d bytes w long ready sound positive fits held =
      let (waits, _, _) =
        held-wait server entry clock sleep_memory sleep_redis p codec from_utf8_lossy execute app
          laws req prepared now_ms d bytes w ready sound positive fits held in
      ap (λ (r : HybridWorld S × Result ResponseData (ℕ × String)). r.1) waits
      ∙ rw (no_rounds long) (rw (unpolled prepared.idempotency_key) refl)
    where
      no_rounds : app.cache_ttl < app.poll_interval → app.cache_ttl / app.poll_interval ≡ 0
      no_rounds h = Nat.div-eq_of_lt h

      unpolled :
          (key : String)
          → (hybrid_polling_get server clock sleep_memory sleep_redis w.now key app.poll_interval 0
              (hybrid_obtain server w.now key app.cache_ttl w.cache).0).1
            ≡ err "polling get cache timeout"
      unpolled key =
          hybrid_polling_get-never server entry laws clock sleep_memory sleep_redis w.now key
            app.poll_interval (hybrid_obtain server w.now key app.cache_ttl w.cache).0
