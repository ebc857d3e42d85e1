-- ===== src/Proxy/OverHybrid.antt =====
-- The proxy over the server's own cache, `HybridCacher`: requests one after another.
--
-- The world is the cache and the clock. `execute` may take time and let other tasks run. A task
-- polls at the times of `clock`, and `sleep_memory` and `sleep_redis` say what happens between.
pub mod Replay
pub mod Unpolled
pub mod Waiting
pub mod Concurrent
use idempotent_proxy.Prelude.{
  ℕ, suc, ◌+◌, ◌/◌, ◌≡◌, ◌≤◌, ◌<◌, refl, ap, ◌∙◌, String, true, List, [], ◌∷◌, none, some, length,
  Result, ok, arith, u64_mod,
}
use mathlib.Core.Path.{subst}
use idempotent_proxy.Memory.{MemoryCacher}
use idempotent_proxy.Cache.{
  Cacher, CacherEntry, hybrid_obtain, hybrid_polling_get, hybrid_set, hybrid_del,
}
use idempotent_proxy.Cache.Contract.{Slot, live}
use idempotent_proxy.Cache.Histories.{History, AreOrderly}
use idempotent_proxy.Cache.Hybrid.{hybrid_slot, IsSoundEntry, hybrid_cache, hybrid-CacheLaws}
use idempotent_proxy.Cache.Quiet.{AreSparing, run_history, run_history-held}
use idempotent_proxy.Cache.Replies.{
  hybrid_obtain-vacant, hybrid_obtain-held, hybrid_set-held, hybrid_polling_get-held,
}
use idempotent_proxy.Redis.{Server}
use idempotent_proxy.Redis.Contract.{ServerLaws}
use idempotent_proxy.Response.{ResponseData, Codec, to_bytes, try_from}
use idempotent_proxy.Proxy.Access.{Packages, AppState, Request, Prepared, prepare}
use idempotent_proxy.Proxy.{Outgoing, Upstream, outgoing, response_of, wait, proxy}
use idempotent_proxy.Proxy.Forwarding.{proxy-forward, proxy-wait, forward-settle, settle_cached}
use idempotent_proxy.Proxy.OverMemory.{response_of-to_bytes}

pub record HybridWorld (S : Type 0) : Type 0 where
  pub cache : CacherEntry S
  pub now : ℕ

module _ {S : Type 0} (server : Server S) (clock : ℕ → ℕ)
    (sleep_memory : ℕ → ℕ → MemoryCacher → MemoryCacher) (sleep_redis : ℕ → ℕ → S → S) where
  -- `Cacher for HybridCacher`.
  abbrev pub hybrid_cacher : Cacher (HybridWorld S)
  hybrid_cacher = record {
    obtain = λ key ttl w.
        let (c, r) = hybrid_obtain server w.now key ttl w.cache in (record w { cache = c }, r);
    polling_get = λ key interval counter w.
        let (c, r) =
          hybrid_polling_get server clock sleep_memory sleep_redis w.now key interval counter
            w.cache in
        (record w { cache = c }, r);
    set = λ key val ttl w.
        let (c, r) = hybrid_set server w.now key val ttl w.cache in (record w { cache = c }, r);
    del = λ key w. let (c, r) = hybrid_del server w.now key w.cache in (record w { cache = c }, r);
  }

-- ciborium reads back a response that it wrote, and writes more than a byte.
pub record CodingLaws (codec : Codec) (rd : ResponseData) : Type 0 where
  pub decode-encode : (bytes : List ℕ) → to_bytes codec rd ≡ ok bytes → try_from codec bytes ≡ ok rd
  pub length-encode : (bytes : List ℕ) → to_bytes codec rd ≡ ok bytes → 1 < length bytes

module _ {S : Type 0} (server : Server S) (entry : String → S → Slot) (clock : ℕ → ℕ)
    (sleep_memory : ℕ → ℕ → MemoryCacher → MemoryCacher) (sleep_redis : ℕ → ℕ → S → S)
    (p : Packages) (codec : Codec) (from_utf8_lossy : List ℕ → String)
    (execute : Outgoing p → HybridWorld S → HybridWorld S × Result (Upstream p) String)
    (app : AppState p) where
  abbrev pub cacher : Cacher (HybridWorld S)
  cacher = hybrid_cacher server clock sleep_memory sleep_redis

  abbrev pub hybrid_proxy :
      Request p → ℕ → HybridWorld S → HybridWorld S × Result ResponseData (ℕ × String)
  hybrid_proxy = proxy p codec from_utf8_lossy cacher execute app

  -- The slot of a key as it is seen at a time.
  abbrev pub seen : ℕ → String → HybridWorld S → Slot
  seen now key w = live now (hybrid_slot server entry key w.cache)

  -- What happens to the cache while nobody works on the key: an orderly history, of calls that
  -- neither set nor delete it and of cleaners; at its end the clock shows `w'.now`.
  pub record IsUndisturbed (key : String) (w w' : HybridWorld S) : Type 0 where
    pub history : History
    pub happened : w'.cache ≡ run_history (hybrid_cache server entry) history w.cache
    pub orderly : AreOrderly (hybrid_cache server entry) w.now history w.cache
    pub sparing : AreSparing key w'.now history
    pub later : w.now ≤ w'.now

  module _ (laws : ServerLaws server entry) where
    pub undisturbed-held :
        (key : String) (d : ℕ) (v : List ℕ) (w w' : HybridWorld S)
        → IsSoundEntry server entry w.cache
        → IsUndisturbed key w w'
        → w'.now < d
        → seen w.now key w ≡ some (d, v)
        → IsSoundEntry server entry w'.cache × (seen w'.now key w' ≡ some (d, v))
    undisturbed-held key d v w w' sound quiet lt held = rw quiet.happened (
        run_history-held (hybrid_cache server entry) (hybrid-CacheLaws server entry laws) key d
          w'.now v quiet.history w.now w.cache sound quiet.orderly quiet.sparing quiet.later lt
          held)

    -- The world after an `obtain` that is refused.
    abbrev pub refused : String → HybridWorld S → HybridWorld S
    refused key w = record w { cache = (hybrid_obtain server w.now key app.cache_ttl w.cache).0 }

    -- A request whose key is held waits.
    pub held-wait :
        (req : Request p) (prepared : Prepared p) (now_ms d : ℕ) (v : List ℕ) (w : HybridWorld S)
        → prepare p app req now_ms ≡ ok prepared
        → IsSoundEntry server entry w.cache
        → 0 < app.cache_ttl
        → w.now + app.cache_ttl < u64_mod
        → seen w.now prepared.idempotency_key w ≡ some (d, v)
        → (hybrid_proxy req now_ms w
            ≡ wait p codec from_utf8_lossy cacher execute app prepared
                (refused prepared.idempotency_key w))
          × IsSoundEntry server entry (refused prepared.idempotency_key w).cache
          × (seen w.now prepared.idempotency_key (refused prepared.idempotency_key w) ≡ some (d, v))
    held-wait req prepared now_ms d v w ready sound positive fits held =
        let (again, sound', held') =
          hybrid_obtain-held server entry laws w.now prepared.idempotency_key app.cache_ttl d v
            w.cache sound positive fits held in
        (
          proxy-wait p codec from_utf8_lossy cacher execute app req now_ms w
              (refused prepared.idempotency_key w) prepared ready
              (λ i. (refused prepared.idempotency_key w, again i)),
          sound',
          held',
        )

    -- A request while the response is cached.
    held_response :
        (req : Request p) (prepared : Prepared p) (now_ms d b n : ℕ) (v : List ℕ)
        (rd : ResponseData) (w : HybridWorld S)
        → prepare p app req now_ms ≡ ok prepared
        → IsSoundEntry server entry w.cache
        → 0 < app.cache_ttl
        → w.now + app.cache_ttl < u64_mod
        → seen w.now prepared.idempotency_key w ≡ some (d, b ∷ v)
        → app.cache_ttl / app.poll_interval ≡ suc n
        → clock (suc n) ≡ w.now
        → try_from codec (b ∷ v) ≡ ok rd
        → (hybrid_proxy req now_ms w).1 ≡ ok rd
    unfolding wait
    held_response req prepared now_ms d b n v rd w ready sound positive fits held rounds at_once
          decoded =
        let (waits, sound', held') =
          held-wait req prepared now_ms d (b ∷ v) w ready sound positive fits held in
        ap (λ (r : HybridWorld S × Result ResponseData (ℕ × String)). r.1) waits
        ∙ rw rounds (
            rw
              (hybrid_polling_get-held server entry laws clock sleep_memory sleep_redis w.now
                prepared.idempotency_key app.poll_interval n d b v
                (refused prepared.idempotency_key w).cache sound' (rw at_once held'))
              (rw decoded refl))

    pub cached_response :
        (req : Request p) (prepared : Prepared p) (now_ms d n : ℕ) (bytes : List ℕ)
        (rd : ResponseData) (w : HybridWorld S)
        → 1 < length bytes
        → prepare p app req now_ms ≡ ok prepared
        → IsSoundEntry server entry w.cache
        → 0 < app.cache_ttl
        → w.now + app.cache_ttl < u64_mod
        → seen w.now prepared.idempotency_key w ≡ some (d, bytes)
        → app.cache_ttl / app.poll_interval ≡ suc n
        → clock (suc n) ≡ w.now
        → try_from codec bytes ≡ ok rd
        → (hybrid_proxy req now_ms w).1 ≡ ok rd
    cached_response req prepared now_ms d n [] rd w long = absurd (ground (arith, long))
    cached_response req prepared now_ms d n (b ∷ v) rd w long =
        held_response req prepared now_ms d b n v rd w
