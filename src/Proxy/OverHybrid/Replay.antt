-- ===== src/Proxy/OverHybrid/Replay.antt =====
-- Two requests with one key over the server's own cache.
use idempotent_proxy.Prelude.{
  ℕ, suc, ◌+◌, ◌/◌, ◌≡◌, ◌≤◌, ◌<◌, ap, ◌∙◌, String, true, List, [], none, some, length, Result, ok,
  u64_mod,
}
use mathlib.Core.Path.{subst}
use idempotent_proxy.Memory.{MemoryCacher}
use idempotent_proxy.Cache.{Cacher, hybrid_obtain, hybrid_set}
use idempotent_proxy.Cache.Contract.{Slot}
use idempotent_proxy.Cache.Hybrid.{IsSoundEntry}
use idempotent_proxy.Cache.Replies.{hybrid_obtain-vacant, hybrid_set-held}
use idempotent_proxy.Redis.{Server}
use idempotent_proxy.Redis.Contract.{ServerLaws}
use idempotent_proxy.Response.{ResponseData, Codec}
use idempotent_proxy.Proxy.Access.{Packages, AppState, Request, Prepared, prepare}
use idempotent_proxy.Proxy.{Outgoing, Upstream, outgoing, response_of}
use idempotent_proxy.Proxy.Forwarding.{proxy-forward, forward-settle, settle_cached}
use idempotent_proxy.Proxy.OverMemory.{response_of-to_bytes}
use idempotent_proxy.Proxy.OverHybrid.{
  HybridWorld, CodingLaws, hybrid_cacher, hybrid_proxy, seen, IsUndisturbed, undisturbed-held,
  cached_response,
}

module _ {S : Type 0} (server : Server S) (entry : String → S → Slot) (clock : ℕ → ℕ)
    (sleep_memory : ℕ → ℕ → MemoryCacher → MemoryCacher) (sleep_redis : ℕ → ℕ → S → S)
    (p : Packages) (codec : Codec) (from_utf8_lossy : List ℕ → String)
    (execute : Outgoing p → HybridWorld S → HybridWorld S × Result (Upstream p) String)
    (app : AppState p) (laws : ServerLaws server entry) where
  abbrev server_cache : Cacher (HybridWorld S)
  server_cache = hybrid_cacher server clock sleep_memory sleep_redis

  abbrev pub handle :
      Request p → ℕ → HybridWorld S → HybridWorld S × Result ResponseData (ℕ × String)
  handle =
      hybrid_proxy server entry clock sleep_memory sleep_redis p codec from_utf8_lossy execute app

  abbrev pub IsIdle : String → HybridWorld S → HybridWorld S → Type 0
  IsIdle =
      IsUndisturbed server entry clock sleep_memory sleep_redis p codec from_utf8_lossy execute app

  abbrev pub slot_of_key : ℕ → String → HybridWorld S → Slot
  slot_of_key = seen server entry clock sleep_memory sleep_redis p codec from_utf8_lossy execute app

  module _ (req : Request p) (prepared : Prepared p) (now_ms : ℕ) (w w' : HybridWorld S)
      (ready : prepare p app req now_ms ≡ ok prepared) (sound : IsSoundEntry server entry w.cache)
      (positive : 0 < app.cache_ttl) (fits : w.now + app.cache_ttl < u64_mod)
      (vacant : slot_of_key w.now prepared.idempotency_key w ≡ none) (rreq : Outgoing p)
      (built : outgoing p app req prepared.url ≡ ok rreq) where
    abbrev pub key : String
    key = prepared.idempotency_key

    -- The world with the lock.
    abbrev pub locked : HybridWorld S
    locked = record w { cache = (hybrid_obtain server w.now key app.cache_ttl w.cache).0 }

    abbrev pub stored : List ℕ → HybridWorld S
    stored bytes = record w' {
      cache = (hybrid_set server w'.now key bytes app.cache_ttl w'.cache).0;
    }

    pub locked-held :
        ((hybrid_obtain server w.now key app.cache_ttl w.cache).1 ≡ ok true)
        × IsSoundEntry server entry locked.cache
        × (slot_of_key w.now key locked ≡ some (w.now + app.cache_ttl, []))
    locked-held =
        hybrid_obtain-vacant server entry laws w.now key app.cache_ttl w.cache sound positive fits
          vacant

    pub first_response :
        (rres : Upstream p) (res_body : List ℕ) (rd : ResponseData) (bytes : List ℕ)
        → 1 < length bytes
        → IsSoundEntry server entry w'.cache
        → slot_of_key w'.now key w' ≡ some (w.now + app.cache_ttl, [])
        → w'.now + app.cache_ttl < u64_mod
        → execute rreq locked ≡ (w', ok rres)
        → rres.bytes ≡ ok res_body
        → 200 ≤ rres.status
        → rres.status ≤ 500
        → response_of p codec req rres.status rres.headers res_body ≡ ok (rd, bytes)
        → (handle req now_ms w ≡ (stored bytes, ok rd))
          × IsSoundEntry server entry (stored bytes).cache
          × (slot_of_key w'.now key (stored bytes) ≡ some (w'.now + app.cache_ttl, bytes))
    first_response rres res_body rd bytes long sound'' held' fits' answered read low high made =
        let (accepted, sound3, held3) =
          hybrid_set-held server entry laws w'.now key bytes app.cache_ttl (w.now + app.cache_ttl)
            [] w'.cache sound'' long positive fits' held' in
        (
          proxy-forward p codec from_utf8_lossy server_cache execute app req now_ms w locked
                prepared ready (λ i. (locked, locked-held.0 i))
              ∙ forward-settle p codec from_utf8_lossy server_cache execute app req locked w'
                  prepared rreq rres res_body built answered read
              ∙ settle_cached p codec from_utf8_lossy server_cache execute app req w' (stored bytes)
                  key rres res_body rd bytes true low high made (λ i. (stored bytes, accepted i)),
          sound3,
          held3,
        )

    -- Idempotency, over the server's own cache, in memory or at a Redis server that can be
    -- reached and does as Redis documents. Let nobody hold the key of a request that is
    -- forwarded, and let the upstream answer within the time to live, with a status from 200 to
    -- 500 and a response that can be filtered and encoded, to more than a byte, which decodes to
    -- it. Then `proxy` returns that response, and so it does for a later request with the same
    -- key that comes before the stored response expires and polls at once. The other tasks'
    -- calls, while the upstream answers and between the two requests, are any orderly history (as
    -- in the refinement of the cache) that neither sets nor deletes this key. The time to live is
    -- positive, has a round of polling, and ends within a `u64`.
    pub hybrid_proxy_replay :
        (rres : Upstream p) (res_body : List ℕ) (rd : ResponseData) (bytes : List ℕ)
        → CodingLaws codec rd
        → IsIdle key locked w'
        → w'.now < w.now + app.cache_ttl
        → w'.now + app.cache_ttl < u64_mod
        → execute rreq locked ≡ (w', ok rres)
        → rres.bytes ≡ ok res_body
        → 200 ≤ rres.status
        → rres.status ≤ 500
        → response_of p codec req rres.status rres.headers res_body ≡ ok (rd, bytes)
        → (req' : Request p) (prepared' : Prepared p) (now_ms' n : ℕ) (w'' : HybridWorld S)
        → prepare p app req' now_ms' ≡ ok prepared'
        → prepared'.idempotency_key ≡ key
        → app.cache_ttl / app.poll_interval ≡ suc n
        → clock (suc n) ≡ w''.now
        → IsIdle key (handle req now_ms w).0 w''
        → w''.now < w'.now + app.cache_ttl
        → w''.now + app.cache_ttl < u64_mod
        → ((handle req now_ms w).1 ≡ ok rd) × ((handle req' now_ms' w'').1 ≡ ok rd)
    hybrid_proxy_replay rres res_body rd bytes coding quiet in_time fits' answered read low high
          made req' prepared' now_ms' n w'' ready' same rounds at_once after in_time' fits'' =
        let encoded =
          response_of-to_bytes p codec req rres.status rres.headers res_body rd bytes made in
        let long = coding.length-encode bytes encoded in
        let (_, locked_sound, locked_held) = locked-held in
        let (sound1, held1) =
          undisturbed-held server entry clock sleep_memory sleep_redis p codec from_utf8_lossy
            execute app laws key (w.now + app.cache_ttl) [] locked w' locked_sound quiet in_time
            locked_held in
        let (first, sound', held) =
          first_response rres res_body rd bytes long sound1 held1 fits' answered read low high
            made in
        let after' : IsIdle key (stored bytes) w'' =
          subst (λ (r : HybridWorld S × Result ResponseData (ℕ × String)). IsIdle key r.0 w'') first
            after in
        let (sound'', held') =
          undisturbed-held server entry clock sleep_memory sleep_redis p codec from_utf8_lossy
            execute app laws key (w'.now + app.cache_ttl) bytes (stored bytes) w'' sound' after'
            in_time' held in
        (
          ap (λ (r : HybridWorld S × Result ResponseData (ℕ × String)). r.1) first,
          cached_response server entry clock sleep_memory sleep_redis p codec from_utf8_lossy
              execute app laws req' prepared' now_ms' (w'.now + app.cache_ttl) n bytes rd w'' long
              ready' sound'' positive fits'' (rw same held') rounds at_once
              (coding.decode-encode bytes encoded),
        )
