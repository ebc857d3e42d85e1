-- ===== src/Proxy/OverMemory.antt =====
-- The proxy over the in-memory cache.
--
-- The world is the cache and the clock. `execute` may take time and let other tasks run: it takes
-- the world to any other. `sleep` and `clock` say what happens while a task polls.
use idempotent_proxy.Prelude.{
  ℕ, ◌≡◌, refl, ap, ◌∙◌, ◌<◌, ◌/◌, ◌≢◌, suc, String, Bool, List, [], Result, ok, err, ◌>>=◌,
  map_err, arith,
}
use idempotent_proxy.Memory
use idempotent_proxy.Memory.{MemoryCacher, deadline}
use idempotent_proxy.Memory.Held.{IsHeld, obtain_held}
use idempotent_proxy.Memory.Polling.{polling_get-IsHeld, polling_get-timeout}
use idempotent_proxy.Response.{ResponseData, Codec, to_bytes, try_from}
use idempotent_proxy.Proxy.Access.{Packages, AppState, Request, Prepared, prepare}
use idempotent_proxy.Cache.{Cacher}
use idempotent_proxy.Proxy.{Outgoing, Upstream, bad_gateway, response_of, wait, proxy}
use idempotent_proxy.Proxy.Forwarding.{proxy-wait}

pub record World : Type 0 where
  pub cache : MemoryCacher
  pub now : ℕ

-- `HybridCacher` with a `MemoryCacher`.
abbrev pub memory_cacher : (ℕ → ℕ) → (ℕ → ℕ → MemoryCacher → MemoryCacher) → Cacher World
memory_cacher clock sleep = record {
  obtain =
      λ key ttl w. let (s, r) = Memory.obtain w.now key ttl w.cache in (record w { cache = s }, r);
  polling_get = λ key interval counter w.
      let (s, r) = Memory.polling_get clock sleep key interval counter w.cache in
      (record w { cache = s }, r);
  set = λ key val ttl w.
      let (s, r) = Memory.set w.now key val ttl w.cache in (record w { cache = s }, r);
  del = λ key w. let (s, r) = Memory.del key w.cache in (record w { cache = s }, r);
}

-- ciborium reads back a response that it wrote, and writes at least a byte.
pub record CodecLaws (codec : Codec) (rd : ResponseData) : Type 0 where
  pub decode-encode : (bytes : List ℕ) → to_bytes codec rd ≡ ok bytes → try_from codec bytes ≡ ok rd
  pub encode-ne-nil : (bytes : List ℕ) → to_bytes codec rd ≡ ok bytes → bytes ≢ []

pub response_of-to_bytes :
    (p : Packages) (codec : Codec) (req : Request p) (status : ℕ) (headers : p.header_map.Map)
    (res_body : List ℕ) (rd : ResponseData) (bytes : List ℕ)
    → response_of p codec req status headers res_body ≡ ok (rd, bytes)
    → to_bytes codec rd ≡ ok bytes
unfolding response_of
response_of-to_bytes p codec req status headers res_body rd bytes h = ground arith

module _ (p : Packages) (codec : Codec) (from_utf8_lossy : List ℕ → String) (clock : ℕ → ℕ)
    (sleep : ℕ → ℕ → MemoryCacher → MemoryCacher)
    (execute : Outgoing p → World → World × Result (Upstream p) String) (app : AppState p) where
  abbrev pub memory_proxy : Request p → ℕ → World → World × Result ResponseData (ℕ × String)
  memory_proxy = proxy p codec from_utf8_lossy (memory_cacher clock sleep) execute app

  -- The world after `obtain`.
  abbrev pub obtained : String → World → World
  obtained key w = record w { cache = (Memory.obtain w.now key app.cache_ttl w.cache).0 }

  -- The world after `polling_get`: the cache has been polled, and nothing else has happened.
  abbrev pub polled : String → World → World
  polled key w = record w {
    cache =
        (Memory.polling_get clock sleep key app.poll_interval (app.cache_ttl / app.poll_interval)
          w.cache).0;
  }

  -- A request whose key is held, and whose poll is answered, gets the response of that answer.
  pub answered_wait :
      (req : Request p) (prepared : Prepared p) (now_ms d : ℕ) (v : List ℕ) (rd : ResponseData)
      (bytes : List ℕ) (w : World)
      → prepare p app req now_ms ≡ ok prepared
      → IsHeld prepared.idempotency_key d v w.cache
      → w.now < d
      → (Memory.polling_get clock sleep prepared.idempotency_key app.poll_interval
          (app.cache_ttl / app.poll_interval)
          w.cache).1
        ≡ ok bytes
      → try_from codec bytes ≡ ok rd
      → memory_proxy req now_ms w ≡ (polled prepared.idempotency_key w, ok rd)
  unfolding wait
  answered_wait req prepared now_ms d v rd bytes w ready held lt answer decoded =
      proxy-wait p codec from_utf8_lossy (memory_cacher clock sleep) execute app req now_ms w w
        prepared ready
        (ap (λ (r : MemoryCacher × Result Bool String). (record w { cache = r.0 }, r.1))
          (obtain_held _ d v w.cache held w.now app.cache_ttl lt))
      ∙ (λ i. (polled prepared.idempotency_key w, returned i))
    where
      returned :
          (map_err bad_gateway
              (Memory.polling_get clock sleep prepared.idempotency_key app.poll_interval
                (app.cache_ttl / app.poll_interval)
                w.cache).1
            >>= λ b. map_err bad_gateway (try_from codec b))
          ≡ ok rd
      returned = rw answer (rw decoded refl)

  -- A second request with the same key, while the first one's response is cached, gets that
  -- response.
  pub held_replay :
      (req : Request p) (prepared : Prepared p) (now_ms d n : ℕ) (rd : ResponseData)
      (bytes : List ℕ) (w : World)
      → prepare p app req now_ms ≡ ok prepared
      → IsHeld prepared.idempotency_key d bytes w.cache
      → w.now < d
      → bytes ≢ []
      → try_from codec bytes ≡ ok rd
      → app.cache_ttl / app.poll_interval ≡ suc n
      → memory_proxy req now_ms w ≡ (polled prepared.idempotency_key w, ok rd)
  held_replay req prepared now_ms d n rd bytes w ready held lt ne decoded rounds =
      answered_wait req prepared now_ms d bytes rd bytes w ready held lt answer decoded
    where
      answer :
          (Memory.polling_get clock sleep prepared.idempotency_key app.poll_interval
            (app.cache_ttl / app.poll_interval)
            w.cache).1
          ≡ ok bytes
      answer =
          ap
            (λ (c : ℕ).
              (Memory.polling_get clock sleep prepared.idempotency_key app.poll_interval c
                w.cache).1)
            rounds
          ∙ polling_get-IsHeld clock sleep prepared.idempotency_key app.poll_interval n d bytes
              w.cache ne held

  -- A request whose key is held with no value gets an error, when its last round is over.
  pub held_timeout :
      (req : Request p) (prepared : Prepared p) (now_ms d : ℕ) (w : World)
      → prepare p app req now_ms ≡ ok prepared
      → IsHeld prepared.idempotency_key d [] w.cache
      → w.now < d
      → ((c : ℕ) (u : MemoryCacher)
          → IsHeld prepared.idempotency_key d [] u
          → IsHeld prepared.idempotency_key d [] (sleep app.poll_interval c u))
      → memory_proxy req now_ms w
        ≡ (polled prepared.idempotency_key w, err (502, "polling get cache timeout"))
  unfolding wait
  held_timeout req prepared now_ms d w ready held lt waits =
      proxy-wait p codec from_utf8_lossy (memory_cacher clock sleep) execute app req now_ms w w
        prepared ready
        (ap (λ (r : MemoryCacher × Result Bool String). (record w { cache = r.0 }, r.1))
          (obtain_held _ d [] w.cache held w.now app.cache_ttl lt))
      ∙ (λ i. (polled prepared.idempotency_key w, returned i))
    where
      returned :
          (map_err bad_gateway
              (Memory.polling_get clock sleep prepared.idempotency_key app.poll_interval
                (app.cache_ttl / app.poll_interval)
                w.cache).1
            >>= λ b. map_err bad_gateway (try_from codec b))
          ≡ err (502, "polling get cache timeout")
      returned =
          rw
            (polling_get-timeout clock sleep prepared.idempotency_key app.poll_interval
              (app.cache_ttl / app.poll_interval) d w.cache held waits)
            refl
