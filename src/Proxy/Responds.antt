-- ===== src/Proxy/Responds.antt =====
-- A request that obtains its key and is answered by the upstream, over the in-memory cache.
use idempotent_proxy.Prelude.{ℕ, ◌≡◌, ◌∙◌, ◌≤◌, ◌<◌, String, true, List, [], Result, ok}
use idempotent_proxy.Memory
use idempotent_proxy.Memory.{MemoryCacher, deadline}
use idempotent_proxy.Memory.Invariant.{IsValid, set-IsValid}
use idempotent_proxy.Memory.Held.{IsHeld, set-IsHeld}
use idempotent_proxy.Response.{ResponseData, Codec}
use idempotent_proxy.Proxy.Access.{Packages, AppState, Request, Prepared, prepare}
use idempotent_proxy.Proxy.{Outgoing, Upstream, outgoing, response_of, forward}
use idempotent_proxy.Proxy.Forwarding.{proxy-forward, forward-settle, settle_cached}
use idempotent_proxy.Proxy.OverMemory.{World, memory_cacher, memory_proxy, obtained}

module _ (p : Packages) (codec : Codec) (from_utf8_lossy : List ℕ → String) (clock : ℕ → ℕ)
    (sleep : ℕ → ℕ → MemoryCacher → MemoryCacher)
    (execute : Outgoing p → World → World × Result (Upstream p) String) (app : AppState p) where
  abbrev handle : Request p → ℕ → World → World × Result ResponseData (ℕ × String)
  handle = memory_proxy p codec from_utf8_lossy clock sleep execute app

  abbrev locked : String → World → World
  locked = obtained p codec from_utf8_lossy clock sleep execute app

  -- The world after the response is set, by the world when the upstream has answered.
  abbrev pub stored_in : Request p → Prepared p → World → List ℕ → World
  stored_in req prepared w' bytes = record w' {
    cache = (Memory.set w'.now prepared.idempotency_key bytes app.cache_ttl w'.cache).0;
  }

  module _ (req : Request p) (prepared : Prepared p) (now_ms : ℕ) (w w' : World)
      (ready : prepare p app req now_ms ≡ ok prepared)
      (won : (Memory.obtain w.now prepared.idempotency_key app.cache_ttl w.cache).1 ≡ ok true)
      (rreq : Outgoing p) (built : outgoing p app req prepared.url ≡ ok rreq) where
    abbrev key : String
    key = prepared.idempotency_key

    abbrev stored : List ℕ → World
    stored = stored_in req prepared w'

    pub first_forwards :
        handle req now_ms w
        ≡ forward p codec from_utf8_lossy
            (memory_cacher clock sleep)
            execute
            app
            req
            prepared
            (locked key w)
    first_forwards =
        proxy-forward p codec from_utf8_lossy (memory_cacher clock sleep) execute app req now_ms w
          (locked key w) prepared ready (λ i. (locked key w, won i))

    pub first_responds :
        (rres : Upstream p) (res_body : List ℕ) (rd : ResponseData) (bytes : List ℕ)
        → execute rreq (locked key w) ≡ (w', ok rres)
        → rres.bytes ≡ ok res_body
        → 200 ≤ rres.status
        → rres.status ≤ 500
        → response_of p codec req rres.status rres.headers res_body ≡ ok (rd, bytes)
        → IsValid w'.cache
        → IsHeld key (deadline w.now app.cache_ttl) [] w'.cache
        → w'.now < deadline w.now app.cache_ttl
        → (handle req now_ms w ≡ (stored bytes, ok rd))
          × IsValid (stored bytes).cache
          × IsHeld key (deadline w'.now app.cache_ttl) bytes (stored bytes).cache
    first_responds rres res_body rd bytes answered read low high made valid' held in_time =
        let (accepted, held') =
          set-IsHeld w'.now key bytes app.cache_ttl _ [] w'.cache held in_time in
        (
          first_forwards
              ∙ forward-settle p codec from_utf8_lossy (memory_cacher clock sleep) execute app req
                  (locked key w) w' prepared rreq rres res_body built answered read
              ∙ settle_cached p codec from_utf8_lossy (memory_cacher clock sleep) execute app req w'
                  (stored bytes) key rres res_body rd bytes true low high made
                  (λ i. (stored bytes, accepted i)),
          set-IsValid valid' w'.now key bytes app.cache_ttl,
          held',
        )
