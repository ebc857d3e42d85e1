-- ===== src/Proxy/EndToEnd.antt =====
-- Requests one after another, over the in-memory cache: a response that is replayed, and a lock
-- that no response resolves.
use idempotent_proxy.Prelude.{
  ℕ, ◌≡◌, ap, ◌∙◌, ◌≤◌, ◌<◌, ◌/◌, suc, String, true, List, [], Result, ok,
}
use idempotent_proxy.Memory
use idempotent_proxy.Memory.{MemoryCacher, deadline}
use idempotent_proxy.Memory.Runs.{Event, run}
use idempotent_proxy.Memory.Invariant.{IsValid, obtain-IsValid, run-IsValid}
use idempotent_proxy.Memory.Held.{IsHeld, NoStale, obtain-IsHeld}
use idempotent_proxy.Memory.Exclusion.{AreSparing, run-IsHeld}
use idempotent_proxy.Response.{ResponseData, Codec}
use idempotent_proxy.Proxy.Access.{Packages, AppState, Request, Prepared, prepare}
use idempotent_proxy.Proxy.{Outgoing, Upstream, outgoing, response_of}
use idempotent_proxy.Proxy.Responds.{stored_in, first_responds}
use idempotent_proxy.Proxy.OverMemory.{
  World, CodecLaws, response_of-to_bytes, memory_proxy, obtained, polled, held_replay,
}

module _ (p : Packages) (codec : Codec) (from_utf8_lossy : List ℕ → String) (clock : ℕ → ℕ)
    (sleep : ℕ → ℕ → MemoryCacher → MemoryCacher)
    (execute : Outgoing p → World → World × Result (Upstream p) String) (app : AppState p) where
  -- `proxy`, and the worlds after `obtain` and after `polling_get`.
  abbrev pub handle : Request p → ℕ → World → World × Result ResponseData (ℕ × String)
  handle = memory_proxy p codec from_utf8_lossy clock sleep execute app

  abbrev pub locked : String → World → World
  locked = obtained p codec from_utf8_lossy clock sleep execute app

  abbrev pub waited : String → World → World
  waited = polled p codec from_utf8_lossy clock sleep execute app

  -- The cache while the upstream request runs: other tasks' events, which leave the key alone and
  -- come before the lock's expiry; and the clock at its end.
  pub record IsQuiet (key : String) (d : ℕ) (w w' : World) : Type 0 where
    pub events : List (ℕ × Event)
    pub happened : w'.cache ≡ run events w.cache
    pub sparing : AreSparing key d events
    pub in_time : w'.now < d

  quiet-IsHeld :
      (key : String) (d : ℕ) (v : List ℕ) (w w' : World)
      → IsValid w.cache
      → IsQuiet key d w w'
      → IsHeld key d v w.cache
      → IsValid w'.cache × IsHeld key d v w'.cache
  quiet-IsHeld key d v w w' valid q held = (
    rw q.happened (run-IsValid q.events w.cache valid),
    rw q.happened (run-IsHeld key d v q.events w.cache valid q.sparing held),
  )

  module _ (req : Request p) (prepared : Prepared p) (now_ms : ℕ) (w w' : World)
      (ready : prepare p app req now_ms ≡ ok prepared) (valid : IsValid w.cache)
      (clean : NoStale prepared.idempotency_key w.cache)
      (won : (Memory.obtain w.now prepared.idempotency_key app.cache_ttl w.cache).1 ≡ ok true)
      (rreq : Outgoing p) (built : outgoing p app req prepared.url ≡ ok rreq)
      (quiet : IsQuiet prepared.idempotency_key
        (deadline w.now app.cache_ttl)
        (locked prepared.idempotency_key w)
        w') where
    abbrev key : String
    key = prepared.idempotency_key

    answered-IsHeld : IsValid w'.cache × IsHeld key (deadline w.now app.cache_ttl) [] w'.cache
    answered-IsHeld =
        quiet-IsHeld key (deadline w.now app.cache_ttl) [] (locked key w) w'
          (obtain-IsValid valid w.now key app.cache_ttl) quiet
          (obtain-IsHeld w.now key app.cache_ttl w.cache clean won)

    abbrev stored : List ℕ → World
    stored = stored_in p codec from_utf8_lossy clock sleep execute app req prepared w'

    -- Idempotency. Let a request obtain its key, on a valid cache with no stale entry of it, and be
    -- answered by the upstream in time, with a status from 200 to 500 and a response that can be
    -- filtered and encoded. Then `proxy` returns that response, and so it does for every later
    -- request with the same cache key, whatever else the request holds and with no call of the
    -- upstream, until the stored response expires: the other tasks' events, during the upstream
    -- request and after it, neither set nor delete the key.
    pub proxy_replay :
        (rres : Upstream p) (res_body : List ℕ) (rd : ResponseData) (bytes : List ℕ)
        → CodecLaws codec rd
        → execute rreq (locked key w) ≡ (w', ok rres)
        → rres.bytes ≡ ok res_body
        → 200 ≤ rres.status
        → rres.status ≤ 500
        → response_of p codec req rres.status rres.headers res_body ≡ ok (rd, bytes)
        → (req' : Request p) (prepared' : Prepared p) (now_ms' n : ℕ) (w'' : World)
        → prepare p app req' now_ms' ≡ ok prepared'
        → prepared'.idempotency_key ≡ key
        → app.cache_ttl / app.poll_interval ≡ suc n
        → IsQuiet key (deadline w'.now app.cache_ttl) (handle req now_ms w).0 w''
        → ((handle req now_ms w).1 ≡ ok rd) × (handle req' now_ms' w'' ≡ (waited key w'', ok rd))
    proxy_replay rres res_body rd bytes laws answered read low high made req' prepared' now_ms' n
          w'' ready' same rounds after =
        let (first, valid', held') =
          first_responds p codec from_utf8_lossy clock sleep execute app req prepared now_ms w w'
            ready won rreq built rres res_body rd bytes answered read low high made
            answered-IsHeld.0 answered-IsHeld.1 quiet.in_time in
        let encoded =
          response_of-to_bytes p codec req rres.status rres.headers res_body rd bytes made in
        let happened : w''.cache ≡ run after.events (stored bytes).cache =
          after.happened
          ∙ ap (λ (r : World × Result ResponseData (ℕ × String)). run after.events r.0.cache)
              first in
        let held'' : IsHeld key (deadline w'.now app.cache_ttl) bytes w''.cache = rw happened (
          run-IsHeld key (deadline w'.now app.cache_ttl) bytes after.events (stored bytes).cache
            valid' after.sparing held') in
        (
          ap (λ (r : World × Result ResponseData (ℕ × String)). r.1) first,
          held_replay p codec from_utf8_lossy clock sleep execute app req' prepared' now_ms'
                (deadline w'.now app.cache_ttl) n rd bytes w'' ready' (rw same held'') after.in_time
                (laws.encode-ne-nil bytes encoded) (laws.decode-encode bytes encoded) rounds
              ∙ ap (λ (k : String). (waited k w'', ok rd)) same,
        )
