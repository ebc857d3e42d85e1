-- ===== src/Delivery/Replicas/AtOnce.antt =====
-- Two replicas whose requests overlap: the proxy's answers.
use idempotent_proxy.Prelude.{
  ℕ, suc, ◌+◌, ◌/◌, ◌<◌, ◌≤◌, ◌≡◌, ap, ◌∙◌, String, none, List, Result, ok, u64_mod,
}
use idempotent_proxy.Memory.{MemoryCacher}
use idempotent_proxy.Cache.Rounds.{rounds_left}
use idempotent_proxy.Redis.{Server}
use idempotent_proxy.Redis.Contract.{ServerLaws}
use idempotent_proxy.Cache.{CacherEntry}
use idempotent_proxy.Cache.Contract.{Slot}
use idempotent_proxy.Cache.Hybrid.{IsSoundEntry}
use idempotent_proxy.Response.{ResponseData, Codec}
use idempotent_proxy.Proxy.{
  Packages, AppState, Request, Outgoing, Upstream, outgoing, response_of, full_key,
}
use idempotent_proxy.Proxy.OverHybrid.{HybridWorld, CodingLaws}
use idempotent_proxy.Proxy.OverHybrid.Waiting.{
  IsSpared, answer_of, seen_at, slept, asleep_in, AreQuiet, waiting_in,
}
use idempotent_proxy.Proxy.OverHybrid.Concurrent.{hybrid_concurrent_replay}
use idempotent_proxy.Canister.Types.{HttpRequest, Agent}
use idempotent_proxy.Delivery.{IsDelivered}
use idempotent_proxy.Delivery.Replicas.{IsSent, arrival, sent-prepared, lock_of}

module _ {S : Type 0} (server : Server S) (entry : String → S → Slot) (clock : ℕ → ℕ)
    (sleep_memory : ℕ → ℕ → MemoryCacher → MemoryCacher) (sleep_redis : ℕ → ℕ → S → S)
    (p : Packages) (codec : Codec) (from_utf8_lossy : List ℕ → String)
    (execute : Outgoing p → HybridWorld S → HybridWorld S × Result (Upstream p) String)
    (app : AppState p) (laws : ServerLaws server entry) where
  abbrev answer : Request p → ℕ → HybridWorld S → HybridWorld S × Result ResponseData (ℕ × String)
  answer =
      answer_of server entry clock sleep_memory sleep_redis p codec from_utf8_lossy execute app laws

  abbrev IsQuiet : String → HybridWorld S → HybridWorld S → Type 0
  IsQuiet =
      IsSpared server entry clock sleep_memory sleep_redis p codec from_utf8_lossy execute app laws

  abbrev lock : String → HybridWorld S → HybridWorld S
  lock =
      lock_of server entry clock sleep_memory sleep_redis p codec from_utf8_lossy execute app laws

  -- The cache of the second request, when it is refused the key.
  abbrev pub second_in : String → HybridWorld S → CacherEntry S
  second_in key w2 =
      (waiting_in server entry clock sleep_memory sleep_redis p codec from_utf8_lossy execute app
        laws key w2).cache

  -- The world in which the second request starts the sleep that leaves it `m + 1` rounds.
  abbrev pub second_sleeps : String → ℕ → ℕ → HybridWorld S → HybridWorld S
  second_sleeps key m j w2 = record {
    cache =
        asleep_in server entry clock sleep_memory sleep_redis p codec from_utf8_lossy execute app
          laws key m j (second_in key w2);
    now = clock (suc (suc m));
  }

  -- The world in which that sleep ends.
  abbrev pub second_wakes : String → ℕ → ℕ → HybridWorld S → HybridWorld S
  second_wakes key m j w2 = record {
    cache =
        slept server entry clock sleep_memory sleep_redis p codec from_utf8_lossy execute app laws
          key (suc m) (second_sleeps key m j w2).cache;
    now = clock (suc m);
  }

  abbrev AreIdle : String → ℕ → ℕ → ℕ → CacherEntry S → Type 0
  AreIdle =
      AreQuiet server entry clock sleep_memory sleep_redis p codec from_utf8_lossy execute app laws

  -- Replicas that call at once agree. Let a caller's request, with an idempotency key, no proxy
  -- authorization of its own, and a URL that parses and is the name of one that the proxy has
  -- configured, or is `https` without a port and as in the delivery of one request, be built for an
  -- agent whose token the proxy accepts for some time, and let it arrive at the proxy twice, from
  -- two replicas, with one method, within that time. If the key is free when the first arrives, the
  -- second arrives and polls at once while the first waits for the upstream, and the upstream
  -- answers the first during a sleep of the second, within the time to live, with a status from 200
  -- to 500 and a response that can be filtered and encoded, then the proxy gives both the same
  -- response. The second has a round of polling after that sleep, before the stored response
  -- expires. The cache is the server's own, in memory or at a Redis server that can be reached and
  -- does as Redis documents; the other tasks' calls are orderly, as in the refinement of the cache,
  -- and neither set nor delete the key, and the time to live is positive, and ends within a `u64`.
  pub replicas_at_once-agree :
      (a : Agent) (sent : HttpRequest) (url : p.Url) (own : String)
      → (s : IsSent p app a sent url own) → (preq preq' : Request p)
      → IsDelivered p a.endpoint sent preq
      → IsDelivered p a.endpoint sent preq'
      → preq'.method ≡ preq.method
      → (key : String) → full_key p a.name preq.method own ≡ key
      → (now_ms now_ms' : ℕ) → now_ms / 1000 ≤ s.until
      → now_ms' / 1000 ≤ s.until
      → (w w2 w' : HybridWorld S) → IsSoundEntry server entry w.cache
      → 0 < app.cache_ttl
      → w.now + app.cache_ttl < u64_mod
      → seen_at server entry clock sleep_memory sleep_redis p codec from_utf8_lossy execute app laws
          w.now key w
        ≡ none
      → (rreq : Outgoing p) → outgoing p app preq url ≡ ok rreq
      → (rres : Upstream p) (res_body : List ℕ) (rd : ResponseData) (bytes : List ℕ)
      → CodingLaws codec rd
      → rres.bytes ≡ ok res_body
      → 200 ≤ rres.status
      → rres.status ≤ 500
      → response_of p codec preq rres.status rres.headers res_body ≡ ok (rd, bytes)
      → IsQuiet key (lock key w) w2
      → w2.now < w.now + app.cache_ttl
      → w2.now + app.cache_ttl < u64_mod
      → (m j : ℕ) → app.cache_ttl / app.poll_interval ≡ rounds_left m j
      → clock (rounds_left m j) ≡ w2.now
      → AreIdle key (w.now + app.cache_ttl) m j (second_in key w2)
      → IsQuiet key (second_sleeps key m j w2) w'
      → w'.now < w.now + app.cache_ttl
      → w'.now + app.cache_ttl < u64_mod
      → execute rreq (lock key w) ≡ (w', ok rres)
      → IsQuiet key (answer preq now_ms w).0 (second_wakes key m j w2)
      → clock (suc m) < w'.now + app.cache_ttl
      → ((answer preq now_ms w).1 ≡ ok rd) × ((answer preq' now_ms' w2).1 ≡ ok rd)
  replicas_at_once-agree a sent url own s preq preq' d d' methods key named now_ms now_ms' fresh
        fresh' w w2 w' sound positive fits free rreq forwarded rres res_body rd bytes coding read
        low high made arrives early fits2 m j rounds at_once quiet before in_time fits' answered
        after resumed =
      hybrid_concurrent_replay server entry clock sleep_memory sleep_redis p codec from_utf8_lossy
        execute app laws preq
        (record (arrival p app a url own preq.method) { idempotency_key = key }) now_ms w w'
        (sent-prepared p app a sent url own preq now_ms s fresh d
          ∙ ap (λ k. ok (record (arrival p app a url own preq.method) { idempotency_key = k }))
              named)
        sound positive fits free rreq forwarded rres res_body rd bytes coding read low high made
        preq' (arrival p app a url own preq'.method) now_ms' w2
        (sent-prepared p app a sent url own preq' now_ms' s fresh' d')
        (ap (λ m. full_key p a.name m own) methods ∙ named) arrives early fits2 m j rounds at_once
        quiet before in_time fits' answered after resumed
