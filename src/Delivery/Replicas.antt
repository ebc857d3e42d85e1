-- ===== src/Delivery/Replicas.antt =====
-- The replicas of a subnet, which all send the request of one message: the proxy's answers.
pub mod AtOnce
mod Tests
use idempotent_proxy.Prelude.{
  ℕ, suc, ◌+◌, ◌/◌, ◌<◌, ◌≤◌, ◌≡◌, refl, ap, ◌∙◌, String, false, some, none, List, [], ◌∷◌, length,
  any, join, text_is_empty, Result, ok, u64_mod,
}
use idempotent_proxy.Memory.{MemoryCacher}
use idempotent_proxy.Redis.{Server}
use idempotent_proxy.Redis.Contract.{ServerLaws}
use idempotent_proxy.Cache.{hybrid_obtain}
use idempotent_proxy.Cache.Contract.{Slot}
use idempotent_proxy.Cache.Hybrid.{IsSoundEntry}
use idempotent_proxy.Headers.{extract_header}
use idempotent_proxy.Response.{ResponseData, Codec}
use idempotent_proxy.Proxy.{
  Packages, AppState, Request, Prepared, Outgoing, Upstream, outgoing, response_of, authorize,
  full_key, prepare,
}
use idempotent_proxy.Proxy.OverHybrid.{HybridWorld, CodingLaws}
use idempotent_proxy.Proxy.OverHybrid.Replay.{handle, IsIdle, slot_of_key, hybrid_proxy_replay}
use idempotent_proxy.Canister.Types.{HttpHeader, HttpRequest, Agent}
use idempotent_proxy.Canister.Agent.{Uri, build_request}
use idempotent_proxy.Delivery.{IsDelivered, IsMeant, is_named, first_header}
use idempotent_proxy.Delivery.Agents.{delivered-prepared}

-- A request of an agent whose token a proxy accepts for a time.
module _ (p : Packages) (app : AppState p) where
  pub record IsSent (a : Agent) (sent : HttpRequest) (url : p.Url) (own : String) : Type 0 where
    pub parse_uri : String → Result Uri String
    pub req : HttpRequest
    pub token : String
    pub text : String
    pub tokened : a.proxy_token ≡ some token
    pub built : build_request parse_uri a req ≡ ok sent
    pub unset : any (is_named "proxy-authorization") req.headers ≡ false
    -- The second until which the proxy accepts the token.
    pub until : ℕ
    pub admitted :
        (preq : Request p) (now_ms : ℕ)
        → now_ms / 1000 ≤ until
        → extract_header p.header_map "proxy-authorization" preq.headers
          ≡ join ("Bearer " ∷ token ∷ [])
        → authorize p app preq now_ms ≡ ok a.name
    pub meant : IsMeant p parse_uri app req text
    pub parsed : p.parse_url text ≡ ok url
    pub given : first_header "idempotency-key" req.headers ≡ own
    pub nonempty : text_is_empty own ≡ false

  -- What the proxy prepares for it.
  abbrev pub arrival : Agent → p.Url → String → String → Prepared p
  arrival a url own method = record {
    agent = a.name;
    url = url;
    idempotency_key = full_key p a.name method own;
  }

  sent-prepared :
      (a : Agent) (sent : HttpRequest) (url : p.Url) (own : String) (preq : Request p) (now_ms : ℕ)
      → (s : IsSent a sent url own) → now_ms / 1000 ≤ s.until
      → IsDelivered p a.endpoint sent preq
      → prepare p app preq now_ms ≡ ok (arrival a url own preq.method)
  sent-prepared a sent url own preq now_ms s fresh d =
      delivered-prepared p s.parse_uri a s.req sent app preq now_ms s.token d s.tokened s.built
        s.unset (s.admitted preq now_ms fresh) s.text s.meant url s.parsed own s.given s.nonempty

module _ {S : Type 0} (server : Server S) (entry : String → S → Slot) (clock : ℕ → ℕ)
    (sleep_memory : ℕ → ℕ → MemoryCacher → MemoryCacher) (sleep_redis : ℕ → ℕ → S → S)
    (p : Packages) (codec : Codec) (from_utf8_lossy : List ℕ → String)
    (execute : Outgoing p → HybridWorld S → HybridWorld S × Result (Upstream p) String)
    (app : AppState p) (laws : ServerLaws server entry) where
  abbrev answer_of :
      Request p → ℕ → HybridWorld S → HybridWorld S × Result ResponseData (ℕ × String)
  answer_of =
      handle server entry clock sleep_memory sleep_redis p codec from_utf8_lossy execute app laws

  abbrev IsSpared : String → HybridWorld S → HybridWorld S → Type 0
  IsSpared =
      IsIdle server entry clock sleep_memory sleep_redis p codec from_utf8_lossy execute app laws

  -- The world in which a request has obtained its key.
  abbrev pub lock_of : String → HybridWorld S → HybridWorld S
  lock_of key w = record w { cache = (hybrid_obtain server w.now key app.cache_ttl w.cache).0 }

  -- The replicas of a subnet agree. Let a caller's request, with an idempotency key, no proxy
  -- authorization of its own, and a URL that parses and is the name of one that the proxy has
  -- configured, or is `https` without a port and as in the delivery of one request, be built for an
  -- agent whose token the proxy accepts for some time, and let it arrive at the proxy twice, from
  -- two replicas, with one method, within that time. If the key is free when the first arrives, the
  -- upstream answers it within the time to live with a status from 200 to 500 and a response that
  -- can be filtered and encoded, and the second arrives before the stored response expires and
  -- polls at once, then the proxy gives both the same response. The cache is the server's own, in
  -- memory or at a Redis server that can be reached and does as Redis documents; the other tasks'
  -- calls are orderly, as in the refinement of the cache, and neither set nor delete the key, and
  -- the time to live is positive, has a round of polling, and ends within a `u64`.
  pub replicas-agree :
      (a : Agent) (sent : HttpRequest) (url : p.Url) (own : String)
      → (s : IsSent p app a sent url own) → (preq preq' : Request p)
      → IsDelivered p a.endpoint sent preq
      → IsDelivered p a.endpoint sent preq'
      → preq'.method ≡ preq.method
      → (now_ms now_ms' n : ℕ) → now_ms / 1000 ≤ s.until
      → now_ms' / 1000 ≤ s.until
      → (w w' w'' : HybridWorld S) → IsSoundEntry server entry w.cache
      → 0 < app.cache_ttl
      → w.now + app.cache_ttl < u64_mod
      → slot_of_key server entry clock sleep_memory sleep_redis p codec from_utf8_lossy execute app
          laws w.now
          (full_key p a.name preq.method own)
          w
        ≡ none
      → (rreq : Outgoing p) → outgoing p app preq url ≡ ok rreq
      → (rres : Upstream p) (res_body : List ℕ) (rd : ResponseData) (bytes : List ℕ)
      → CodingLaws codec rd
      → IsSpared
          (full_key p a.name preq.method own)
          (lock_of (full_key p a.name preq.method own) w)
          w'
      → w'.now < w.now + app.cache_ttl
      → w'.now + app.cache_ttl < u64_mod
      → execute rreq (lock_of (full_key p a.name preq.method own) w) ≡ (w', ok rres)
      → rres.bytes ≡ ok res_body
      → 200 ≤ rres.status
      → rres.status ≤ 500
      → response_of p codec preq rres.status rres.headers res_body ≡ ok (rd, bytes)
      → app.cache_ttl / app.poll_interval ≡ suc n
      → clock (suc n) ≡ w''.now
      → IsSpared (full_key p a.name preq.method own) (answer_of preq now_ms w).0 w''
      → w''.now < w'.now + app.cache_ttl
      → w''.now + app.cache_ttl < u64_mod
      → ((answer_of preq now_ms w).1 ≡ ok rd) × ((answer_of preq' now_ms' w'').1 ≡ ok rd)
  replicas-agree a sent url own s preq preq' d d' methods now_ms now_ms' n fresh fresh' w w' w''
        sound positive fits free rreq forwarded rres res_body rd bytes coding quiet in_time fits'
        answered read low high made rounds at_once after in_time' fits'' =
      hybrid_proxy_replay server entry clock sleep_memory sleep_redis p codec from_utf8_lossy
        execute app laws preq (arrival p app a url own preq.method) now_ms w w'
        (sent-prepared p app a sent url own preq now_ms s fresh d) sound positive fits free rreq
        forwarded rres res_body rd bytes coding quiet in_time fits' answered read low high made
        preq' (arrival p app a url own preq'.method) now_ms' n w''
        (sent-prepared p app a sent url own preq' now_ms' s fresh' d')
        (ap (λ m. full_key p a.name m own) methods) rounds at_once after in_time' fits''
