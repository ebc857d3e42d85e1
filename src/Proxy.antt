-- ===== src/Proxy.antt =====
-- idempotent-proxy-server/src/handler.rs: `AppState` and the handler `proxy`.
--
-- `W` is the state of everything outside the handler's own variables: the cache, the clock, the
-- network and the other tasks. The cache's trait `Cacher` is a record of functions on it, and so
-- is the HTTP client: what other tasks do while a call waits belongs to that call's step of `W`.
-- A return with an error status is `err (status, message)`. Logging is left out.
mod Access
pub mod Altering
pub mod Keys
pub mod Forwarding
pub mod Allowed
pub mod Bearer
pub mod OverMemory
pub mod Responds
pub mod EndToEnd
pub mod OverHybrid
pub mod Small
pub mod Tests
unfoldable pub use Access.*
use idempotent_proxy.Prelude.{
  ℕ, ◌≡◌, ◌/◌, String, Bool, true, false, ◌||◌, ◌&&◌, not, Option, none, some, List, [], ◌∷◌, any,
  is_empty, Result, ok, err, ◌>>=◌, map_err, map_ok, if◌then◌else◌, leb, str_eq, text_is_empty,
  starts_with, strip_prefix, join, lookup,
}
use idempotent_proxy.Headers.{
  HeaderMap, extract_header, header_x_json_mask, header_response_headers,
}
use idempotent_proxy.Cache.{Cacher}
use idempotent_proxy.Response.{
  ResponseData, Codec, new, with_headers, with_body, to_bytes, try_from,
}

abbrev pub bad_gateway : String → ℕ × String
bad_gateway e = (502, e)

module _ (p : Packages) where
  pub record Outgoing : Type 0 where
    pub method : String
    pub url : p.Url
    pub headers : p.header_map.Map
    pub body : Option (List ℕ)

  -- What `execute` gives: `bytes` is what reading the body gives.
  pub record Upstream : Type 0 where
    pub status : ℕ
    pub headers : p.header_map.Map
    pub bytes : Result (List ℕ) String

  -- The request that is sent on. The body is read unless the method is safe.
  unfoldable pub outgoing : AppState p → Request p → p.Url → Result Outgoing (ℕ × String)
  outgoing app req url =
      let headers : p.header_map.Map = alter_headers p app req.headers in
      if not req.is_safe
      then (map_err (λ e. (400, e)) req.body >>= λ body.
          ok (record { method = req.method; url = url; headers = headers; body = some body }))
      else ok (record { method = req.method; url = url; headers = headers; body = none })

module _ (p : Packages) (codec : Codec) where
  -- The response data for an upstream response, and its bytes for the cache.
  unfoldable pub response_of :
      Request p → ℕ → p.header_map.Map → List ℕ → Result (ResponseData × List ℕ) String
  response_of req status headers res_body =
      let filter : String = extract_header p.header_map header_response_headers req.headers in
      let mask : String = extract_header p.header_map header_x_json_mask req.headers in
      with_body codec res_body mask (with_headers p.header_map headers filter (new status))
      >>= λ rd. to_bytes codec rd >>= λ bytes. ok (rd, bytes)

module _ {W : Type 0} (p : Packages) (codec : Codec) (from_utf8_lossy : List ℕ → String)
    (cacher : Cacher W) (execute : Outgoing p → W → W × Result (Upstream p) String) where
  -- The value of the block `let res = { … }` once the upstream has answered, with the effect of
  -- the code after it. The inner `?`s return from `proxy`, past that code: `del` is called only
  -- for a status outside 200..=500.
  unfoldable pub settle :
      AppState p
      → Request p
      → String
      → ℕ
      → p.header_map.Map
      → List ℕ
      → W
      → W × Result ResponseData (ℕ × String)
  settle app req key status headers res_body w =
      if leb 200 status && leb status 500
      then elim (response_of p codec req status headers res_body) [
        | err e ↦ (w, err (bad_gateway e))
        | ok (rd, bytes) ↦
            let (w', stored) = cacher.set key bytes app.cache_ttl w in
            elim stored [ ok _ ↦ (w', ok rd) | err e ↦ (w', err (bad_gateway e)) ]
      ]
      else ((cacher.del key w).0, err (status, from_utf8_lossy res_body))

  -- `proxy` after `obtain` has returned true.
  unfoldable pub forward :
      AppState p → Request p → Prepared p → W → W × Result ResponseData (ℕ × String)
  forward app req prepared w = elim (outgoing p app req prepared.url) [
    | err e ↦ (w, err e)
    | ok rreq ↦
        let (w', answer) = execute rreq w in
        elim answer [
          | err e ↦ (w', err (bad_gateway e))
          | ok rres ↦ elim rres.bytes [
            | err e ↦ (w', err (bad_gateway e))
            | ok res_body ↦
                settle app req prepared.idempotency_key rres.status rres.headers res_body w'
          ]
        ]
  ]

  -- `proxy` after `obtain` has returned false.
  unfoldable pub wait : AppState p → Prepared p → W → W × Result ResponseData (ℕ × String)
  wait app prepared w =
      let (w', polled) =
        cacher.polling_get prepared.idempotency_key app.poll_interval
          (app.cache_ttl / app.poll_interval) w in
      (w', map_err bad_gateway polled >>= λ bytes. map_err bad_gateway (try_from codec bytes))

  unfoldable pub proxy : AppState p → Request p → ℕ → W → W × Result ResponseData (ℕ × String)
  proxy app req now_ms w = elim (prepare p app req now_ms) [
    | err e ↦ (w, err e)
    | ok prepared ↦
        let (w', lock) = cacher.obtain prepared.idempotency_key app.cache_ttl w in
        elim lock [
          | err e ↦ (w', err (bad_gateway e))
          | ok got ↦ if got then forward app req prepared w' else wait app prepared w'
        ]
  ]
