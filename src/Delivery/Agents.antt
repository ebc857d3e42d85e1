-- ===== src/Delivery/Agents.antt =====
-- A caller's request, from the canister's agent to the proxy's cache.
use idempotent_proxy.Prelude.{
  ℕ, ◌+◌, ◌/◌, ◌<◌, ◌≤◌, ◌≡◌, refl, ap, ◌∙◌, String, true, false, ◌||◌, some, List, [], ◌∷◌, any,
  is_empty, join, str_eq, text_is_empty, to_ascii_lowercase, Member, Result, ok, u64_mod,
}
use idempotent_proxy.Auth.Laws.{RoundTrips}
use idempotent_proxy.Headers.{extract_header}
use idempotent_proxy.Proxy.{Packages, AppState, Request, authorize, target_url, full_key, prepare}
use idempotent_proxy.Proxy.Bearer.{prepare-ready}
use idempotent_proxy.Canister.Types.{HttpHeader, HttpRequest, Agent, State}
use idempotent_proxy.Canister.Agent.{Uri, build_request}
use idempotent_proxy.Canister.Agent.Requests.{IsRouted, by_name, by_host, build_request-IsRouted}
use idempotent_proxy.Canister.Tasks.{seconds, refresh_proxy_token}
use idempotent_proxy.Canister.Signer.{SystemCalls, signer, sign_proxy_token}
use idempotent_proxy.Canister.Signer.Tokens.{SignsFor, refresh_proxy_token-authorizes}
use idempotent_proxy.Delivery.{IsDelivered, IsMeant, is_named, first_header}
use idempotent_proxy.Delivery.Headers.{built_headers, built_token, built_key}
use idempotent_proxy.Delivery.Targets.{delivered-target}

-- The route adds no header but the forwarded host.
routed-others :
    (parse_uri : String → Result Uri String) (a : Agent) (req : HttpRequest) (url : String)
    (added : List HttpHeader)
    → IsRouted parse_uri a req url added
    → (any (is_named "proxy-authorization") added ≡ false)
      × (any (is_named "idempotency-key") added ≡ false)
unfolding to_ascii_lowercase
routed-others parse_uri a req url added (by_name named same eq) = rw eq (refl, refl)
routed-others parse_uri a req url added (by_host uri host other parsed found same eq) =
    rw eq (refl, refl)

module _ (p : Packages) (parse_uri : String → Result Uri String) (a : Agent)
    (req built : HttpRequest) (app : AppState p) (preq : Request p) (now_ms : ℕ) (token : String)
    (d : IsDelivered p a.endpoint built preq) where
  -- What the proxy prepares, where it lets the token through.
  pub delivered-prepared :
      a.proxy_token ≡ some token
      → build_request parse_uri a req ≡ ok built
      → any (is_named "proxy-authorization") req.headers ≡ false
      → (extract_header p.header_map "proxy-authorization" preq.headers
            ≡ join ("Bearer " ∷ token ∷ [])
          → authorize p app preq now_ms ≡ ok a.name)
      → (text : String) → IsMeant p parse_uri app req text
      → (url : p.Url) → p.parse_url text ≡ ok url
      → (key : String) → first_header "idempotency-key" req.headers ≡ key
      → text_is_empty key ≡ false
      → prepare p app preq now_ms
        ≡ ok (record {
          agent = a.name;
          url = url;
          idempotency_key = full_key p a.name preq.method key;
        })
  delivered-prepared holds done unset admits text meant url parsed key given nonempty =
      let (added, keyed, routed, headers, body, bound, transform) =
        build_request-IsRouted parse_uri a req built done in
      let (not_token, not_key) = routed-others parse_uri a req built.url added routed in
      let all_headers : built.headers ≡ built_headers (some token) req.headers added =
        headers ∙ ap (λ t. built_headers t req.headers added) holds in
      let allowed : authorize p app preq now_ms ≡ ok a.name = admits (
        d.proxy_authorization
        ∙ rw all_headers (built_token req.headers added token unset not_token)) in
      let target : target_url p app preq ≡ ok text =
        delivered-target p parse_uri a req built app preq d token added routed all_headers text
          meant in
      let same_key : extract_header p.header_map "idempotency-key" preq.headers ≡ key =
        d.idempotency_key ∙ rw all_headers (built_key req.headers added token not_key) ∙ given in
      prepare-ready p app preq now_ms a.name text key url allowed target parsed same_key nonempty

module _ (p : Packages) (sys : SystemCalls) (base64_encode : List ℕ → String) (time : ℕ → ℕ)
    (interval start : ℕ) (before s s' : State) where
  -- From the caller of the canister to the proxy's cache. Let the canister have refreshed its
  -- tokens, under the conditions under which the proxy accepts them, let `a` be one of its agents,
  -- and let a caller's request with a non-empty idempotency key and no proxy authorization of its
  -- own be built for that agent and be delivered to the proxy while the token is accepted. Then
  -- the proxy prepares the agent's name, the URL below, and the key made of the agent's name, the
  -- method and the caller's idempotency key. If the caller gives the name of a URL that the proxy
  -- has configured, with no query in it, it is the configured URL, which starts with "http". Else
  -- it is the very URL that the caller gives, if that is "https://", a host that is not empty, and
  -- the path and the query, without a port, if the caller sets no forwarded host, and if the path
  -- does not start with "/URL_". The URL parses.
  pub refreshed-prepared :
      ((bytes : List ℕ) → p.base64_decode (base64_encode bytes) ≡ ok bytes)
      → ((n : ℕ) → start ≤ time n)
      → ((n : ℕ) → time n / seconds + interval + 130 < u64_mod)
      → (key : p.secp256k1.VerifyingKey) → SignsFor p sys base64_encode (signer before) key
      → refresh_proxy_token
          (sign_proxy_token sys base64_encode p.cbor p.sha3_256 (signer before))
          time
          interval
          before
          s
        ≡ some s'
      → is_empty before.agents ≡ false
      → (a : Agent) → Member a s'.agents
      → ((e : ℕ) → RoundTrips p.cbor e a.name)
      → (app : AppState p) → Member key app.ecdsa_pub_keys
      → (is_empty app.agents || any (str_eq a.name) app.agents) ≡ true
      → (parse_uri : String → Result Uri String) (req built : HttpRequest)
      → any (is_named "proxy-authorization") req.headers ≡ false
      → build_request parse_uri a req ≡ ok built
      → (preq : Request p) → IsDelivered p a.endpoint built preq
      → (now_ms : ℕ) → now_ms / 1000 ≤ start / seconds + interval + 130
      → (text : String) → IsMeant p parse_uri app req text
      → (url : p.Url) → p.parse_url text ≡ ok url
      → (own : String) → first_header "idempotency-key" req.headers ≡ own
      → text_is_empty own ≡ false
      → prepare p app preq now_ms
        ≡ ok (record {
          agent = a.name;
          url = url;
          idempotency_key = full_key p a.name preq.method own;
        })
  refreshed-prepared codes later fits key signs refreshed listed a m decodes app trusted known
        parse_uri req built unset done preq d now_ms fresh text meant url parsed own given
        nonempty =
      let (token, holds, admits) =
        refresh_proxy_token-authorizes p sys base64_encode time interval start before s s' codes
          later fits key signs refreshed listed a m decodes in
      delivered-prepared p parse_uri a req built app preq now_ms token d holds done unset
        (λ bearer. admits app preq now_ms trusted known bearer fresh) text meant url parsed own
        given nonempty
