-- ===== src/Examples/Posted.antt =====
-- A request of the example, from its agent to the proxy's cache.
mod Tests
use idempotent_proxy.Prelude.{
  ℕ, ◌+◌, ◌/◌, ◌<◌, ◌≤◌, ◌≡◌, refl, sym, ap, ◌∙◌, String, true, false, ◌||◌, Option, none, some,
  List, [], ◌∷◌, any, is_empty, join, str_eq, text_is_empty, starts_with, to_ascii_lowercase,
  lookup, Lacks, Member, Result, ok, err, u64_mod, arith,
}
use mathlib.Core.Option
use idempotent_proxy.Auth.Laws.{RoundTrips}
use idempotent_proxy.Headers.{extract_header}
use idempotent_proxy.Proxy.{Packages, AppState, Request, Prepared, authorize, full_key, prepare}
use idempotent_proxy.Proxy.Bearer.{prepare-ready}
use idempotent_proxy.Canister.Types.{Agent, State}
use idempotent_proxy.Canister.Signer
use idempotent_proxy.Canister.Signer.{signer}
use idempotent_proxy.Canister.Signer.Tokens.{SignsFor, refresh_proxy_token-authorizes}
use idempotent_proxy.Canister.Tasks
use idempotent_proxy.Delivery.{IsDelivered, first_header}
use idempotent_proxy.Delivery.Targets.{delivered-named}
use idempotent_proxy.Examples.EthCanister.{RpcAgent, System, post_headers, post_request}
use idempotent_proxy.Examples.Signing.{EcdsaCalls, sign_proxy_token}
use idempotent_proxy.Examples.State.{
  EthState, refresh_proxy_token_interval, seconds, update_proxy_token, refresh_proxy_token,
}
use idempotent_proxy.Examples.Tokens.{
  as_agent, as_agents, as_agents-Member, as_agents-not_empty, as_state, as_system,
  update_proxy_token-as,
}

module _ (sys : System) (a : RpcAgent) (own : String) (body : List ℕ) where
  posted_token :
      (token : String)
      → a.proxy_token ≡ some token
      → first_header "proxy-authorization" (post_request sys a own body).headers
        ≡ join ("Bearer " ∷ token ∷ [])
  unfolding post_request post_headers to_ascii_lowercase
  posted_token token holds = rw (holds, post_headers) refl

  posted_key : first_header "idempotency-key" (post_request sys a own body).headers ≡ own
  unfolding post_request post_headers to_ascii_lowercase
  posted_key = refl

  posted_url : (post_request sys a own body).url ≡ a.endpoint
  unfolding post_request
  posted_url = refl

module _ (p : Packages) (sys : EcdsaCalls) (base64_encode : List ℕ → String) (time : ℕ → ℕ)
    (start : ℕ) (before s s' : EthState) where
  -- The refresh as one of the canister of the proxy.
  refreshed-as :
      refresh_proxy_token (sign_proxy_token sys base64_encode p.cbor p.sha3_256) time before s
        ≡ some s'
      → Tasks.refresh_proxy_token
          (Signer.sign_proxy_token
            (as_system sys)
            base64_encode
            p.cbor
            p.sha3_256
            (signer (as_state before)))
          time
          refresh_proxy_token_interval
          (as_state before)
          (as_state s)
        ≡ some (as_state s')
  unfolding refresh_proxy_token Tasks.refresh_proxy_token
  refreshed-as h =
      sym
        (update_proxy_token-as sys base64_encode p.cbor p.sha3_256 time before.rpc_agents before s)
      ∙ ap (Option.map as_state) h

  -- From the example to the proxy's cache. Let the example have refreshed its tokens, under the
  -- conditions under which the proxy accepts them, let `a` be one of its agents, whose endpoint is
  -- the proxy's origin and the name of a URL that the proxy has configured, and let a request with
  -- a non-empty idempotency key be posted to it and be delivered while the token is accepted. Then
  -- the proxy prepares the agent's name, the URL of that name, and the key made of the agent's
  -- name, the method and the idempotency key.
  pub posted-prepared :
      ((bytes : List ℕ) → p.base64_decode (base64_encode bytes) ≡ ok bytes)
      → ((n : ℕ) → start ≤ time n)
      → ((n : ℕ) → time n / seconds + refresh_proxy_token_interval + 130 < u64_mod)
      → (key : p.secp256k1.VerifyingKey)
      → SignsFor p (as_system sys) base64_encode (signer (as_state before)) key
      → refresh_proxy_token (sign_proxy_token sys base64_encode p.cbor p.sha3_256) time before s
        ≡ some s'
      → is_empty before.rpc_agents ≡ false
      → (a : RpcAgent) → Member a s'.rpc_agents
      → ((e : ℕ) → RoundTrips p.cbor e a.name)
      → (app : AppState p) → Member key app.ecdsa_pub_keys
      → (is_empty app.agents || any (str_eq a.name) app.agents) ≡ true
      → (origin name text : String) → a.endpoint ≡ join (origin ∷ "/" ∷ name ∷ [])
      → starts_with "URL_" name ≡ true
      → Lacks b'?' name
      → lookup name app.url_vars ≡ some text
      → starts_with "http" text ≡ true
      → (url : p.Url) → p.parse_url text ≡ ok url
      → (outcalls : System) (own : String) (body : List ℕ) → text_is_empty own ≡ false
      → (preq : Request p) → IsDelivered p origin (post_request outcalls a own body) preq
      → (now_ms : ℕ) → now_ms / 1000 ≤ start / seconds + refresh_proxy_token_interval + 130
      → prepare p app preq now_ms
        ≡ ok (record {
          agent = a.name;
          url = url;
          idempotency_key = full_key p a.name preq.method own;
        })
  posted-prepared codes later fits key signs refreshed listed a m decodes app trusted known origin
        name text at named plain found valid url parsed outcalls own body nonempty preq d now_ms
        fresh =
      let (token, holds, admits) =
        refresh_proxy_token-authorizes p (as_system sys) base64_encode time
          refresh_proxy_token_interval start (as_state before) (as_state s) (as_state s') codes
          later fits key signs (refreshed-as refreshed)
          (as_agents-not_empty before.rpc_agents listed) (as_agent a)
          (as_agents-Member a s'.rpc_agents m) decodes in
      prepare-ready p app preq now_ms a.name text own url
        (admits app preq now_ms trusted known
          (d.proxy_authorization ∙ posted_token outcalls a own body token holds) fresh)
        (delivered-named p origin (post_request outcalls a own body) preq d app name text
          (posted_url outcalls a own body ∙ at) named plain found valid)
        parsed (d.idempotency_key ∙ posted_key outcalls a own body) nonempty
