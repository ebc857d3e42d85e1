-- ===== src/Proxy/Access.antt =====
-- The configuration, the access control, and the choice of the target and the key.
use idempotent_proxy.Prelude.{
  ℕ, String, Bool, ◌||◌, ◌&&◌, not, Option, none, some, List, [], ◌∷◌, any, is_empty, Result, ok,
  err, ◌>>=◌, map_err, map_ok, if◌then◌else◌, str_eq, text_is_empty, starts_with, strip_prefix,
  join, lookup,
}
use idempotent_proxy.Headers.{
  HeaderMap, extract_header, header_proxy_authorization, header_x_forwarded_for,
  header_x_forwarded_host, header_x_forwarded_proto, header_idempotency_key,
}
use idempotent_proxy.Auth.{Token, Cbor, Scheme, ed25519_verify, ecdsa_verify}

-- What `verify_token` and `proxy` call of other packages: CBOR, the hash and the signature
-- schemes of the tokens, base64, and the URL parser. `header_map` is the `http` crate's.
pub record Packages : Type 1 where
  pub header_map : HeaderMap
  pub cbor : Cbor
  pub ed25519 : Scheme
  pub secp256k1 : Scheme
  pub sha3_256 : List ℕ → List ℕ
  pub base64_decode : String → Result (List ℕ) String
  pub Url : Type 0
  pub parse_url : String → Result Url String

module _ (p : Packages) where
  -- The fields of `AppState` but for the HTTP client, and those of `HybridCacher` but for the cache.
  pub record AppState : Type 0 where
    pub poll_interval : ℕ
    pub cache_ttl : ℕ
    pub agents : List String
    pub url_vars : List (String × String)
    pub header_vars : List (String × p.header_map.Value)
    pub ecdsa_pub_keys : List p.secp256k1.VerifyingKey
    pub ed25519_pub_keys : List p.ed25519.VerifyingKey

  -- A request: `path_and_query` is absent for a URI without one, `body` is what reading at most
  -- 1 MiB of it gives.
  pub record Request : Type 0 where
    pub method : String
    pub is_safe : Bool
    pub path : String
    pub path_and_query : Option String
    pub headers : p.header_map.Map
    pub body : Result (List ℕ) String

  -- The loop over `headers.values_mut()`.
  unfoldable pub alter_value :
      List (String × p.header_map.Value) → p.header_map.Value → p.header_map.Value
  alter_value header_vars val = elim (p.header_map.to_str val) [
    | none ↦ val
    | some s ↦ elim (lookup s header_vars) [ none ↦ val | some v ↦ v ]
  ]

  -- The six `remove`s of `alter_headers`.
  unfoldable pub strip_headers : p.header_map.Map → p.header_map.Map
  strip_headers headers = p.header_map.remove header_x_forwarded_proto (
      p.header_map.remove header_x_forwarded_host (
        p.header_map.remove header_x_forwarded_for (
          p.header_map.remove header_proxy_authorization
            (p.header_map.remove "forwarded" (p.header_map.remove "host" headers)))))

  unfoldable pub alter_headers : AppState → p.header_map.Map → p.header_map.Map
  alter_headers app headers =
      if not (is_empty app.header_vars)
      then p.header_map.map_values (alter_value app.header_vars) (strip_headers headers)
      else strip_headers headers

  -- `|err| format!("proxy authentication verify failed: {}", err)`
  abbrev auth_failed : String → String
  auth_failed e = join ("proxy authentication verify failed: " ∷ e ∷ [])

  unfoldable pub verify_token : AppState → String → ℕ → Result String String
  verify_token app access_token now_ms = elim (strip_prefix "Bearer " access_token) [
    | none ↦ err "invalid proxy-authorization header"
    | some encoded ↦ p.base64_decode encoded >>= λ token.
        if not (is_empty app.ecdsa_pub_keys)
        then map_err auth_failed (
            map_ok (λ (t : Token). t.agent)
              (ecdsa_verify p.cbor p.secp256k1 p.sha3_256 app.ecdsa_pub_keys token now_ms))
        else if not (is_empty app.ed25519_pub_keys)
        then map_err auth_failed (
            map_ok (λ (t : Token). t.agent)
              (ed25519_verify p.cbor p.ed25519 app.ed25519_pub_keys token now_ms))
        else err "proxy authentication verify failed"
  ]

  -- The access control at the head of `proxy`: the agent.
  unfoldable pub authorize : AppState → Request → ℕ → Result String (ℕ × String)
  authorize app req now_ms =
      let agent : Result String (ℕ × String) =
        if not (is_empty app.ecdsa_pub_keys) || not (is_empty app.ed25519_pub_keys)
        then map_err (λ e. (407, e))
            (verify_token app (extract_header p.header_map header_proxy_authorization req.headers)
              now_ms)
        else ok "ANON" in
      agent >>= λ agent.
      if not (is_empty app.agents) && not (any (str_eq agent) app.agents)
      then err (403, join ("agent " ∷ agent ∷ " is not allowed" ∷ []))
      else ok agent

  -- The text of the target's URL.
  unfoldable pub target_url : AppState → Request → Result String (ℕ × String)
  target_url app req =
      if starts_with "/URL_" req.path
      then (let url : String = elim (strip_prefix "/" req.path) [
        | none ↦ ""
        | some name ↦ elim (lookup name app.url_vars) [ none ↦ "" | some url ↦ url ]
      ] in
          if not (starts_with "http" url)
          then err (400, join ("invalid url: " ∷ url ∷ []))
          else ok url)
      else (let host : String = extract_header p.header_map header_x_forwarded_host req.headers in
          if text_is_empty host
          then err (400, "missing header: x-forwarded-host")
          else ok (
              join (
                "https://" ∷ host ∷ elim req.path_and_query [ none ↦ req.path | some v ↦ v ] ∷ [])))

  -- `format!("{}:{}:{}", agent, method, idempotency_key)`
  unfoldable pub full_key : String → String → String → String
  full_key agent method key = join (agent ∷ ":" ∷ method ∷ ":" ∷ key ∷ [])

  pub record Prepared : Type 0 where
    pub agent : String
    pub url : p.Url
    pub idempotency_key : String

  -- `proxy` up to the first use of the cache.
  unfoldable pub prepare : AppState → Request → ℕ → Result Prepared (ℕ × String)
  prepare app req now_ms = do
    agent ← authorize app req now_ms
    text ← target_url app req
    url ← map_err (λ e. (400, e)) (p.parse_url text)
    let key : String = extract_header p.header_map header_idempotency_key req.headers
    if text_is_empty key
        then err (400, "missing header: idempotency-key")
        else ok
            (record { agent = agent; url = url; idempotency_key = full_key agent req.method key })
