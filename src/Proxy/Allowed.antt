-- ===== src/Proxy/Allowed.antt =====
-- The access control of the proxy.
use idempotent_proxy.Prelude.{
  ℕ, ◌≡◌, refl, ◌⊎◌, inl, inr, String, true, false, some, List, [], Result, ok, err, arith,
  Result-cases, Bool-cases, Option-cases, any, is_empty, empty_nil, str_eq, strip_prefix,
}
use idempotent_proxy.Headers.{extract_header}
use idempotent_proxy.Auth.{Token, ecdsa_verify, ed25519_verify}
use idempotent_proxy.Response.{Codec}
use idempotent_proxy.Proxy.Access.{
  Packages, AppState, Request, Prepared, prepare, authorize, verify_token,
}
use idempotent_proxy.Cache.{Cacher}
use idempotent_proxy.Proxy.{Outgoing, Upstream, proxy}

-- Who may use the proxy.
pub data IsAllowed (p : Packages) (app : AppState p) (req : Request p) (now_ms : ℕ)
    : String → Type 0 where
  anonymous :
      {agent : String}
      → app.ecdsa_pub_keys ≡ []
      → app.ed25519_pub_keys ≡ []
      → agent ≡ "ANON"
      → IsAllowed p app req now_ms agent
  by_ecdsa :
      {agent : String} (encoded : String) (bytes : List ℕ) (token : Token)
      → is_empty app.ecdsa_pub_keys ≡ false
      → strip_prefix "Bearer " (extract_header p.header_map "proxy-authorization" req.headers)
        ≡ some encoded
      → p.base64_decode encoded ≡ ok bytes
      → ecdsa_verify p.cbor p.secp256k1 p.sha3_256 app.ecdsa_pub_keys bytes now_ms ≡ ok token
      → agent ≡ token.agent
      → IsAllowed p app req now_ms agent
  by_ed25519 :
      {agent : String} (encoded : String) (bytes : List ℕ) (token : Token)
      → app.ecdsa_pub_keys ≡ []
      → is_empty app.ed25519_pub_keys ≡ false
      → strip_prefix "Bearer " (extract_header p.header_map "proxy-authorization" req.headers)
        ≡ some encoded
      → p.base64_decode encoded ≡ ok bytes
      → ed25519_verify p.cbor p.ed25519 app.ed25519_pub_keys bytes now_ms ≡ ok token
      → agent ≡ token.agent
      → IsAllowed p app req now_ms agent

module _ (p : Packages) (app : AppState p) (req : Request p) (now_ms : ℕ) (agent : String) where
  abbrev header : String
  header = extract_header p.header_map "proxy-authorization" req.headers

  token_ecdsa :
      is_empty app.ecdsa_pub_keys ≡ false
      → verify_token p app header now_ms ≡ ok agent
      → IsAllowed p app req now_ms agent
  unfolding verify_token
  token_ecdsa keys h = elim (Option-cases (strip_prefix "Bearer " header)) [
    | inl none_given ↦ absurd (ground arith)
    | inr (encoded, given) ↦ elim (Result-cases (p.base64_decode encoded)) [
      | inr (e, garbled) ↦ absurd (ground arith)
      | inl (bytes, decoded) ↦
          elim (Result-cases
            (ecdsa_verify p.cbor p.secp256k1 p.sha3_256 app.ecdsa_pub_keys bytes now_ms)) [
              | inr (e, refused) ↦ absurd (ground arith)
              | inl (token, accepted) ↦
                  by_ecdsa encoded bytes token keys given decoded accepted (ground arith)
            ]
    ]
  ]

  token_ed25519 :
      is_empty app.ecdsa_pub_keys ≡ true
      → is_empty app.ed25519_pub_keys ≡ false
      → verify_token p app header now_ms ≡ ok agent
      → IsAllowed p app req now_ms agent
  unfolding verify_token
  token_ed25519 no_ecdsa keys h = elim (Option-cases (strip_prefix "Bearer " header)) [
    | inl none_given ↦ absurd (ground arith)
    | inr (encoded, given) ↦ elim (Result-cases (p.base64_decode encoded)) [
      | inr (e, garbled) ↦ absurd (ground arith)
      | inl (bytes, decoded) ↦
          elim (Result-cases (ed25519_verify p.cbor p.ed25519 app.ed25519_pub_keys bytes now_ms)) [
            | inr (e, refused) ↦ absurd (ground arith)
            | inl (token, accepted) ↦
                by_ed25519 encoded bytes token (empty_nil _ no_ecdsa) keys given decoded accepted
                  (ground arith)
          ]
    ]
  ]

  known_agent :
      authorize p app req now_ms ≡ ok agent
      → (app.agents ≡ []) ⊎ (any (str_eq agent) app.agents ≡ true)
  unfolding authorize
  known_agent h = elim (Bool-cases (is_empty app.agents)) [
    | inl open_to_all ↦ inl (empty_nil _ open_to_all)
    | inr listed ↦ inr (ground arith)
  ]

  -- Access control. `authorize` lets a request through as an agent only if no key is configured
  -- and the agent is "ANON", or the request carries a token that the configured keys accept (the
  -- ECDSA keys alone, if there are any) and the agent is the token's; and, if a list of agents is
  -- configured, only if the agent is on it.
  pub authorize-IsAllowed :
      authorize p app req now_ms ≡ ok agent
      → IsAllowed p app req now_ms agent
        × ((app.agents ≡ []) ⊎ (any (str_eq agent) app.agents ≡ true))
  unfolding authorize
  authorize-IsAllowed h = (allowed, known_agent h)
    where
      allowed : IsAllowed p app req now_ms agent
      allowed = elim (Bool-cases (is_empty app.ecdsa_pub_keys)) [
        | inr keys ↦ token_ecdsa keys (ground arith)
        | inl no_ecdsa ↦ elim (Bool-cases (is_empty app.ed25519_pub_keys)) [
          | inr keys ↦ token_ed25519 no_ecdsa keys (ground arith)
          | inl no_ed25519 ↦
              anonymous (empty_nil _ no_ecdsa) (empty_nil _ no_ed25519) (ground arith)
        ]
      ]

module _ {W : Type 0} (p : Packages) (codec : Codec) (from_utf8_lossy : List ℕ → String)
    (cacher : Cacher W) (execute : Outgoing p → W → W × Result (Upstream p) String) where
  -- Nobody else reaches the cache or the upstream. Either the request comes from an allowed agent,
  -- under whose name its key is prepared, or `proxy` returns an error and leaves the world alone.
  pub proxy-IsAllowed :
      (app : AppState p) (req : Request p) (now_ms : ℕ) (w : W)
      → ((prepared : Prepared p) × (prepare p app req now_ms ≡ ok prepared)
          × IsAllowed p app req now_ms prepared.agent
          × ((app.agents ≡ []) ⊎ (any (str_eq prepared.agent) app.agents ≡ true)))
        ⊎ ((e : ℕ × String) × (proxy p codec from_utf8_lossy cacher execute app req now_ms w
              ≡ (w, err e)))
  unfolding proxy prepare
  proxy-IsAllowed app req now_ms w = elim (Result-cases (prepare p app req now_ms)) [
    | inr (e, failed) ↦ inr (e, rw (failed, proxy) refl)
    | inl (prepared, ready) ↦ elim (Result-cases (authorize p app req now_ms)) [
      | inr (e, refused) ↦ absurd (ground arith)
      | inl (agent, allowed) ↦
          let same : prepared.agent ≡ agent = ground arith in
          let (may, known) = authorize-IsAllowed p app req now_ms agent allowed in
          inl (prepared, ready, rw same may, rw same known)
    ]
  ]
