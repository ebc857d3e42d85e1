-- ===== src/Config/Settings.antt =====
-- What a server that starts has read from its environment.
use idempotent_proxy.Prelude.{
  ℕ, ◌≡◌, ◌∙◌, ap, sym, String, Option, none, some, List, [], ◌∷◌, lookup, starts_with, eq_iff,
  str_eq, if◌then◌else◌, arith, Option-cases, Bool-cases, inl, inr, Result-cases, ok, length,
}
use Prim.Native.Nat.{max}
use idempotent_proxy.Response.{split_filtering}
use idempotent_proxy.Proxy.{Packages, AppState}
use idempotent_proxy.Config.{
  Environment, parse_u64, setting, variables, collect, Parsers, ecdsa_key, ed25519_key, header_var,
  app_state,
}

-- A variable is found with a prefix of its name, and only then.
pub lookup-variables :
    (prefix name : String) (env : Environment)
    → lookup name (variables prefix env)
      ≡ (if starts_with prefix name then lookup name env else none)
unfolding variables lookup
lookup-variables prefix name [] = ground arith
lookup-variables prefix name ((k, v) ∷ env) = elim (Bool-cases (str_eq k name)) [
  | inl e ↦
      let same : k ≡ name = (eq_iff k name).0 e in
      ground (arith, same, lookup-variables prefix name env)
  | inr ne ↦ ground (arith, ne, lookup-variables prefix name env)
]

-- Two lists of the same length, related place by place.
abbrev pub Each : {A B : Type 0} → (A → B → Type 0) → List A → List B → Type 0
Each R [] [] = Unit
Each R (a ∷ l) (b ∷ r) = R a b × Each R l r
Each R _ _ = ⊥

collect-Each :
    {A B : Type 0} (R : A → B → Type 0) (f : A → Option B)
    → ((a : A) (b : B) → f a ≡ some b → R a b)
    → (l : List A) (r : List B) → collect f l ≡ some r
    → Each R l r
unfolding collect
collect-Each R f related [] [] h = tt
collect-Each R f related [] (b ∷ r) h = absurd (ground (arith, h))
collect-Each R f related (a ∷ l) r h = elim (Option-cases (f a)) [
  | inl e ↦ absurd (ground (arith, e, h))
  | inr (b, e) ↦ elim (Option-cases (collect f l)) [
    | inl e' ↦ absurd (ground (arith, e, e', h))
    | inr (bs, e') ↦
        let same : b ∷ bs ≡ r = ground (arith, e, e', h) in
        rw (← same) ((related a b e, collect-Each R f related l bs e'))
  ]
]

-- A number that the environment sets, or its default: no less than a floor.
pub data IsSetting (name : String) (default floor : ℕ) (env : Environment) : ℕ → Type 0 where
  by_default :
      {n : ℕ} → lookup name env ≡ none → n ≡ max default floor → IsSetting name default floor env n
  given :
      {n : ℕ} (text : String) (k : ℕ)
      → lookup name env ≡ some text
      → parse_u64 text ≡ some k
      → n ≡ max k floor
      → IsSetting name default floor env n

setting-IsSetting :
    (name : String) (default floor : ℕ) (env : Environment) (n : ℕ)
    → setting name default floor env ≡ some n
    → IsSetting name default floor env n
unfolding setting
setting-IsSetting name default floor env n h = elim (Option-cases (lookup name env)) [
  | inl unset ↦ by_default unset (ground (arith, unset, h))
  | inr (text, set) ↦ elim (Option-cases (parse_u64 text)) [
    | inl no_number ↦ absurd (ground (arith, set, no_number, h))
    | inr (k, number) ↦ given text k set number (ground (arith, set, number, h))
  ]
]

module _ (p : Packages) (parsers : Parsers p) where
  lookup-collect :
      (name : String) (l : Environment) (vars : List (String × p.header_map.Value))
      → collect (header_var p parsers) l ≡ some vars
      → lookup name vars
        ≡ elim (lookup name l) [ none ↦ none | some text ↦ parsers.header_value text ]
  unfolding collect lookup header_var
  lookup-collect name [] vars h = ground (arith, h)
  lookup-collect name ((k, v) ∷ l) vars h = elim (Option-cases (parsers.header_value v)) [
    | inl e ↦ absurd (ground (arith, e, h))
    | inr (b, e) ↦ elim (Option-cases (collect (header_var p parsers) l)) [
      | inl e' ↦ absurd (ground (arith, e, e', h))
      | inr (bs, e') ↦ ground (arith, e, e', h, lookup-collect name l bs e')
    ]
  ]

  -- A variable that holds a public key in Base64.
  abbrev pub HoldsEcdsa : String × String → p.secp256k1.VerifyingKey → Type 0
  HoldsEcdsa e key =
      (bytes : List ℕ) × (p.base64_decode e.1 ≡ ok bytes)
      × (parsers.from_sec1_bytes bytes ≡ some key)

  -- An Ed25519 key has 32 bytes.
  abbrev pub HoldsEd25519 : String × String → p.ed25519.VerifyingKey → Type 0
  HoldsEd25519 e key =
      (bytes : List ℕ) × (p.base64_decode e.1 ≡ ok bytes)
      × (length bytes ≡ 32)
      × (parsers.from_bytes bytes ≡ some key)

  ecdsa_key-Holds :
      (e : String × String) (key : p.secp256k1.VerifyingKey)
      → ecdsa_key p parsers e ≡ some key
      → HoldsEcdsa e key
  unfolding ecdsa_key
  ecdsa_key-Holds e key h = elim (Result-cases (p.base64_decode e.1)) [
    | inr (m, bad) ↦ absurd (ground (arith, bad, h))
    | inl (bytes, good) ↦ (bytes, good, ground (arith, good, h))
  ]

  ed25519_key-Holds :
      (e : String × String) (key : p.ed25519.VerifyingKey)
      → ed25519_key p parsers e ≡ some key
      → HoldsEd25519 e key
  unfolding ed25519_key
  ed25519_key-Holds e key h = elim (Result-cases (p.base64_decode e.1)) [
    | inr (m, bad) ↦ absurd (ground (arith, bad, h))
    | inl (bytes, good) ↦ (bytes, good, ground (arith, good, h), ground (arith, good, h))
  ]

  -- What the state of a server has of the variables.
  pub record IsReadFrom (env : Environment) (app : AppState p) : Type 0 where
    pub poll_interval : IsSetting "POLL_INTERVAL" 100 10 env app.poll_interval
    pub cache_ttl : IsSetting "REQUEST_TIMEOUT" 10000 1000 env app.cache_ttl
    pub agents :
        app.agents ≡ split_filtering (elim (lookup "ALLOW_AGENTS" env) [ none ↦ "" | some v ↦ v ])
    pub url_vars :
        (name : String)
        → lookup name app.url_vars ≡ (if starts_with "URL_" name then lookup name env else none)
    pub header_vars :
        (name : String)
        → lookup name app.header_vars
          ≡ elim (if starts_with "HEADER_" name then lookup name env else none) [
            | none ↦ none
            | some text ↦ parsers.header_value text
          ]
    pub ecdsa : Each HoldsEcdsa (variables "ECDSA_PUB_KEY" env) app.ecdsa_pub_keys
    pub ed25519 : Each HoldsEd25519 (variables "ED25519_PUB_KEY" env) app.ed25519_pub_keys

  record Parts (env : Environment) (app : AppState p) : Type 0 where
    timeout : setting "REQUEST_TIMEOUT" 10000 1000 env ≡ some app.cache_ttl
    interval : setting "POLL_INTERVAL" 100 10 env ≡ some app.poll_interval
    headers : collect (header_var p parsers) (variables "HEADER_" env) ≡ some app.header_vars
    ecdsas : collect (ecdsa_key p parsers) (variables "ECDSA_PUB_KEY" env) ≡ some app.ecdsa_pub_keys
    ed25519s :
        collect (ed25519_key p parsers) (variables "ED25519_PUB_KEY" env)
        ≡ some app.ed25519_pub_keys
    urls : app.url_vars ≡ variables "URL_" env
    listed :
        app.agents ≡ split_filtering (elim (lookup "ALLOW_AGENTS" env) [ none ↦ "" | some v ↦ v ])

  app_state-Parts :
      (env : Environment) (app : AppState p) → app_state p parsers env ≡ some app → Parts env app
  unfolding app_state
  app_state-Parts env app h = elim (Option-cases (setting "REQUEST_TIMEOUT" 10000 1000 env)) [
    | inl e ↦ absurd (ground (arith, e, h))
    | inr (t, timeout) ↦ elim (Option-cases (setting "POLL_INTERVAL" 100 10 env)) [
      | inl e ↦ absurd (ground (arith, timeout, e, h))
      | inr (i, interval) ↦
          elim (Option-cases (collect (header_var p parsers) (variables "HEADER_" env))) [
            | inl e ↦ absurd (ground (arith, timeout, interval, e, h))
            | inr (hs, headers) ↦
                elim (Option-cases
                  (collect (ecdsa_key p parsers) (variables "ECDSA_PUB_KEY" env))) [
                    | inl e ↦ absurd (ground (arith, timeout, interval, headers, e, h))
                    | inr (ks, ecdsas) ↦
                        elim (Option-cases
                          (collect (ed25519_key p parsers) (variables "ED25519_PUB_KEY" env))) [
                            | inl e ↦
                                absurd (ground (arith, timeout, interval, headers, ecdsas, e, h))
                            | inr (es, ed25519s) ↦ record {
                              timeout =
                                  ground (arith, timeout, interval, headers, ecdsas, ed25519s, h);
                              interval =
                                  ground (arith, timeout, interval, headers, ecdsas, ed25519s, h);
                              headers =
                                  ground (arith, timeout, interval, headers, ecdsas, ed25519s, h);
                              ecdsas =
                                  ground (arith, timeout, interval, headers, ecdsas, ed25519s, h);
                              ed25519s =
                                  ground (arith, timeout, interval, headers, ecdsas, ed25519s, h);
                              urls =
                                  ground (arith, timeout, interval, headers, ecdsas, ed25519s, h);
                              listed =
                                  ground (arith, timeout, interval, headers, ecdsas, ed25519s, h);
                            }
                          ]
                  ]
          ]
    ]
  ]

  -- Let the server start. Its poll interval is POLL_INTERVAL or 100 ms, but no less than 10, and it
  -- keeps a key for REQUEST_TIMEOUT or 10000 ms, but no less than 1000. Its agents are the
  -- trimmed and non-empty parts of ALLOW_AGENTS. A name that begins with "URL_" or "HEADER_" has
  -- the value of that variable, which the parser of header values has accepted, and no other name
  -- has one; its keys of a kind are those that the variables for that kind hold, in their order.
  pub app_state-IsReadFrom :
      (env : Environment) (app : AppState p)
      → app_state p parsers env ≡ some app
      → IsReadFrom env app
  app_state-IsReadFrom env app h =
      let parts = app_state-Parts env app h in
      record {
        poll_interval =
            setting-IsSetting "POLL_INTERVAL" 100 10 env app.poll_interval parts.interval;
        cache_ttl = setting-IsSetting "REQUEST_TIMEOUT" 10000 1000 env app.cache_ttl parts.timeout;
        agents = parts.listed;
        url_vars = λ name. ap (lookup name) parts.urls ∙ lookup-variables "URL_" name env;
        header_vars = λ name.
            rw (sym (lookup-variables "HEADER_" name env))
              (lookup-collect name (variables "HEADER_" env) app.header_vars parts.headers);
        ecdsa =
            collect-Each HoldsEcdsa (ecdsa_key p parsers) ecdsa_key-Holds
              (variables "ECDSA_PUB_KEY" env) app.ecdsa_pub_keys parts.ecdsas;
        ed25519 =
            collect-Each HoldsEd25519 (ed25519_key p parsers) ed25519_key-Holds
              (variables "ED25519_PUB_KEY" env) app.ed25519_pub_keys parts.ed25519s;
      }
