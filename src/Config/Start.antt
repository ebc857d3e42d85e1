-- ===== src/Config/Start.antt =====
-- The start of the server: `main` of idempotent-proxy-server/src/main.rs, and `RedisClient::new` of
-- cache/redis.rs.
--
-- The builders of the HTTP client and of the pool, the parser of addresses and the reading of the
-- TLS files are other packages. A panic is `none`. The router has one route, to `proxy`.
use idempotent_proxy.Prelude.{
  ℕ, ◌≡◌, String, Bool, true, false, Option, none, some, text_is_empty, if◌then◌else◌, lookup,
  Result, ok, err,
}
use idempotent_proxy.Proxy.{Packages, AppState}
use idempotent_proxy.Memory.{empty_cacher}
use idempotent_proxy.Cache.{CacherEntry, memory, redis}
use idempotent_proxy.Config.{Environment, Parsers, app_state, cacher_entry}

-- The options of the HTTP client, in seconds but for the last timeout.
pub record ClientOptions : Type 0 where
  pub keep_alive_interval : ℕ
  pub keep_alive_timeout : ℕ
  pub keep_alive_while_idle : Bool
  pub connect_timeout : ℕ
  pub timeout_ms : ℕ
  pub gzip : Bool

-- The options of the pool, in seconds.
pub record PoolOptions : Type 0 where
  pub max_size : ℕ
  pub min_idle : Option ℕ
  pub max_lifetime : Option ℕ
  pub idle_timeout : Option ℕ
  pub connection_timeout : ℕ

pub record Platform (S : Type 0) : Type 1 where
  pub Client : Type 0
  pub build_client : ClientOptions → Option Client
  pub Manager : Type 0
  pub manager : String → Option Manager
  pub build_pool : PoolOptions → Manager → Result S String
  pub Addr : Type 0
  pub parse_addr : String → Option Addr
  pub Tls : Type 0
  pub from_pem_file : String → String → Option Tls

abbrev pub client_options : ℕ → ClientOptions
client_options req_timeout = record {
  keep_alive_interval = 25;
  keep_alive_timeout = 15;
  keep_alive_while_idle = true;
  connect_timeout = 10;
  timeout_ms = req_timeout;
  gzip = true;
}

abbrev pub pool_options : PoolOptions
pool_options = record {
  max_size = 10;
  min_idle = some 1;
  max_lifetime = none;
  idle_timeout = some 600;
  connection_timeout = 3;
}

-- `std::env::var(name).unwrap_or(default)`
abbrev pub variable_or : String → String → Environment → String
variable_or name default env = elim (lookup name env) [ none ↦ default | some v ↦ v ]

module _ {S : Type 0} (platform : Platform S) where
  unfoldable pub redis_new : String → Option (Result S String)
  redis_new url = elim (platform.manager url) [
    | none ↦ none
    | some m ↦ some (platform.build_pool pool_options m)
  ]

  -- `RedisClient::new(&url).await.unwrap()`
  unfoldable pub connect : String → Option S
  unfolding redis_new
  connect url = elim (redis_new url) [ none ↦ none | some (err e) ↦ none | some (ok s) ↦ some s ]

  -- How the server listens. `plain` ends with `shutdown_signal`, and `tls` does not wait for it.
  pub data Listener : Type 0 where
    plain : platform.Addr → Listener
    tls : platform.Addr → platform.Tls → Listener

  unfoldable pub listener : Environment → Option Listener
  listener env = elim (platform.parse_addr (variable_or "SERVER_ADDR" "127.0.0.1:8080" env)) [
    | none ↦ none
    | some addr ↦
        if text_is_empty (variable_or "TLS_KEY_FILE" "" env)
        then some (plain addr)
        else elim (platform.from_pem_file (variable_or "TLS_CERT_FILE" "" env)
            (variable_or "TLS_KEY_FILE" "" env)) [
              | none ↦ none
              | some config ↦ some (tls addr config)
            ]
  ]

  module _ (p : Packages) (parsers : Parsers p) where
    -- A server that serves.
    pub record Running : Type 0 where
      pub client : platform.Client
      pub entry : CacherEntry S
      pub app : AppState p
      pub listens : Listener

    unfoldable pub start : Environment → Option Running
    unfolding connect listener
    start env = elim (app_state p parsers env) [
      | none ↦ none
      | some app ↦ elim (platform.build_client (client_options app.cache_ttl)) [
        | none ↦ none
        | some client ↦ elim (cacher_entry connect env) [
          | none ↦ none
          | some entry ↦ elim (listener env) [
            | none ↦ none
            | some listens ↦
                some (record { client = client; entry = entry; app = app; listens = listens })
          ]
        ]
      ]
    ]

    -- How the server listens, by its environment.
    pub data IsListening (env : Environment) : Listener → Type 0 where
      open_to_all :
          {addr : platform.Addr}
          → platform.parse_addr (variable_or "SERVER_ADDR" "127.0.0.1:8080" env) ≡ some addr
          → text_is_empty (variable_or "TLS_KEY_FILE" "" env) ≡ true
          → IsListening env (plain addr)
      encrypted :
          {addr : platform.Addr} {config : platform.Tls}
          → platform.parse_addr (variable_or "SERVER_ADDR" "127.0.0.1:8080" env) ≡ some addr
          → text_is_empty (variable_or "TLS_KEY_FILE" "" env) ≡ false
          → platform.from_pem_file
              (variable_or "TLS_CERT_FILE" "" env)
              (variable_or "TLS_KEY_FILE" "" env)
            ≡ some config
          → IsListening env (tls addr config)

    -- The cache that it has: the one at a Redis server exactly if there is a URL for it.
    pub data IsCache (env : Environment) : CacherEntry S → Type 0 where
      in_memory : lookup "REDIS_URL" env ≡ none → IsCache env (memory empty_cacher)
      at_redis :
          {s : S} (url : String) (m : platform.Manager)
          → lookup "REDIS_URL" env ≡ some url
          → platform.manager url ≡ some m
          → platform.build_pool pool_options m ≡ ok s
          → IsCache env (redis s)
