-- ===== src/Config.antt =====
-- idempotent-proxy-server/src/main.rs: the configuration from the environment.
--
-- The environment is the list of its variables. A panic, of `unwrap`, `expect` or `panic!`, is
-- `none`.
pub mod Settings
pub mod Start
pub mod Running
mod Tests
use Prim.Native.Char.{Char, code}
use Prim.Native.String
use Prim.Native.Nat.{max}
use mathlib.Core.Option
use idempotent_proxy.Prelude.{
  ℕ, ◌+◌, ◌*◌, ◌-◌, String, Bool, true, false, ◌&&◌, Option, none, some, List, [], ◌∷◌, length, ltb,
  leb, ◌==◌, if◌then◌else◌, lookup, starts_with, retain, Result, ok, err, u64_mod,
}
use idempotent_proxy.Response.{split_filtering}
use idempotent_proxy.Proxy.{Packages, AppState}
use idempotent_proxy.Memory.{empty_cacher}
use idempotent_proxy.Cache.{CacherEntry, memory, redis}

-- The names are distinct.
abbrev pub Environment : Type 0
Environment = List (String × String)

-- The digits of a number after those of `acc`; more than a `u64` is an error.
unfoldable pub parse_digits : ℕ → String → Option ℕ
parse_digits acc String.[] = some acc
parse_digits acc (String.◌∷◌ c s) =
    let rest = parse_digits (acc * 10 + (code c - 48)) s in
    if leb 48 (code c) && (leb (code c) 57 && ltb (acc * 10 + (code c - 48)) u64_mod)
    then rest
    else none

-- `str::parse::<u64>`: at least one digit, after a `+` at most.
unfoldable pub parse_u64 : String → Option ℕ
unfolding parse_digits
parse_u64 String.[] = none
parse_u64 (String.◌∷◌ c String.[]) = parse_digits 0 (String.◌∷◌ c String.[])
parse_u64 (String.◌∷◌ c (String.◌∷◌ d s)) =
    if code c == b'+'
    then parse_digits 0 (String.◌∷◌ d s)
    else parse_digits 0 (String.◌∷◌ c (String.◌∷◌ d s))

-- `std::env::var(name).map(|n| n.parse().unwrap()).unwrap_or(default).max(floor)`
unfoldable pub setting : String → ℕ → ℕ → Environment → Option ℕ
setting name default floor env = elim (lookup name env) [
  | none ↦ some (max default floor)
  | some n ↦ Option.map (λ k. max k floor) (parse_u64 n)
]

-- The variables with a prefix, `std::env::vars().filter(|(k, _)| k.starts_with(prefix))`.
unfoldable pub variables : String → Environment → Environment
variables prefix env = retain (λ e. starts_with prefix e.0) env

-- The values of a list, unless one of them panics.
unfoldable pub collect : {A B : Type 0} → (A → Option B) → List A → Option (List B)
collect f [] = some []
collect f (a ∷ l) =
    let rest = collect f l in elim (f a) [ none ↦ none | some b ↦ Option.map (λ bs. b ∷ bs) rest ]

module _ (p : Packages) where
  -- `str::parse::<HeaderValue>`, and the two constructors of public keys.
  pub record Parsers : Type 0 where
    pub header_value : String → Option p.header_map.Value
    pub from_sec1_bytes : List ℕ → Option p.secp256k1.VerifyingKey
    pub from_bytes : List ℕ → Option p.ed25519.VerifyingKey

  module _ (parsers : Parsers) where
    unfoldable pub ecdsa_key : String × String → Option p.secp256k1.VerifyingKey
    ecdsa_key e = elim (p.base64_decode e.1) [ err m ↦ none | ok v ↦ parsers.from_sec1_bytes v ]

    unfoldable pub ed25519_key : String × String → Option p.ed25519.VerifyingKey
    ed25519_key e = elim (p.base64_decode e.1) [
      | err m ↦ none
      | ok v ↦ if length v == 32 then parsers.from_bytes v else none
    ]

    unfoldable pub header_var : String × String → Option (String × p.header_map.Value)
    header_var e = Option.map (λ v. (e.0, v)) (parsers.header_value e.1)

    -- The state of the server. The two durations are those of its `HybridCacher`.
    unfoldable pub app_state : Environment → Option (AppState p)
    app_state env = elim (setting "REQUEST_TIMEOUT" 10000 1000 env) [
      | none ↦ none
      | some req_timeout ↦ elim (setting "POLL_INTERVAL" 100 10 env) [
        | none ↦ none
        | some poll_interval ↦ elim (collect header_var (variables "HEADER_" env)) [
          | none ↦ none
          | some header_vars ↦ elim (collect ecdsa_key (variables "ECDSA_PUB_KEY" env)) [
            | none ↦ none
            | some ecdsa_pub_keys ↦ elim (collect ed25519_key (variables "ED25519_PUB_KEY" env)) [
              | none ↦ none
              | some ed25519_pub_keys ↦ some (record {
                poll_interval = poll_interval;
                cache_ttl = req_timeout;
                agents =
                    split_filtering (elim (lookup "ALLOW_AGENTS" env) [ none ↦ "" | some v ↦ v ]);
                url_vars = variables "URL_" env;
                header_vars = header_vars;
                ecdsa_pub_keys = ecdsa_pub_keys;
                ed25519_pub_keys = ed25519_pub_keys;
              })
            ]
          ]
        ]
      ]
    ]

-- The choice of the cache; `connect` is `RedisClient::new`.
unfoldable pub cacher_entry :
    {S : Type 0} → (String → Option S) → Environment → Option (CacherEntry S)
cacher_entry connect env = elim (lookup "REDIS_URL" env) [
  | none ↦ some (memory empty_cacher)
  | some url ↦ Option.map redis (connect url)
]
