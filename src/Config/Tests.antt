-- ===== src/Config/Tests.antt =====
-- A small environment, and the theorem at it.
use idempotent_proxy.Prelude.{
  ℕ, ◌≡◌, refl, String, false, Option, none, some, List, [], ◌∷◌, Result, ok, err,
}
use idempotent_proxy.Headers.{list_headers}
use idempotent_proxy.Auth.{Cbor, Scheme}
use idempotent_proxy.Proxy.{Packages, AppState}
use idempotent_proxy.Config.{Environment, Parsers, setting, app_state}
use idempotent_proxy.Memory.{empty_cacher}
use idempotent_proxy.Cache.{memory}
use idempotent_proxy.Config.Start.{
  Platform, ClientOptions, client_options, Running, listener, plain, tls, start,
}
use idempotent_proxy.Config.Running.{IsRunning, start-IsRunning}

-- Base64 decodes any text to three bytes, and any bytes are a key.
abbrev some_scheme : Scheme
some_scheme = record {
  SigningKey = ℕ;
  VerifyingKey = List ℕ;
  Signature = ℕ;
  verifying_key = λ k. [];
  sign = λ k m. none;
  parse_signature = λ s. none;
  verify = λ k m g. false;
}

abbrev no_tokens : Cbor
no_tokens = record { encode_message = λ e a. []; encode_token = λ t. []; decode_token = λ b. none }

abbrev key_bytes : List ℕ
key_bytes = 1 ∷ 2 ∷ 3 ∷ []

abbrev packages : Packages
packages = record {
  header_map = list_headers;
  cbor = no_tokens;
  ed25519 = some_scheme;
  secp256k1 = some_scheme;
  sha3_256 = λ m. m;
  base64_decode = λ s. ok key_bytes;
  Url = String;
  parse_url = ok;
}

abbrev parsers : Parsers packages
parsers = record { header_value = some; from_sec1_bytes = some; from_bytes = some }

abbrev env : Environment
env =
    ("POLL_INTERVAL", "2")
    ∷ ("ALLOW_AGENTS", "LDCLabs, ANON,")
    ∷ ("URL_API", "https://api.example/v1")
    ∷ ("HEADER_TOKEN", "s3cret")
    ∷ ("ECDSA_PUB_KEY_1", "A44DZpzDwDvq9HwW3_dynOfDgkMJHKgOxUyCOrv5Pl3O")
    ∷ ("REQUEST_TIMEOUT", "+2500")
    ∷ []

abbrev started : AppState packages
started = record {
  poll_interval = 10;
  cache_ttl = 2500;
  agents = "LDCLabs" ∷ "ANON" ∷ [];
  url_vars = ("URL_API", "https://api.example/v1") ∷ [];
  header_vars = ("HEADER_TOKEN", "s3cret") ∷ [];
  ecdsa_pub_keys = key_bytes ∷ [];
  ed25519_pub_keys = [];
}

env_starts : app_state packages parsers env ≡ some started
unfolding app_state idempotent_proxy.Config.setting idempotent_proxy.Prelude.lookup
    idempotent_proxy.Config.parse_u64 idempotent_proxy.Config.collect
    idempotent_proxy.Config.variables idempotent_proxy.Prelude.starts_with
    idempotent_proxy.Config.header_var idempotent_proxy.Config.ecdsa_key
    idempotent_proxy.Response.split_filtering idempotent_proxy.Prelude.split
    idempotent_proxy.Prelude.trim
env_starts = refl

-- A platform that makes everything, where an address is its text.
abbrev platform : Platform ℕ
platform = record {
  Client = ClientOptions;
  build_client = some;
  Manager = String;
  manager = some;
  build_pool = λ options m. ok options.max_size;
  Addr = String;
  parse_addr = some;
  Tls = String × String;
  from_pem_file = λ cert key. some (cert, key);
}

abbrev serving : Running platform packages parsers
serving = record {
  client = client_options 2500;
  entry = memory empty_cacher;
  app = started;
  listens = plain "127.0.0.1:8080";
}

env_serves : start platform packages parsers env ≡ some serving
unfolding start listener idempotent_proxy.Config.cacher_entry app_state
    idempotent_proxy.Config.setting idempotent_proxy.Prelude.lookup
    idempotent_proxy.Config.parse_u64 idempotent_proxy.Config.collect
    idempotent_proxy.Config.variables idempotent_proxy.Prelude.starts_with
    idempotent_proxy.Config.header_var idempotent_proxy.Config.ecdsa_key
    idempotent_proxy.Response.split_filtering idempotent_proxy.Prelude.split
    idempotent_proxy.Prelude.trim
env_serves = refl

start-IsRunning_example : IsRunning platform packages parsers env serving
start-IsRunning_example = start-IsRunning platform packages parsers env serving env_serves

-- With a key file there is TLS, with a certificate alone there is none.
key_file :
    (listener platform (("TLS_KEY_FILE", "k.pem") ∷ ("TLS_CERT_FILE", "c.pem") ∷ [])
      ≡ some (tls "127.0.0.1:8080" ("c.pem", "k.pem")))
    × (listener platform (("TLS_CERT_FILE", "c.pem") ∷ []) ≡ some (plain "127.0.0.1:8080"))
unfolding listener idempotent_proxy.Prelude.lookup
key_file = (refl, refl)

-- Nothing bounds the poll interval by the time to live.
slow_polls :
    (setting "POLL_INTERVAL" 100 10 (("POLL_INTERVAL", "20000") ∷ []) ≡ some 20000)
    × (setting "REQUEST_TIMEOUT" 10000 1000 (("POLL_INTERVAL", "20000") ∷ []) ≡ some 10000)
unfolding setting idempotent_proxy.Prelude.lookup idempotent_proxy.Config.parse_u64
slow_polls = (refl, refl)
