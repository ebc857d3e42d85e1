-- ===== src/Proxy/Small.antt =====
-- A small proxy: packages, a configuration, a request and an upstream for the tests.
use idempotent_proxy.Prelude.{
  lookup, ℕ, suc, ◌+◌, ◌≡◌, refl, ◌≢◌, ◌⊎◌, inl, inr, ◌≤◌, ◌<◌, ◌/◌, String, Bool, true, false, not,
  Option, none, some, List, [], ◌∷◌, any, is_empty, retain, str_eq, Result, ok, err, arith, Lacks,
  join, if◌then◌else◌,
}
use idempotent_proxy.Headers.{
  HeaderMap, on_values, extract_header, list_headers, list_headers-HeaderMapLaws,
}
use idempotent_proxy.Auth.{Cbor, Scheme}
use idempotent_proxy.Response.{ResponseData, Codec, new, to_bytes, try_from}
use idempotent_proxy.Memory.{MemoryCacher, empty_cacher, deadline}
use idempotent_proxy.Memory.Invariant.{IsValid}
use idempotent_proxy.Memory.Held.{NoStale}
use idempotent_proxy.Proxy.{
  Packages, AppState, Request, Prepared, Outgoing, Upstream, outgoing, prepare, response_of,
  full_key, alter_value, alter_headers, proxy,
}
use idempotent_proxy.Proxy.OverMemory.{World, CodecLaws}
use idempotent_proxy.Cache.{redis}

-- A CBOR and a signature scheme that accept nothing: no key is configured.
abbrev no_cbor : Cbor
no_cbor = record { encode_message = λ e a. []; encode_token = λ t. []; decode_token = λ b. none }

abbrev no_scheme : Scheme
no_scheme = record {
  SigningKey = ℕ;
  VerifyingKey = ℕ;
  Signature = ℕ;
  verifying_key = λ k. k;
  sign = λ k m. none;
  parse_signature = λ s. none;
  verify = λ k m g. false;
}

abbrev pub packages : Packages
packages = record {
  header_map = list_headers;
  cbor = no_cbor;
  ed25519 = no_scheme;
  secp256k1 = no_scheme;
  sha3_256 = λ m. m;
  base64_decode = λ s. err "no base64";
  Url = String;
  parse_url = ok;
}

-- A response is coded by its status and its body.
abbrev pub codec : Codec
codec = record {
  Json = ℕ;
  json_from_slice = λ b. err "no JSON";
  json_get = λ k obj. none;
  json_to_vec = λ l. err "no JSON";
  Value = ℕ;
  cbor_from_reader = λ b. err "no CBOR";
  into_map = λ v. none;
  as_text = λ v. none;
  cbor_of_map = λ l. err "no CBOR";
  response_to_bytes = λ rd. ok (rd.status ∷ rd.body);
  response_from_bytes = λ b. elim b [
    | [] ↦ err "no bytes"
    | status ∷ body ↦ ok (record (new status) { body = body })
  ];
}

abbrev pub app : AppState packages
app = record {
  poll_interval = 100;
  cache_ttl = 1000;
  agents = [];
  url_vars = ("URL_API", "https://api.example/v1") ∷ [];
  header_vars = ("HEADER_TOKEN", "s3cret") ∷ [];
  ecdsa_pub_keys = [];
  ed25519_pub_keys = [];
}

abbrev pub client_headers : List (String × String)
client_headers =
    ("host", "proxy.example") ∷ ("idempotency-key", "k1") ∷ ("authorization", "HEADER_TOKEN") ∷ []

abbrev pub request : Request packages
request = record {
  method = "GET";
  is_safe = true;
  path = "/URL_API";
  path_and_query = some "/URL_API";
  headers = client_headers;
  body = ok [];
}

abbrev pub ready : Prepared packages
ready = record { agent = "ANON"; url = "https://api.example/v1"; idempotency_key = "ANON:GET:k1" }

abbrev pub sent : Outgoing packages
sent = record {
  method = "GET";
  url = "https://api.example/v1";
  headers = ("idempotency-key", "k1") ∷ ("authorization", "s3cret") ∷ [];
  body = none;
}

abbrev pub upstream : Upstream packages
upstream = record { status = 200; headers = []; bytes = ok (4 ∷ 2 ∷ []) }

abbrev pub response : ResponseData
response = record (new 200) { body = 4 ∷ 2 ∷ [] }

-- An upstream that answers after 200 ms, and one that cannot be reached.
abbrev pub answers : Outgoing packages → World → World × Result (Upstream packages) String
answers rreq w = (record w { now = w.now + 200 }, ok upstream)

abbrev pub fails : Outgoing packages → World → World × Result (Upstream packages) String
fails rreq w = (record w { now = w.now + 200 }, err "connection refused")

abbrev pub clock : ℕ → ℕ
clock c = 6000

abbrev pub no_sleep : ℕ → ℕ → MemoryCacher → MemoryCacher
no_sleep interval counter s = s

abbrev pub lossy : List ℕ → String
lossy bytes = ""

abbrev pub start : World
start = record { cache = empty_cacher; now = 5000 }

unfoldable pub program : Unit {0}
unfolding idempotent_proxy.Proxy.Access.prepare idempotent_proxy.Proxy.outgoing
    idempotent_proxy.Proxy.Access.authorize idempotent_proxy.Proxy.Access.target_url
    idempotent_proxy.Proxy.Access.full_key idempotent_proxy.Proxy.Access.alter_headers
    idempotent_proxy.Proxy.Access.alter_value idempotent_proxy.Proxy.Access.strip_headers
    idempotent_proxy.Headers.extract_header idempotent_proxy.Prelude.lookup
    idempotent_proxy.Prelude.strip_prefix idempotent_proxy.Prelude.starts_with
    idempotent_proxy.Prelude.split idempotent_proxy.Prelude.trim
    idempotent_proxy.Prelude.to_ascii_lowercase idempotent_proxy.Proxy.response_of
    idempotent_proxy.Response.split_filtering idempotent_proxy.Response.with_headers
    idempotent_proxy.Response.push_headers idempotent_proxy.Response.with_body
    idempotent_proxy.Response.to_bytes idempotent_proxy.Response.try_from
    idempotent_proxy.Memory.obtain idempotent_proxy.Memory.queue_insert
    idempotent_proxy.Memory.deadline idempotent_proxy.Prelude.insert
    idempotent_proxy.Cache.Quiet.run_history idempotent_proxy.Cache.hybrid_obtain
    idempotent_proxy.Cache.hybrid_set idempotent_proxy.Redis.redis_obtain
    idempotent_proxy.Redis.redis_set idempotent_proxy.Proxy.proxy idempotent_proxy.Proxy.forward
    idempotent_proxy.Proxy.settle
program = tt

pub prepared : prepare packages app request 5000 ≡ ok ready
unfolding program
prepared = refl

pub built : outgoing packages app request ready.url ≡ ok sent
unfolding program
built = refl

pub responded :
    response_of packages codec request 200 [] (4 ∷ 2 ∷ []) ≡ ok (response, 200 ∷ 4 ∷ 2 ∷ [])
unfolding program
responded = refl

pub codec-CodecLaws : CodecLaws codec response
unfolding program
codec-CodecLaws = record {
  decode-encode = λ bytes h. ground arith;
  encode-ne-nil = λ bytes h. ground arith;
}

pub empty-IsValid : IsValid empty_cacher
unfolding program
empty-IsValid = record { sorted = tt; covered = λ k e v h. cc }

pub empty-NoStale : NoStale "ANON:GET:k1" empty_cacher
empty-NoStale q m h = absurd m

pub key_free : (idempotent_proxy.Memory.obtain 5000 "ANON:GET:k1" 1000 empty_cacher).1 ≡ ok true
unfolding program
key_free = refl
