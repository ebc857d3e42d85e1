-- ===== src/Delivery/Tests.antt =====
-- One request of the small canister to the small proxy.
use idempotent_proxy.Prelude.{
  ℕ, ◌≡◌, refl, ◌+◌, String, true, false, none, some, List, [], ◌∷◌, Result, ok, join, inl, arith,
  starts_with, strip_prefix, to_ascii_lowercase,
}
use idempotent_proxy.Proxy.{AppState, Request, full_key, prepare}
use idempotent_proxy.Canister.Types.{HttpRequest}
use idempotent_proxy.Canister.Agent.{Uri, build_request}
use idempotent_proxy.Canister.Signer.Tests.{
  packages, system, unary_text, before, after, alice, alice_token, numbers_decode, system-SignsFor,
  refreshed,
}
use idempotent_proxy.Delivery.{IsDelivered, IsMeant, by_url}
use idempotent_proxy.Delivery.Agents.{refreshed-prepared}

abbrev app : AppState packages
app = record {
  poll_interval = 100;
  cache_ttl = 10000;
  agents = "alice" ∷ [];
  url_vars = [];
  header_vars = [];
  ecdsa_pub_keys = 7 ∷ [];
  ed25519_pub_keys = [];
}

-- What `http::Uri` finds in the URL below.
abbrev uri : Uri
uri = record { host = some "api.example"; path_and_query = some "/v1?x=1" }

abbrev parse_uri : String → Result Uri String
parse_uri s = ok uri

abbrev asked : HttpRequest
asked = record {
  url = "https://api.example/v1?x=1";
  max_response_bytes = none;
  headers = record { name = "idempotency-key"; value = "abc" } ∷ [];
  body = none;
  transform = none;
}

abbrev built : HttpRequest
built = record asked {
  url = "https://proxy.example/v1?x=1";
  headers =
      record { name = "idempotency-key"; value = "abc" }
      ∷ record { name = "x-forwarded-host"; value = "api.example" }
      ∷ record { name = "response-headers"; value = "date" }
      ∷ record { name = "proxy-authorization"; value = join ("Bearer " ∷ alice_token ∷ []) }
      ∷ [];
  transform = some "inner_transform_response";
}

abbrev arrived : Request packages
arrived = record {
  method = "GET";
  is_safe = true;
  path = "/v1";
  path_and_query = some "/v1?x=1";
  headers =
      ("idempotency-key", "abc")
      ∷ ("x-forwarded-host", "api.example")
      ∷ ("response-headers", "date")
      ∷ ("proxy-authorization", join ("Bearer " ∷ alice_token ∷ []))
      ∷ [];
  body = ok [];
}

asked-built :
    build_request parse_uri (record alice { proxy_token = some alice_token }) asked ≡ ok built
unfolding build_request idempotent_proxy.Canister.Agent.route
    idempotent_proxy.Canister.Agent.add_token
    idempotent_proxy.Canister.Agent.default_response_headers starts_with
asked-built = refl

arrived-IsDelivered : IsDelivered packages "https://proxy.example" built arrived
unfolding to_ascii_lowercase idempotent_proxy.Headers.extract_header idempotent_proxy.Prelude.lookup
arrived-IsDelivered = record {
  target = "/v1?x=1";
  sent_to = refl;
  path = refl;
  path_and_query = refl;
  proxy_authorization = refl;
  forwarded_host = refl;
  idempotency_key = refl;
}

asked-IsMeant : IsMeant packages parse_uri app asked "https://api.example/v1?x=1"
unfolding starts_with to_ascii_lowercase
asked-IsMeant = by_url uri "api.example" refl refl refl refl refl refl refl refl

refreshed-prepared_example :
    prepare packages app arrived 0
    ≡ ok (record {
      agent = "alice";
      url = "https://api.example/v1?x=1";
      idempotency_key = full_key packages "alice" "GET" "abc";
    })
unfolding to_ascii_lowercase
refreshed-prepared_example =
    refreshed-prepared packages system unary_text (λ n. 0) 10 0 before before after numbers_decode
      (λ n. omega arith) (λ n. omega arith) 7 system-SignsFor refreshed refl
      (record alice { proxy_token = some alice_token }) (inl refl) (λ e sig. refl) app (inl refl)
      refl parse_uri asked built refl asked-built arrived arrived-IsDelivered 0 (omega arith) _
      asked-IsMeant _ refl _ refl refl
