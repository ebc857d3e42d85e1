-- ===== src/Canister/Agent.antt =====
-- idempotent-proxy-canister/src/agent.rs: one proxy, and the request that it is sent.
--
-- `parse_uri` is `http::Uri` (the host, if there is one, and the path and query, if there is one),
-- and `http_request` the system's HTTPS outcall, at one call; its error is the text that the code
-- formats. `build_request` mutates the request, so that it returns the new one.
pub mod Requests
use idempotent_proxy.Prelude.{
  ℕ, String, Bool, true, false, not, Option, none, some, List, [], ◌∷◌, ◌++◌, any, if◌then◌else◌,
  leb, str_eq, join, starts_with, Result, ok, err, ◌>>=◌, map_err,
}
use idempotent_proxy.Canister.Types.{HttpHeader, HttpRequest, HttpResponse, Agent}

-- A parsed URI.
pub record Uri : Type 0 where
  pub host : Option String
  pub path_and_query : Option String

abbrev pub has_header : String → List HttpHeader → Bool
has_header name = any (λ h. str_eq h.name name)

-- The choice of the URL and of the forwarded host.
unfoldable pub route :
    (String → Result Uri String) → Agent → HttpRequest → Result HttpRequest String
route parse_uri a req =
    if starts_with "URL_" req.url
    then ok (record req { url = join (a.endpoint ∷ "/" ∷ req.url ∷ []) })
    else (map_err (λ e. join ("parse url " ∷ req.url ∷ " error: " ∷ e ∷ [])) (parse_uri req.url)
        >>= λ url. elim url.host [
          | none ↦ err (join ("url host is empty: " ∷ req.url ∷ []))
          | some host ↦ ok (record req {
            headers = req.headers ++ (record { name = "x-forwarded-host"; value = host } ∷ []);
            url = join (a.endpoint ∷ elim url.path_and_query [ none ↦ "/" | some v ↦ v ] ∷ []);
          })
        ])

-- The header that asks the proxy for no more than the date, unless the caller has set it.
unfoldable pub default_response_headers : HttpRequest → HttpRequest
default_response_headers req =
    if not (has_header "response-headers" req.headers)
    then record req {
      headers = req.headers ++ (record { name = "response-headers"; value = "date" } ∷ []);
    }
    else req

unfoldable pub add_token : Option String → HttpRequest → HttpRequest
add_token none req = req
add_token (some token) req = record req {
  headers =
      req.headers
      ++ (record { name = "proxy-authorization"; value = join ("Bearer " ∷ token ∷ []) } ∷ []);
}

unfoldable pub build_request :
    (String → Result Uri String) → Agent → HttpRequest → Result HttpRequest String
build_request parse_uri a req =
    if not (has_header "idempotency-key" req.headers)
    then err "idempotency-key header is missing"
    else (route parse_uri a req >>= λ routed.
        ok (record (add_token a.proxy_token (default_response_headers routed)) {
          transform = some "inner_transform_response";
        }))

-- `Agent::call`; `utf8` gives the bytes of a text.
unfoldable pub call :
    (String → Result Uri String)
    → (String → List ℕ)
    → (HttpRequest → ℕ → Result HttpResponse String)
    → Agent
    → HttpRequest
    → Result HttpResponse HttpResponse
call parse_uri utf8 http_request a req = elim (build_request parse_uri a req) [
  | err e ↦ ok (record { status = 400; body = utf8 e; headers = [] })
  | ok built ↦ elim (http_request built a.max_cycles) [
    | ok res ↦ if leb res.status 500 then ok res else err res
    | err message ↦ err (record { status = 503; body = utf8 message; headers = [] })
  ]
]

-- Drops the headers of a response, for consensus.
unfoldable pub inner_transform_response : HttpResponse → HttpResponse
inner_transform_response res = record res { headers = [] }
