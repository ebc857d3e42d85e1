-- ===== src/Delivery.antt =====
-- From the canister to the proxy: idempotent-proxy-canister/src/agent.rs at one end,
-- idempotent-proxy-server/src/handler.rs at the other.
--
-- Between them stands HTTP, which is no code of the repository: `IsDelivered` says how a request
-- that the canister sends arrives. A header's name is read without its case, and of several values
-- the first is read; the endpoint is the origin of the proxy, and the rest of the URL is what the
-- proxy sees as the path and the query.
pub mod Headers
pub mod Targets
pub mod Agents
pub mod Replicas
mod Tests
use Prim.Native.Char.{code}
use Prim.Native.String
use idempotent_proxy.Prelude.{
  ℕ, ◌≡◌, String, Bool, true, false, Option, none, some, List, [], ◌∷◌, any, if◌then◌else◌, ◌==◌,
  str_eq, text_is_empty, starts_with, join, lookup, to_ascii_lowercase, Lacks, Result, ok,
}
use idempotent_proxy.Headers.{extract_header}
use idempotent_proxy.Proxy.{Packages, AppState, Request, authorize}
use idempotent_proxy.Canister.Types.{HttpHeader, HttpRequest}
use idempotent_proxy.Canister.Agent.{Uri}

-- A header of the name, which is in lower case.
abbrev pub is_named : String → HttpHeader → Bool
is_named name h = str_eq (to_ascii_lowercase h.name) name

-- The first value of the name, or "".
abbrev pub first_header : String → List HttpHeader → String
first_header name [] = ""
first_header name (h ∷ headers) = if is_named name h then h.value else first_header name headers

-- The path of a path and query.
abbrev pub path_of : String → String
path_of String.[] = ""
path_of (String.◌∷◌ c s) = if code c == b'?' then "" else String.◌∷◌ c (path_of s)

-- The URL's path and query, or the root.
abbrev pub target_of : Uri → String
target_of uri = elim uri.path_and_query [ none ↦ "/" | some v ↦ v ]

module _ (p : Packages) where
  -- How `sent` arrives at the proxy at the endpoint.
  pub record IsDelivered (endpoint : String) (sent : HttpRequest) (req : Request p) : Type 0 where
    pub target : String
    pub sent_to : sent.url ≡ join (endpoint ∷ target ∷ [])
    pub path : req.path ≡ path_of target
    pub path_and_query : req.path_and_query ≡ some target
    pub proxy_authorization :
        extract_header p.header_map "proxy-authorization" req.headers
        ≡ first_header "proxy-authorization" sent.headers
    pub forwarded_host :
        extract_header p.header_map "x-forwarded-host" req.headers
        ≡ first_header "x-forwarded-host" sent.headers
    pub idempotency_key :
        extract_header p.header_map "idempotency-key" req.headers
        ≡ first_header "idempotency-key" sent.headers

  -- What the caller's request is for: a URL of the proxy's configuration by its name, or the
  -- caller's own URL. That one is `https`, and has nothing but its host before the path: no port.
  pub data IsMeant (parse_uri : String → Result Uri String) (app : AppState p) (req : HttpRequest)
      : String → Type 0 where
    configured :
        {url : String}
        → starts_with "URL_" req.url ≡ true
        → Lacks b'?' req.url
        → lookup req.url app.url_vars ≡ some url
        → starts_with "http" url ≡ true
        → IsMeant parse_uri app req url
    by_url :
        {url : String} (uri : Uri) (host : String)
        → starts_with "URL_" req.url ≡ false
        → parse_uri req.url ≡ ok uri
        → uri.host ≡ some host
        → text_is_empty host ≡ false
        → any (is_named "x-forwarded-host") req.headers ≡ false
        → starts_with "/URL_" (path_of (target_of uri)) ≡ false
        → req.url ≡ join ("https://" ∷ host ∷ target_of uri ∷ [])
        → url ≡ req.url
        → IsMeant parse_uri app req url
