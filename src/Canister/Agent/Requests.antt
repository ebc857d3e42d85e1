-- ===== src/Canister/Agent/Requests.antt =====
-- The request that a proxy is sent.
use idempotent_proxy.Prelude.{
  ℕ, ◌≡◌, refl, ◌∙◌, inl, inr, ◌≤◌, ◌<◌, String, true, false, Option, none, some, List, [], ◌∷◌,
  ◌++◌, if◌then◌else◌, leb, join, starts_with, Result, ok, err, arith, Bool-cases, Option-cases,
  Result-cases,
}
use mathlib.Core.List.{append_assoc, append-nil}
use idempotent_proxy.Canister.Types.{HttpHeader, HttpRequest, HttpResponse, Agent}
use idempotent_proxy.Canister.Agent.{
  Uri, has_header, route, default_response_headers, add_token, build_request, call,
}

-- The headers that are appended to the caller's: of the route, of the default, of the token.
pub data IsRouted (parse_uri : String → Result Uri String) (a : Agent) (req : HttpRequest)
    : String → List HttpHeader → Type 0 where
  by_name :
      {url : String} {added : List HttpHeader}
      → starts_with "URL_" req.url ≡ true
      → url ≡ join (a.endpoint ∷ "/" ∷ req.url ∷ [])
      → added ≡ []
      → IsRouted parse_uri a req url added
  by_host :
      {url : String} {added : List HttpHeader} (uri : Uri) (host : String)
      → starts_with "URL_" req.url ≡ false
      → parse_uri req.url ≡ ok uri
      → uri.host ≡ some host
      → url ≡ join (a.endpoint ∷ elim uri.path_and_query [ none ↦ "/" | some v ↦ v ] ∷ [])
      → added ≡ record { name = "x-forwarded-host"; value = host } ∷ []
      → IsRouted parse_uri a req url added

abbrev pub token_headers : Option String → List HttpHeader
token_headers none = []
token_headers (some token) =
    record { name = "proxy-authorization"; value = join ("Bearer " ∷ token ∷ []) } ∷ []

abbrev pub default_headers : List HttpHeader → List HttpHeader
default_headers headers =
    if has_header "response-headers" headers
    then []
    else record { name = "response-headers"; value = "date" } ∷ []

token_added :
    (token : Option String) (r : HttpRequest)
    → (add_token token (default_response_headers r)).headers
      ≡ r.headers ++ (default_headers r.headers ++ token_headers token)
unfolding add_token default_response_headers
token_added none r = ground (arith, append-nil r.headers, append-nil (default_headers r.headers))
token_added (some token) r =
    ground (arith, append_assoc r.headers (default_headers r.headers) (token_headers (some token)))

token_kept :
    (token : Option String) (r : HttpRequest)
    → ((add_token token (default_response_headers r)).url ≡ r.url)
      × ((add_token token (default_response_headers r)).body ≡ r.body)
      × ((add_token token (default_response_headers r)).max_response_bytes ≡ r.max_response_bytes)
unfolding add_token default_response_headers
token_kept none r = ground arith
token_kept (some token) r = ground arith

module _ (parse_uri : String → Result Uri String) (a : Agent) (req : HttpRequest) where
  route-IsRouted :
      (routed : HttpRequest)
      → route parse_uri a req ≡ ok routed
      → (added : List HttpHeader) × IsRouted parse_uri a req routed.url added
        × (routed.headers ≡ req.headers ++ added)
        × (routed.body ≡ req.body)
        × (routed.max_response_bytes ≡ req.max_response_bytes)
  unfolding route
  route-IsRouted routed h = elim (Bool-cases (starts_with "URL_" req.url)) [
    | inl named ↦ (
      [],
      by_name named (ground arith) refl,
      ground (arith, append-nil req.headers),
      ground arith,
      ground arith,
    )
    | inr other ↦ elim (Result-cases (parse_uri req.url)) [
      | inr (e, bad) ↦ absurd (ground arith)
      | inl (uri, parsed) ↦ elim (Option-cases uri.host) [
        | inl no_host ↦ absurd (ground arith)
        | inr (host, found) ↦ (
          record { name = "x-forwarded-host"; value = host } ∷ [],
          by_host uri host other parsed found (ground arith) refl,
          ground arith,
          ground arith,
          ground arith,
        )
      ]
    ]
  ]

  -- The request to a proxy. `build_request` succeeds only for a request with an idempotency key.
  -- It routes the request to the agent's endpoint, by the name of a configured URL or by the host
  -- of the caller's URL; it keeps the caller's headers in front, their values and their order, and
  -- appends the forwarded host, a default list of response headers if none is given, and the
  -- agent's token if it has one; the body and the response's bound stay.
  pub build_request-IsRouted :
      (built : HttpRequest)
      → build_request parse_uri a req ≡ ok built
      → (added : List HttpHeader) × (has_header "idempotency-key" req.headers ≡ true)
        × IsRouted parse_uri a req built.url added
        × (built.headers
            ≡ (req.headers ++ added)
              ++ (default_headers (req.headers ++ added) ++ token_headers a.proxy_token))
        × (built.body ≡ req.body)
        × (built.max_response_bytes ≡ req.max_response_bytes)
        × (built.transform ≡ some "inner_transform_response")
  unfolding build_request
  build_request-IsRouted built h = elim (Bool-cases (has_header "idempotency-key" req.headers)) [
    | inr no_key ↦ absurd (ground arith)
    | inl keyed ↦ elim (Result-cases (route parse_uri a req)) [
      | inr (e, unrouted) ↦ absurd (ground arith)
      | inl (routed, found) ↦
          let (added, is_routed, headers, body, bound) = route-IsRouted routed found in
          let full : List HttpHeader =
            (add_token a.proxy_token (default_response_headers routed)).headers in
          let (url_kept, body_kept, bound_kept) = token_kept a.proxy_token routed in
          let same_url : built.url ≡ routed.url = ground arith in
          let all_headers : built.headers ≡ full = ground arith in
          (
            added,
            keyed,
            rw same_url is_routed,
            all_headers ∙ rw (← headers) (token_added a.proxy_token routed),
            ground arith,
            ground arith,
            ground arith,
          )
    ]
  ]

-- An `Ok` response has a status of at most 500, an error response one above.
abbrev pub IsClassified : Result HttpResponse HttpResponse → Type 0
IsClassified (ok res) = res.status ≤ 500
IsClassified (err res) = 500 < res.status

-- What `call` makes of the answers. It returns `Ok` only with a status of at most 500, and an
-- error only with a status above 500, also where the request cannot be built or sent.
pub call-IsClassified :
    (parse_uri : String → Result Uri String) (utf8 : String → List ℕ)
    (http_request : HttpRequest → ℕ → Result HttpResponse String) (a : Agent) (req : HttpRequest)
    → IsClassified (call parse_uri utf8 http_request a req)
unfolding call
call-IsClassified parse_uri utf8 http_request a req =
    elim (Result-cases (build_request parse_uri a req)) [
      | inr (e, unbuilt) ↦ rw (unbuilt, call) (omega arith)
      | inl (built, done) ↦ elim (Result-cases (http_request built a.max_cycles)) [
        | inr (e, unsent) ↦ rw (done, call) (rw unsent (omega arith))
        | inl (res, sent) ↦ elim (Bool-cases (leb res.status 500)) [
          | inl good ↦ rw (done, call) (rw sent (rw good (ground arith)))
          | inr bad ↦ rw (done, call) (rw sent (rw bad (ground arith)))
        ]
      ]
    ]
