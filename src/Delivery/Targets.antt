-- ===== src/Delivery/Targets.antt =====
-- The URL that the proxy asks for.
use Prim.Native.Char.{Char, code}
use Prim.Native.String
use text.Mathlib.TextLemmas.{nil-append, cons-append, append-nil, append_cancel_left}
use idempotent_proxy.Prelude.{
  ◌≡◌, refl, sym, ap, ◌∙◌, String, true, false, some, List, [], ◌∷◌, ◌==◌, join, starts_with,
  strip_prefix, text_is_empty, lookup, Lacks, Result, ok, inl, inr, Bool-cases, arith,
}
use idempotent_proxy.Headers.{extract_header}
use idempotent_proxy.Proxy.{Packages, AppState, Request}
use idempotent_proxy.Proxy.{target_url}
use idempotent_proxy.Canister.Types.{HttpHeader, HttpRequest, Agent}
use idempotent_proxy.Canister.Agent.{Uri}
use idempotent_proxy.Canister.Agent.Requests.{IsRouted, by_name, by_host}
use idempotent_proxy.Delivery.{IsDelivered, IsMeant, configured, by_url, path_of, target_of}
use idempotent_proxy.Delivery.Headers.{built_headers, built_host}

path_of-Lacks : (s : String) → Lacks b'?' s → path_of s ≡ s
path_of-Lacks String.[] h = refl
path_of-Lacks (String.◌∷◌ c s) h = elim (Bool-cases (code c == b'?')) [
  | inl same ↦ absurd (h.0 (ground arith))
  | inr other ↦ rw other (ap (String.◌∷◌ c) (path_of-Lacks s h.1))
]

abbrev slash : Char
slash = "/"

slash_cons : (name : String) → join ("/" ∷ name ∷ []) ≡ String.◌∷◌ slash name
slash_cons name =
    cons-append slash String.[] _ ∙ ap (String.◌∷◌ slash) (nil-append _ ∙ append-nil name)

slash_path :
    (name : String) → Lacks b'?' name → path_of (String.◌∷◌ slash name) ≡ String.◌∷◌ slash name
slash_path name h = ap (String.◌∷◌ slash) (path_of-Lacks name h)

named_path :
    (name : String)
    → starts_with "URL_" name ≡ true
    → starts_with "/URL_" (String.◌∷◌ slash name) ≡ true
unfolding starts_with strip_prefix
named_path name h = h

path_name : (name : String) → strip_prefix "/" (String.◌∷◌ slash name) ≡ some name
unfolding strip_prefix
path_name name = refl

module _ (p : Packages) (app : AppState p) (preq : Request p) where
  target_named :
      (name url : String)
      → preq.path ≡ String.◌∷◌ slash name
      → starts_with "URL_" name ≡ true
      → lookup name app.url_vars ≡ some url
      → starts_with "http" url ≡ true
      → target_url p app preq ≡ ok url
  unfolding target_url
  target_named name url path named found valid =
      rw (path, target_url) (ground (arith, named_path name named, path_name name))

  target_hosted :
      (host target : String)
      → starts_with "/URL_" preq.path ≡ false
      → extract_header p.header_map "x-forwarded-host" preq.headers ≡ host
      → text_is_empty host ≡ false
      → preq.path_and_query ≡ some target
      → target_url p app preq ≡ ok (join ("https://" ∷ host ∷ target ∷ []))
  unfolding target_url
  target_hosted host target other forwarded nonempty query = ground arith

module _ (p : Packages) (endpoint : String) (sent : HttpRequest) (preq : Request p)
    (d : IsDelivered p endpoint sent preq) where
  same_target : (rest : String) → sent.url ≡ String.◌++◌ endpoint rest → d.target ≡ rest
  same_target rest h =
      sym (append-nil d.target) ∙ append_cancel_left endpoint _ _ (sym d.sent_to ∙ h)

  -- A request for a URL of the configuration.
  pub delivered-named :
      (app : AppState p) (name url : String)
      → sent.url ≡ join (endpoint ∷ "/" ∷ name ∷ [])
      → starts_with "URL_" name ≡ true
      → Lacks b'?' name
      → lookup name app.url_vars ≡ some url
      → starts_with "http" url ≡ true
      → target_url p app preq ≡ ok url
  delivered-named app name url same named plain found valid =
      target_named p app preq name url
        (d.path ∙ ap path_of (same_target _ same ∙ slash_cons name) ∙ slash_path name plain) named
        found valid

-- The proxy asks for the URL that is meant.
module _ (p : Packages) (parse_uri : String → Result Uri String) (a : Agent)
    (req built : HttpRequest) (app : AppState p) (preq : Request p)
    (d : IsDelivered p a.endpoint built preq) where
  pub delivered-target :
      (token : String) (added : List HttpHeader)
      → IsRouted parse_uri a req built.url added
      → built.headers ≡ built_headers (some token) req.headers added
      → (url : String) → IsMeant p parse_uri app req url
      → target_url p app preq ≡ ok url
  delivered-target token added (by_name named same none_added) headers url
        (configured named' plain found valid) =
      delivered-named p a.endpoint built preq d app req.url url same named plain found valid
  delivered-target token added (by_name named same none_added) headers url
        (by_url uri host other parsed found valid clean path whole eq) =
      absurd (ground arith)
  delivered-target token added (by_host uri host other parsed found same is_added) headers url
        (configured named plain found' valid) =
      absurd (ground arith)
  delivered-target token added (by_host uri host other parsed found same is_added) headers url
        (by_url uri' host' other' parsed' found' valid clean path whole eq) =
      let uris : uri' ≡ uri = cc in
      let same_host : host' ≡ host = ground arith in
      let target : d.target ≡ target_of uri' =
        same_target p a.endpoint built preq d _ same ∙ append-nil _ ∙ ap target_of (sym uris) in
      target_hosted p app preq host' (target_of uri') (rw (d.path, target) path)
        (d.forwarded_host
          ∙ rw (headers, is_added, same_host) (built_host req.headers host token clean))
        valid (d.path_and_query ∙ ap some target)
      ∙ ap ok (sym (eq ∙ whole))
