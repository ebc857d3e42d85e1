-- ===== src/Proxy/Bearer.antt =====
-- A request with a token that is accepted.
use Prim.Native.String
use text.Mathlib.TextLemmas.{nil-append, cons-append, append-nil}
use idempotent_proxy.Prelude.{
  ℕ, ◌≡◌, refl, ap, ◌∙◌, String, true, false, ◌||◌, some, List, [], ◌∷◌, any, is_empty,
  text_is_empty, join, strip_prefix, str_eq, ok, arith,
}
use idempotent_proxy.Auth.{Token, ecdsa_verify}
use idempotent_proxy.Headers.{extract_header}
use idempotent_proxy.Proxy.Access.{
  Packages, AppState, Request, verify_token, authorize, target_url, full_key, prepare,
}

strip_prefix-append : (s t : String) → strip_prefix s (String.◌++◌ s t) ≡ some t
unfolding strip_prefix
strip_prefix-append String.[] t = ap some (nil-append t)
strip_prefix-append (String.◌∷◌ c s) t =
    rw (cons-append c s t) (ground (arith, strip_prefix-append s t))

bearer : (token : String) → strip_prefix "Bearer " (join ("Bearer " ∷ token ∷ [])) ≡ some token
bearer token =
    strip_prefix-append "Bearer " (String.◌++◌ token String.[]) ∙ ap some (append-nil token)

module _ (p : Packages) (app : AppState p) (req : Request p) (now_ms : ℕ) where
  -- The head of `proxy` for a bearer token whose bytes are accepted.
  pub authorize-bearer :
      (token : String) (bytes : List ℕ) (t : Token)
      → is_empty app.ecdsa_pub_keys ≡ false
      → (is_empty app.agents || any (str_eq t.agent) app.agents) ≡ true
      → extract_header p.header_map "proxy-authorization" req.headers
        ≡ join ("Bearer " ∷ token ∷ [])
      → p.base64_decode token ≡ ok bytes
      → ecdsa_verify p.cbor p.secp256k1 p.sha3_256 app.ecdsa_pub_keys bytes now_ms ≡ ok t
      → authorize p app req now_ms ≡ ok t.agent
  unfolding authorize verify_token
  authorize-bearer token bytes t keys known given decoded accepted =
      rw (given, authorize) (ground (arith, bearer token))

  -- What is prepared once the agent, the target and the key are found.
  pub prepare-ready :
      (agent text key : String) (url : p.Url)
      → authorize p app req now_ms ≡ ok agent
      → target_url p app req ≡ ok text
      → p.parse_url text ≡ ok url
      → extract_header p.header_map "idempotency-key" req.headers ≡ key
      → text_is_empty key ≡ false
      → prepare p app req now_ms
        ≡ ok
            (record { agent = agent; url = url; idempotency_key = full_key p agent req.method key })
  unfolding prepare
  prepare-ready agent text key url allowed target parsed given nonempty =
      rw (allowed, prepare) (rw target (rw parsed (rw (given, nonempty) refl)))
