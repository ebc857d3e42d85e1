-- ===== src/Canister/Signer/Tokens.antt =====
-- The tokens of the canister at the proxy.
use idempotent_proxy.Prelude.{
  none, some, Option-cases, ℕ, ◌+◌, ◌/◌, ◌<◌, ◌≤◌, ◌≡◌, refl, sym, ap, ◌∙◌, String, true, false,
  ◌||◌, some, List, [], ◌∷◌, any, is_empty, join, str_eq, Member, ok, Result-cases, Option-cases,
  arith, u64_mod, inl, inr,
}
use idempotent_proxy.Auth.{Token, is_expired, permitted_drift, ecdsa_verify}
use idempotent_proxy.Auth.Laws.{RoundTrips, ecdsa_verify_iff}
use idempotent_proxy.Headers.{extract_header}
use idempotent_proxy.Proxy.{Packages, AppState, Request, authorize}
use idempotent_proxy.Proxy.Bearer.{authorize-bearer}
use idempotent_proxy.Canister.Types.{Agent, CoseClient, State}
use idempotent_proxy.Canister.Tasks.{seconds, token_expiry, refresh_proxy_token}
use idempotent_proxy.Canister.Tasks.Tokens.{refresh_proxy_token-IsSigned}
use idempotent_proxy.Canister.Signer.{
  SystemCalls, Signer, signer, sign_with, cose_ecdsa_sign, sign_proxy_token_path, sign_digest,
  sign_proxy_token,
}

module _ (p : Packages) (sys : SystemCalls) (base64_encode : List ℕ → String) (by : Signer) where
  -- The public key accepts a signature of the digest.
  abbrev pub IsAccepted : p.secp256k1.VerifyingKey → List ℕ → List ℕ → Type 0
  IsAccepted key digest sig =
      (g : p.secp256k1.Signature) × (p.secp256k1.parse_signature sig ≡ some g)
      × (p.secp256k1.verify key digest g ≡ true)

  -- What a signature proves: `key` is the public key that the management canister has for the
  -- signer's key name and the path, or the COSE canister for the namespace and the path.
  pub record SignsFor (key : p.secp256k1.VerifyingKey) : Type 0 where
    pub management :
        by.cose ≡ none
        → (digest sig : List ℕ)
        → sys.sign_with_ecdsa (record {
          message_hash = digest;
          derivation_path = sign_proxy_token_path ∷ [];
          key_name = by.key_name;
        })
          ≡ ok sig
        → IsAccepted key digest sig
    pub by_cose :
        (client : CoseClient)
        → by.cose ≡ some client
        → (digest sig : List ℕ)
        → sys.cose_sign client.id
            (record {
              ns = client.namespace;
              derivation_path = sign_proxy_token_path ∷ [];
              message = digest;
            })
            0
          ≡ ok (ok sig)
        → IsAccepted key digest sig

  sign_digest-IsAccepted :
      (key : p.secp256k1.VerifyingKey) (digest sig : List ℕ)
      → SignsFor key
      → sign_digest sys by digest ≡ ok sig
      → IsAccepted key digest sig
  unfolding sign_digest sign_with cose_ecdsa_sign
  sign_digest-IsAccepted key digest sig signs h = elim (Option-cases by.cose) [
    | inl none_set ↦ signs.management none_set digest sig (ground (arith, none_set, h))
    | inr (client, set) ↦ signs.by_cose client set digest sig (ground (arith, set, h))
  ]

  -- A token that is signed is the text of bytes that the proxy accepts.
  pub sign_proxy_token-IsProof :
      (expire_at : ℕ) (agent token : String) (key : p.secp256k1.VerifyingKey)
      (keys : List p.secp256k1.VerifyingKey) (now_ms : ℕ)
      → RoundTrips p.cbor expire_at agent
      → SignsFor key
      → Member key keys
      → expire_at + permitted_drift < u64_mod
      → now_ms / 1000 ≤ expire_at + permitted_drift
      → sign_proxy_token sys base64_encode p.cbor p.sha3_256 by expire_at agent ≡ ok token
      → (bytes sig : List ℕ) × (base64_encode bytes ≡ token)
        × (ecdsa_verify p.cbor p.secp256k1 p.sha3_256 keys bytes now_ms
            ≡ ok (record { expire_at = expire_at; agent = agent; signature = sig }))
  unfolding sign_proxy_token is_expired
  sign_proxy_token-IsProof expire_at agent token key keys now_ms decodes signs trusted small fresh
        h =
      elim (Result-cases
        (sign_digest sys by (p.sha3_256 (p.cbor.encode_message expire_at agent)))) [
          | inr (e, failed) ↦ absurd (ground arith)
          | inl (sig, signed) ↦
              let (g, parsed, verified) = sign_digest-IsAccepted key _ sig signs signed in
              let t : Token = record { expire_at = expire_at; agent = agent; signature = sig } in
              (
                p.cbor.encode_token t,
                sig,
                ground arith,
                (ecdsa_verify_iff p.cbor p.secp256k1 p.sha3_256 keys (p.cbor.encode_token t) now_ms
                      t).1
                    (record {
                      decoded = decodes sig;
                      unexpired = ground arith;
                      sig = g;
                      parsed = parsed;
                      key = key;
                      trusted = trusted;
                      verified = verified;
                    }),
              )
        ]

token_expiry_exact :
    (time interval : ℕ)
    → time / seconds + interval + 130 < u64_mod
    → token_expiry time interval ≡ time / seconds + interval + 120
unfolding token_expiry
token_expiry_exact time interval h = omega arith

not_empty : {A : Type 0} (a : A) (l : List A) → Member a l → is_empty l ≡ false
not_empty a [] m = absurd m
not_empty a (b ∷ l) m = refl

module _ (p : Packages) (sys : SystemCalls) (base64_encode : List ℕ → String) (time : ℕ → ℕ)
    (interval start : ℕ) (before s s' : State) where
  -- From the canister to the proxy. Let a refresh of the tokens end, whose clock starts at `start`
  -- and whose times fit a `u64`, and let `a` be one of the agents then. It has a token, and a proxy
  -- lets every request with that token through as an agent of that name, from the refresh on until
  -- 120 seconds after the next one is due and the drift of ten seconds: if the proxy has the public
  -- key of the canister's signatures among its ECDSA keys, and has the name on its list of agents
  -- or has no list, and both use the same CBOR and base64, which decode what they encode.
  pub refresh_proxy_token-authorizes :
      ((bytes : List ℕ) → p.base64_decode (base64_encode bytes) ≡ ok bytes)
      → ((n : ℕ) → start ≤ time n)
      → ((n : ℕ) → time n / seconds + interval + 130 < u64_mod)
      → (key : p.secp256k1.VerifyingKey) → SignsFor p sys base64_encode (signer before) key
      → refresh_proxy_token
          (sign_proxy_token sys base64_encode p.cbor p.sha3_256 (signer before))
          time
          interval
          before
          s
        ≡ some s'
      → is_empty before.agents ≡ false
      → (a : Agent) → Member a s'.agents
      → ((e : ℕ) → RoundTrips p.cbor e a.name)
      → (token : String) × (a.proxy_token ≡ some token)
        × ((app : AppState p) (req : Request p) (now_ms : ℕ)
            → Member key app.ecdsa_pub_keys
            → (is_empty app.agents || any (str_eq a.name) app.agents) ≡ true
            → extract_header p.header_map "proxy-authorization" req.headers
              ≡ join ("Bearer " ∷ token ∷ [])
            → now_ms / 1000 ≤ start / seconds + interval + 130
            → authorize p app req now_ms ≡ ok a.name)
  refresh_proxy_token-authorizes codes later fits key signs refreshed listed a m decodes =
      let (n, token, holds, signed) =
        refresh_proxy_token-IsSigned
          (sign_proxy_token sys base64_encode p.cbor p.sha3_256 (signer before)) time interval
          before s s' refreshed listed a m in
      (
        token,
        holds,
        λ app req now_ms trusted known given fresh.
            let (bytes, sig, coded, accepted) =
              sign_proxy_token-IsProof p sys base64_encode (signer before)
                (token_expiry (time n) interval) a.name token key app.ecdsa_pub_keys now_ms
                (decodes _) signs trusted (room n) (unexpired n now_ms fresh) signed in
            authorize-bearer p app req now_ms token bytes _ (not_empty key _ trusted) known given
              (ap p.base64_decode (sym coded) ∙ codes bytes) accepted,
      )
    where
      exact : (n : ℕ) → token_expiry (time n) interval ≡ time n / seconds + interval + 120
      exact n = token_expiry_exact (time n) interval (fits n)

      room : (n : ℕ) → token_expiry (time n) interval + permitted_drift < u64_mod
      room n = omega (arith, exact n, fits n)

      unexpired :
          (n now_ms : ℕ)
          → now_ms / 1000 ≤ start / seconds + interval + 130
          → now_ms / 1000 ≤ token_expiry (time n) interval + permitted_drift
      unexpired n now_ms fresh = omega (arith, exact n, later n)
