-- ===== src/Auth/Laws.antt =====
-- What a token proves, and that a signed token is accepted.
use idempotent_proxy.Prelude.{
  ℕ, ◌+◌, ◌/◌, ◌<◌, ◌≤◌, ◌≡◌, refl, ◌↔◌, inl, inr, String, Bool, true, false, some, List, [], ◌∷◌,
  any, Member, ok, Option-cases, Bool-cases, arith, u64_mod, ◌||◌,
}
use idempotent_proxy.Auth.{
  Token, Cbor, Scheme, is_expired, verify_with, check_token, sign_with, ed25519_sign,
  ed25519_verify, ecdsa_sign, ecdsa_verify, permitted_drift,
}

-- `ciborium` reads back the tokens of an expiry and an agent that it writes.
abbrev pub RoundTrips : Cbor → ℕ → String → Type 0
RoundTrips cbor expire_at agent =
    (sig : List ℕ)
    → cbor.decode_token
        (cbor.encode_token (record { expire_at = expire_at; agent = agent; signature = sig }))
      ≡ some (record { expire_at = expire_at; agent = agent; signature = sig })

-- A signature that a key makes is accepted by the key's public half.
abbrev pub Verifies : Scheme → Type 0
Verifies scheme =
    (key : scheme.SigningKey) (message sig : List ℕ)
    → scheme.sign key message ≡ some sig
    → (g : scheme.Signature) × (scheme.parse_signature sig ≡ some g)
      × (scheme.verify (scheme.verifying_key key) message g ≡ true)

any_of_Member :
    {A : Type 0} (p : A → Bool) (a : A) (l : List A) → Member a l → p a ≡ true → any p l ≡ true
any_of_Member p a [] m h = absurd m
any_of_Member p a (b ∷ l) (inl e) h = rw (← e) (rw h refl)
any_of_Member p a (b ∷ l) (inr m) h = rw (any_of_Member p a l m h) (or_true (p b))
  where
    or_true : (c : Bool) → (c || true) ≡ true
    or_true true = refl
    or_true false = refl

Member-of_any :
    {A : Type 0} (p : A → Bool) (l : List A) → any p l ≡ true → (a : A) × Member a l × (p a ≡ true)
Member-of_any p [] h = cc
Member-of_any p (b ∷ l) h = elim (Bool-cases (p b)) [
  | inl here ↦ (b, inl refl, here)
  | inr not_here ↦ let (a, m, holds) = Member-of_any p l (ground arith) in (a, inr m, holds)
]

module _ (cbor : Cbor) (scheme : Scheme) where
  open scheme use {
    SigningKey, VerifyingKey, Signature, verifying_key, sign, parse_signature, verify,
  }

  -- The bytes decode to the token, which has not expired and carries the signature of one of
  -- the keys on the message.
  pub record IsProof (keys : List VerifyingKey) (bytes : List ℕ) (now_ms : ℕ) (message : List ℕ)
      (token : Token) : Type 0 where
    pub decoded : cbor.decode_token bytes ≡ some token
    pub unexpired : is_expired token now_ms ≡ false
    pub sig : Signature
    pub parsed : parse_signature token.signature ≡ some sig
    pub key : VerifyingKey
    pub trusted : Member key keys
    pub verified : verify key message sig ≡ true

  verify_with_iff :
      (keys : List VerifyingKey) (message : List ℕ) (t token : Token) (e e' : String)
      → (verify_with cbor scheme keys message t e e' ≡ ok token) ↔ (
          (token ≡ t)
          × (sig : Signature) × (parse_signature t.signature ≡ some sig)
          × (any (λ key. verify key message sig) keys ≡ true))
  unfolding verify_with
  verify_with_iff keys message t token e e' = elim (Option-cases (parse_signature t.signature)) [
    | inl unparsed ↦ (λ h. ground arith, λ (_, sig, parsed, _). ground arith)
    | inr (sig, parsed) ↦
        (λ h. (ground arith, sig, parsed, ground arith), λ (eq, sig', parsed', found). ground arith)
  ]

  module _ (message : Token → List ℕ) (keys : List VerifyingKey) (bytes : List ℕ) (now_ms : ℕ)
      (token : Token) (e e' : String) where
    check_token_sound :
        check_token cbor scheme message keys bytes now_ms e e' ≡ ok token
        → IsProof keys bytes now_ms (message token) token
    unfolding check_token
    check_token_sound h = elim (Option-cases (cbor.decode_token bytes)) [
      | inl undecoded ↦ absurd (ground arith)
      | inr (t, decoded) ↦ elim (Bool-cases (is_expired t now_ms)) [
        | inl expired ↦ absurd (ground arith)
        | inr unexpired ↦
            let (same, sig, parsed, found) =
              (verify_with_iff keys (message t) t token e e').0 (ground arith) in
            let (key, trusted, verified) =
              Member-of_any (λ key. verify key (message t) sig) keys found in
            rw same (record {
              decoded = decoded;
              unexpired = unexpired;
              sig = sig;
              parsed = parsed;
              key = key;
              trusted = trusted;
              verified = verified;
            })
      ]
    ]

    check_token_complete :
        IsProof keys bytes now_ms (message token) token
        → check_token cbor scheme message keys bytes now_ms e e' ≡ ok token
    unfolding check_token
    check_token_complete p =
        rw (p.decoded, check_token)
          (rw p.unexpired (
            (verify_with_iff keys (message token) token token e e').1 (
              refl,
              p.sig,
              p.parsed,
              any_of_Member (λ key. verify key (message token) p.sig) p.key keys p.trusted
                  p.verified,
            )))

  -- `ed25519_verify` accepts exactly the tokens that have not expired and that one of the keys
  -- has signed: on the CBOR of the expiry and the agent that it returns.
  pub ed25519_verify_iff :
      (keys : List VerifyingKey) (bytes : List ℕ) (now_ms : ℕ) (token : Token)
      → (ed25519_verify cbor scheme keys bytes now_ms ≡ ok token)
        ↔ IsProof keys bytes now_ms (cbor.encode_message token.expire_at token.agent) token
  unfolding ed25519_verify
  ed25519_verify_iff keys bytes now_ms token = (
    check_token_sound (λ t. cbor.encode_message t.expire_at t.agent) keys bytes now_ms token _ _,
    check_token_complete (λ t. cbor.encode_message t.expire_at t.agent) keys bytes now_ms token _ _,
  )

  module _ (sha3_256 : List ℕ → List ℕ) where
    -- `ecdsa_verify` accepts exactly the tokens that have not expired and that one of the keys has
    -- signed: on the hash of the CBOR of the expiry and the agent that it returns.
    pub ecdsa_verify_iff :
        (keys : List VerifyingKey) (bytes : List ℕ) (now_ms : ℕ) (token : Token)
        → (ecdsa_verify cbor scheme sha3_256 keys bytes now_ms ≡ ok token)
          ↔ IsProof keys bytes now_ms
              (sha3_256 (cbor.encode_message token.expire_at token.agent))
              token
    unfolding ecdsa_verify
    ecdsa_verify_iff keys bytes now_ms token = (
      check_token_sound (λ t. sha3_256 (cbor.encode_message t.expire_at t.agent)) keys bytes now_ms
          token _ _,
      check_token_complete (λ t. sha3_256 (cbor.encode_message t.expire_at t.agent)) keys bytes
          now_ms token _ _,
    )

  module _ (verifies : Verifies scheme) (expire_at : ℕ) (agent : String)
      (decodes : RoundTrips cbor expire_at agent) where
    signed-IsProof :
        (sk : SigningKey) (keys : List VerifyingKey) (message : List ℕ) (now_ms : ℕ)
        (bytes : List ℕ)
        → sign_with cbor scheme sk message expire_at agent ≡ some bytes
        → Member (verifying_key sk) keys
        → expire_at + permitted_drift < u64_mod
        → now_ms / 1000 ≤ expire_at + permitted_drift
        → (sig : List ℕ) × IsProof keys bytes now_ms message
            (record { expire_at = expire_at; agent = agent; signature = sig })
    unfolding sign_with is_expired
    signed-IsProof sk keys message now_ms bytes h trusted small fresh =
        elim (Option-cases (sign sk message)) [
          | inl failed ↦ absurd (ground arith)
          | inr (sig, signed) ↦
              let (g, parsed, verified) = verifies sk message sig signed in
              let token : Token = record {
                expire_at = expire_at;
                agent = agent;
                signature = sig;
              } in
              let e : some (cbor.encode_token token) ≡ some bytes = ground arith in
              (
                sig,
                record {
                  decoded = ground (arith, decodes sig);
                  unexpired = ground arith;
                  sig = g;
                  parsed = parsed;
                  key = verifying_key sk;
                  trusted = trusted;
                  verified = verified;
                },
              )
        ]

    -- Round trip. What `ed25519_sign` signs, `ed25519_verify` accepts with the same expiry and
    -- agent, if the keys hold the signer's public key and the expiry and the drift of ten seconds
    -- are not over.
    pub ed25519_verify-sign :
        (sk : SigningKey) (keys : List VerifyingKey) (now_ms : ℕ) (bytes : List ℕ)
        → ed25519_sign cbor scheme sk expire_at agent ≡ some bytes
        → Member (verifying_key sk) keys
        → expire_at + permitted_drift < u64_mod
        → now_ms / 1000 ≤ expire_at + permitted_drift
        → (sig : List ℕ) × (ed25519_verify cbor scheme keys bytes now_ms
            ≡ ok (record { expire_at = expire_at; agent = agent; signature = sig }))
    unfolding ed25519_sign
    ed25519_verify-sign sk keys now_ms bytes h trusted small fresh =
        let (sig, p) = signed-IsProof sk keys _ now_ms bytes h trusted small fresh in
        (sig, (ed25519_verify_iff keys bytes now_ms _).1 p)

    -- Round trip. What `ecdsa_sign` signs, `ecdsa_verify` accepts with the same expiry and agent, if
    -- the keys hold the signer's public key and the expiry and the drift of ten seconds are not over,
    -- whatever the hash.
    pub ecdsa_verify-sign :
        (sha3_256 : List ℕ → List ℕ) (sk : SigningKey) (keys : List VerifyingKey) (now_ms : ℕ)
        (bytes : List ℕ)
        → ecdsa_sign cbor scheme sha3_256 sk expire_at agent ≡ some bytes
        → Member (verifying_key sk) keys
        → expire_at + permitted_drift < u64_mod
        → now_ms / 1000 ≤ expire_at + permitted_drift
        → (sig : List ℕ) × (ecdsa_verify cbor scheme sha3_256 keys bytes now_ms
            ≡ ok (record { expire_at = expire_at; agent = agent; signature = sig }))
    unfolding ecdsa_sign
    ecdsa_verify-sign sha3_256 sk keys now_ms bytes h trusted small fresh =
        let (sig, p) = signed-IsProof sk keys _ now_ms bytes h trusted small fresh in
        (sig, (ecdsa_verify_iff sha3_256 keys bytes now_ms _).1 p)
