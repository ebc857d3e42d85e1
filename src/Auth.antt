-- ===== src/Auth.antt =====
-- idempotent-proxy-types/src/auth.rs and lib.rs: the access tokens.
--
-- CBOR, the hash and the two signature schemes are other packages: `Cbor` and `Scheme` are what
-- the code calls of them. `now_ms` is what `unix_ms` returns. A panic of an `expect` is `none`.
pub mod Laws
mod Tests
use idempotent_proxy.Prelude.{
  ℕ, ◌+◌, ◌/◌, ◌%◌, ◌≡◌, String, Bool, true, false, Option, none, some, List, any, Result, ok, err,
  if◌then◌else◌, ltb, u64_mod,
}

abbrev pub permitted_drift : ℕ
permitted_drift = 10

-- [expire_at in seconds, agent, signature]
pub record Token : Type 0 where
  pub expire_at : ℕ
  pub agent : String
  pub signature : List ℕ

-- `ciborium`: `into_writer` of the pair that is signed and of a token, `from_reader` of a token.
pub record Cbor : Type 0 where
  pub encode_message : ℕ → String → List ℕ
  pub encode_token : Token → List ℕ
  pub decode_token : List ℕ → Option Token

-- `ed25519_dalek`, or `k256::ecdsa` on a digest.
pub record Scheme : Type 1 where
  pub SigningKey : Type 0
  pub VerifyingKey : Type 0
  pub Signature : Type 0
  pub verifying_key : SigningKey → VerifyingKey
  pub sign : SigningKey → List ℕ → Option (List ℕ)
  pub parse_signature : List ℕ → Option Signature
  pub verify : VerifyingKey → List ℕ → Signature → Bool

-- `token.0 + PERMITTED_DRIFT < unix_ms() / 1000`; the sum of two `u64` wraps in a release build.
unfoldable pub is_expired : Token → ℕ → Bool
is_expired token now_ms = ltb ((token.expire_at + permitted_drift) % u64_mod) (now_ms / 1000)

module _ (cbor : Cbor) (scheme : Scheme) where
  open scheme use {SigningKey, VerifyingKey, sign, parse_signature, verify}

  -- The loop over the keys, once the signature is parsed.
  verify_with : List VerifyingKey → List ℕ → Token → String → String → Result Token String
  verify_with keys message token unparsed unverified = elim (parse_signature token.signature) [
    | none ↦ err unparsed
    | some sig ↦ if any (λ key. verify key message sig) keys then ok token else err unverified
  ]

  -- The body that `ed25519_verify` and `ecdsa_verify` share but for the signed bytes and the texts.
  check_token :
      (Token → List ℕ) → List VerifyingKey → List ℕ → ℕ → String → String → Result Token String
  check_token message keys bytes now_ms unparsed unverified = elim (cbor.decode_token bytes) [
    | none ↦ err "failed to decode CBOR data"
    | some token ↦
        if is_expired token now_ms
        then err "token expired"
        else verify_with keys (message token) token unparsed unverified
  ]

  -- Both `ed25519_sign` and `ecdsa_sign`, on the bytes that are signed.
  sign_with : SigningKey → List ℕ → ℕ → String → Option (List ℕ)
  sign_with key message expire_at agent = elim (sign key message) [
    | none ↦ none
    | some sig ↦
        some (cbor.encode_token (record { expire_at = expire_at; agent = agent; signature = sig }))
  ]

  unfoldable pub ed25519_sign : SigningKey → ℕ → String → Option (List ℕ)
  unfolding sign_with
  ed25519_sign key expire_at agent =
      sign_with key (cbor.encode_message expire_at agent) expire_at agent

  unfoldable pub ed25519_verify : List VerifyingKey → List ℕ → ℕ → Result Token String
  unfolding check_token verify_with is_expired
  ed25519_verify keys bytes now_ms =
      check_token (λ t. cbor.encode_message t.expire_at t.agent) keys bytes now_ms
        "failed to parse Ed25519 signature" "failed to verify Ed25519 signature"

  module _ (sha3_256 : List ℕ → List ℕ) where
    unfoldable pub ecdsa_sign : SigningKey → ℕ → String → Option (List ℕ)
    unfolding sign_with
    ecdsa_sign key expire_at agent =
        sign_with key (sha3_256 (cbor.encode_message expire_at agent)) expire_at agent

    unfoldable pub ecdsa_verify : List VerifyingKey → List ℕ → ℕ → Result Token String
    unfolding check_token verify_with is_expired
    ecdsa_verify keys bytes now_ms =
        check_token (λ t. sha3_256 (cbor.encode_message t.expire_at t.agent)) keys bytes now_ms
          "failed to parse Secp256k1 signature" "failed to verify ECDSA/Secp256k1 signature"
