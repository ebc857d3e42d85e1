-- ===== src/Examples/Signing.antt =====
-- examples/eth-canister/src/ecdsa.rs: the example's own signatures.
--
-- `EcdsaCalls` has what the code calls of the management canister, each at one call; CBOR, the hash
-- and base64 are other packages, and writing to a `Vec` does not fail.
use idempotent_proxy.Prelude.{
  ℕ, String, List, [], ◌∷◌, join, ascii_bytes, Result, ok, ◌>>=◌, map_err, map_ok,
}
use idempotent_proxy.Auth.{Cbor}
use idempotent_proxy.Canister.Signer.{SignWithEcdsaArgument, EcdsaPublicKeyArgument}

pub record EcdsaCalls : Type 0 where
  pub sign_with_ecdsa : SignWithEcdsaArgument → Result (List ℕ) String
  pub ecdsa_public_key : EcdsaPublicKeyArgument → Result (List ℕ) String

module _ (sys : EcdsaCalls) where
  unfoldable pub sign_with : String → List (List ℕ) → List ℕ → Result (List ℕ) String
  sign_with key_name derivation_path message_hash =
      map_err (λ e. join ("sign_with_ecdsa failed " ∷ e ∷ []))
        (sys.sign_with_ecdsa (record {
          message_hash = message_hash;
          derivation_path = derivation_path;
          key_name = key_name;
        }))

  unfoldable pub public_key_with : String → List (List ℕ) → Result (List ℕ) String
  public_key_with key_name derivation_path =
      map_err (λ e. join ("ecdsa_public_key failed " ∷ e ∷ []))
        (sys.ecdsa_public_key (record { derivation_path = derivation_path; key_name = key_name }))

  module _ (base64_encode : List ℕ → String) where
    unfoldable pub sign_proxy_token :
        Cbor → (List ℕ → List ℕ) → String → ℕ → String → Result String String
    unfolding sign_with
    sign_proxy_token cbor sha3_256 key_name expire_at message =
        map_ok
          (λ sig. base64_encode (
            cbor.encode_token (record { expire_at = expire_at; agent = message; signature = sig })))
          (sign_with key_name (ascii_bytes "sign_proxy_token" ∷ [])
            (sha3_256 (cbor.encode_message expire_at message)))

    unfoldable pub get_proxy_token_public_key : String → Result String String
    unfolding public_key_with
    get_proxy_token_public_key key_name =
        public_key_with key_name (ascii_bytes "sign_proxy_token" ∷ []) >>= λ pk.
        ok (base64_encode pk)
