-- ===== src/Canister/Signer.antt =====
-- idempotent-proxy-canister/src/ecdsa.rs and cose.rs, and `Signer` of store.rs: the signatures of
-- the tokens.
--
-- The management canister and a COSE canister are other programs: `SystemCalls` has what the code
-- calls of them, each at one call. `debug` and `show_code` are the texts of `{:?}` and of a number.
-- CBOR, the hash and base64 are other packages, as for the proxy; writing to a `Vec` does not fail.
pub mod Tokens
pub mod Tests
use idempotent_proxy.Prelude.{
  ℕ, String, Option, none, some, List, [], ◌∷◌, join, ascii_bytes, Result, ok, err, ◌>>=◌, map_err,
  map_ok,
}
use idempotent_proxy.Auth.{Cbor}
use idempotent_proxy.Canister.Types.{Principal, CoseClient, State}

-- The curve is Secp256k1 in both.
pub record SignWithEcdsaArgument : Type 0 where
  pub message_hash : List ℕ
  pub derivation_path : List (List ℕ)
  pub key_name : String

pub record EcdsaPublicKeyArgument : Type 0 where
  pub derivation_path : List (List ℕ)
  pub key_name : String

pub record PublicKeyInput : Type 0 where
  pub ns : String
  pub derivation_path : List (List ℕ)

pub record SignInput : Type 0 where
  pub ns : String
  pub derivation_path : List (List ℕ)
  pub message : List ℕ

pub record SystemCalls : Type 0 where
  pub sign_with_ecdsa : SignWithEcdsaArgument → Result (List ℕ) String
  pub ecdsa_public_key : EcdsaPublicKeyArgument → Result (List ℕ) String
  -- `call_with_payment128` of the two methods, with the cycles.
  pub cose_public_key :
      Principal → PublicKeyInput → ℕ → Result (Result (List ℕ) String) (ℕ × String)
  pub cose_sign : Principal → SignInput → ℕ → Result (Result (List ℕ) String) (ℕ × String)
  pub debug : Principal → String
  pub show_code : ℕ → String

pub record Signer : Type 0 where
  pub key_name : String
  pub cose : Option CoseClient

-- `State::signer`.
unfoldable pub signer : State → Signer
signer s = record { key_name = s.ecdsa_key_name; cose = s.cose }

-- `SIGN_PROXY_TOKEN_PATH`.
abbrev pub sign_proxy_token_path : List ℕ
sign_proxy_token_path = ascii_bytes "sign_proxy_token"

module _ (sys : SystemCalls) where
  unfoldable pub sign_with : String → List (List ℕ) → List ℕ → Result (List ℕ) String
  sign_with key_name derivation_path message_hash =
      map_err (λ e. join ("sign_with_ecdsa failed " ∷ e ∷ []))
        (sys.sign_with_ecdsa (record {
          message_hash = message_hash;
          derivation_path = derivation_path;
          key_name = key_name;
        }))

  unfoldable pub public_key_with : String → List (List ℕ) → Result (List ℕ) String
  public_key_with key_name derivation_path =
      map_err (λ e. join ("ecdsa_public_key failed " ∷ e ∷ []))
        (sys.ecdsa_public_key (record { derivation_path = derivation_path; key_name = key_name }))

  -- `call` of cose.rs, on what `call_with_payment128` returns.
  abbrev pub cose_call :
      {Out : Type 0} → Principal → String → Result Out (ℕ × String) → Result Out String
  cose_call id method res =
      map_err
        (λ e. join (
          "failed to call "
          ∷ method
          ∷ " on "
          ∷ sys.debug id
          ∷ ", code: "
          ∷ sys.show_code e.0
          ∷ ", message: "
          ∷ e.1
          ∷ []))
        res

  unfoldable pub cose_ecdsa_public_key : CoseClient → List (List ℕ) → Result (List ℕ) String
  cose_ecdsa_public_key client derivation_path =
      cose_call client.id "ecdsa_public_key" (
        sys.cose_public_key client.id
          (record { ns = client.namespace; derivation_path = derivation_path }) 0)
      >>= λ output. output

  unfoldable pub cose_ecdsa_sign : CoseClient → List (List ℕ) → List ℕ → Result (List ℕ) String
  cose_ecdsa_sign client derivation_path message =
      cose_call client.id "ecdsa_sign" (
        sys.cose_sign client.id
          (record { ns = client.namespace; derivation_path = derivation_path; message = message })
          0)
      >>= λ output. output

  -- The `match` on the COSE client in `sign_proxy_token`.
  unfoldable pub sign_digest : Signer → List ℕ → Result (List ℕ) String
  unfolding sign_with cose_ecdsa_sign
  sign_digest by digest = elim by.cose [
    | some client ↦ cose_ecdsa_sign client (sign_proxy_token_path ∷ []) digest
    | none ↦ sign_with by.key_name (sign_proxy_token_path ∷ []) digest
  ]

  module _ (base64_encode : List ℕ → String) where
    -- `Signer::ecdsa_public_key`.
    unfoldable pub signer_public_key : Signer → Result String String
    unfolding public_key_with cose_ecdsa_public_key
    signer_public_key by = elim by.cose [
      | some client ↦
          map_ok base64_encode (cose_ecdsa_public_key client (sign_proxy_token_path ∷ []))
      | none ↦ map_ok base64_encode (public_key_with by.key_name (sign_proxy_token_path ∷ []))
    ]

    -- `Signer::sign_proxy_token`.
    unfoldable pub sign_proxy_token :
        Cbor → (List ℕ → List ℕ) → Signer → ℕ → String → Result String String
    sign_proxy_token cbor sha3_256 by expire_at message =
        map_ok
          (λ sig. base64_encode (
            cbor.encode_token (record { expire_at = expire_at; agent = message; signature = sig })))
          (sign_digest by (sha3_256 (cbor.encode_message expire_at message)))

    -- `init_ecdsa_public_key`: the signer is that of the state `before`, and `s` is the state that
    -- other messages have left when the key has arrived.
    unfoldable pub init_ecdsa_public_key : State → State → State
    unfolding signer
    init_ecdsa_public_key before s = elim (signer_public_key (signer before)) [
      | ok public_key ↦ record s { proxy_token_public_key = public_key }
      | err e ↦ s
    ]
