-- ===== src/Auth/Tests.antt =====
-- The theorems at a small CBOR and a small signature scheme.
use idempotent_proxy.Prelude.{
  ℕ, ◌≡◌, refl, ◌↔◌, Bool, true, false, none, some, List, [], ◌∷◌, ok, err, arith, ◌==◌, length,
  ◌&&◌,
}
use idempotent_proxy.Auth.{Token, Cbor, Scheme, ed25519_sign, ed25519_verify, ecdsa_verify}
use idempotent_proxy.Auth.Laws.{Verifies, IsProof, ed25519_verify_iff, ecdsa_verify_iff}

-- A CBOR that only knows the tokens of "alice".
abbrev small_cbor : Cbor
small_cbor = record {
  encode_message = λ e a. e ∷ [];
  encode_token = λ t. t.expire_at ∷ t.signature;
  decode_token = λ bytes. elim bytes [
    | [] ↦ none
    | e ∷ sig ↦ some (record { expire_at = e; agent = "alice"; signature = sig })
  ];
}

-- A key is a number, and its signature is the message with the number in front.
abbrev list_eq : List ℕ → List ℕ → Bool
list_eq [] [] = true
list_eq (a ∷ l) (b ∷ m) = (a == b) && list_eq l m
list_eq _ _ = false

list_eq_refl : (l : List ℕ) → list_eq l l ≡ true
list_eq_refl [] = refl
list_eq_refl (a ∷ l) = ground (arith, list_eq_refl l)

abbrev small_scheme : Scheme
small_scheme = record {
  SigningKey = ℕ;
  VerifyingKey = ℕ;
  Signature = List ℕ;
  verifying_key = λ k. k;
  sign = λ k m. some (k ∷ m);
  parse_signature = some;
  verify = λ k m g. list_eq g (k ∷ m);
}

small_scheme-Verifies : Verifies small_scheme
small_scheme-Verifies key message sig h = (sig, refl, rw (ok_sig h) (list_eq_refl (key ∷ message)))
  where
    ok_sig : some (key ∷ message) ≡ some sig → sig ≡ key ∷ message
    ok_sig h = cc

abbrev alice : Token
alice = record { expire_at = 1000; agent = "alice"; signature = 7 ∷ 1000 ∷ [] }

abbrev hash : List ℕ → List ℕ
hash m = length m ∷ []

signed : ed25519_sign small_cbor small_scheme 7 1000 "alice" ≡ some (1000 ∷ 7 ∷ 1000 ∷ [])
unfolding ed25519_sign
signed = refl

-- Ten seconds of drift are allowed, and no more.
accepted :
    (ed25519_verify small_cbor small_scheme (3 ∷ 7 ∷ []) (1000 ∷ 7 ∷ 1000 ∷ []) 1010999 ≡ ok alice)
    × (ed25519_verify small_cbor small_scheme (3 ∷ 7 ∷ []) (1000 ∷ 7 ∷ 1000 ∷ []) 1011000
        ≡ err "token expired")
    × (ed25519_verify small_cbor small_scheme (3 ∷ []) (1000 ∷ 7 ∷ 1000 ∷ []) 5
        ≡ err "failed to verify Ed25519 signature")
unfolding ed25519_verify
accepted = (refl, refl, refl)

ed25519_verify_iff_example :
    (ed25519_verify small_cbor small_scheme (7 ∷ []) (1000 ∷ 7 ∷ 1000 ∷ []) 5 ≡ ok alice)
    ↔ IsProof small_cbor small_scheme (7 ∷ []) (1000 ∷ 7 ∷ 1000 ∷ []) 5 (1000 ∷ []) alice
ed25519_verify_iff_example =
    ed25519_verify_iff small_cbor small_scheme (7 ∷ []) (1000 ∷ 7 ∷ 1000 ∷ []) 5 alice

ecdsa_verify_iff_example :
    (ecdsa_verify small_cbor small_scheme hash (7 ∷ []) (1000 ∷ 7 ∷ 1 ∷ []) 5 ≡ ok alice)
    ↔ IsProof small_cbor small_scheme (7 ∷ []) (1000 ∷ 7 ∷ 1 ∷ []) 5 (1 ∷ []) alice
ecdsa_verify_iff_example =
    ecdsa_verify_iff small_cbor small_scheme hash (7 ∷ []) (1000 ∷ 7 ∷ 1 ∷ []) 5 alice
