-- ===== src/Canister/Signer/Tests.antt =====
-- A small signer and a small proxy, and the theorem at them.
use Prim.Native.Char.{code}
use idempotent_proxy.Prelude.{
  ℕ, zero, suc, ◌+◌, ◌≤◌, ◌/◌, ◌==◌, ◌≡◌, refl, ap, String, Bool, true, false, ◌&&◌, ◌||◌, Option,
  none, some, List, [], ◌∷◌, any, is_empty, join, str_eq, Member, Result, ok, err, arith, inl, inr,
  if◌then◌else◌,
}
use idempotent_proxy.Headers.{list_headers, extract_header}
use idempotent_proxy.Auth.{Cbor, Scheme}
use idempotent_proxy.Proxy.{Packages, AppState, Request, authorize}
use idempotent_proxy.Canister.Types.{Agent, State}
use idempotent_proxy.Canister.Tasks.{seconds, refresh_proxy_token}
use idempotent_proxy.Canister.Upgrade.{default_state}
use idempotent_proxy.Canister.Signer.{SystemCalls, signer, sign_digest, sign_proxy_token}
use idempotent_proxy.Canister.Signer.Tokens.{SignsFor, refresh_proxy_token-authorizes}

-- A CBOR that only knows the tokens of "alice".
abbrev alice_cbor : Cbor
alice_cbor = record {
  encode_message = λ e a. e ∷ [];
  encode_token = λ t. t.expire_at ∷ t.signature;
  decode_token = λ bytes. elim bytes [
    | [] ↦ none
    | e ∷ sig ↦ some (record { expire_at = e; agent = "alice"; signature = sig })
  ];
}

abbrev list_eq : List ℕ → List ℕ → Bool
list_eq [] [] = true
list_eq (a ∷ l) (b ∷ m) = (a == b) && list_eq l m
list_eq _ _ = false

pub list_eq_refl : (l : List ℕ) → list_eq l l ≡ true
list_eq_refl [] = refl
list_eq_refl (a ∷ l) = ground (arith, list_eq_refl l)

-- A signature is the message with the key in front.
abbrev front_scheme : Scheme
front_scheme = record {
  SigningKey = ℕ;
  VerifyingKey = ℕ;
  Signature = List ℕ;
  verifying_key = λ k. k;
  sign = λ k m. some (k ∷ m);
  parse_signature = some;
  verify = λ k m g. list_eq g (k ∷ m);
}

-- Numbers in unary, each with a comma after it.
abbrev unary : ℕ → String → String
unary zero s = String.◌∷◌ "," s
unary (suc n) s = String.◌∷◌ "i" (unary n s)

abbrev pub unary_text : List ℕ → String
unary_text [] = ""
unary_text (n ∷ l) = unary n (unary_text l)

abbrev numbers : ℕ → String → List ℕ
numbers n String.[] = []
numbers n (String.◌∷◌ c s) = if code c == b',' then n ∷ numbers 0 s else numbers (n + 1) s

numbers-unary : (m n : ℕ) (s : String) → numbers m (unary n s) ≡ (m + n) ∷ numbers 0 s
numbers-unary m zero s = ground arith
numbers-unary m (suc n) s = ground (arith, numbers-unary (m + 1) n s)

numbers-unary_text : (l : List ℕ) → numbers 0 (unary_text l) ≡ l
numbers-unary_text [] = refl
numbers-unary_text (n ∷ l) = ground (arith, numbers-unary 0 n (unary_text l), numbers-unary_text l)

pub numbers_decode :
    (l : List ℕ) → ◌≡◌ {A = Result (List ℕ) String} (ok (numbers 0 (unary_text l))) (ok l)
numbers_decode l = ap ok (numbers-unary_text l)

abbrev pub packages : Packages
packages = record {
  header_map = list_headers;
  cbor = alice_cbor;
  ed25519 = front_scheme;
  secp256k1 = front_scheme;
  sha3_256 = λ m. m;
  base64_decode = λ s. ok (numbers 0 s);
  Url = String;
  parse_url = ok;
}

abbrev pub system : SystemCalls
system = record {
  sign_with_ecdsa = λ arg. ok (7 ∷ arg.message_hash);
  ecdsa_public_key = λ arg. err "not asked";
  cose_public_key = λ id input cycles. err (0, "no canister");
  cose_sign = λ id input cycles. err (0, "no canister");
  debug = λ id. id;
  show_code = λ code. "0";
}

abbrev pub alice : Agent
alice = record {
  name = "alice";
  endpoint = "https://proxy.example";
  max_cycles = 100;
  proxy_token = none;
}

abbrev pub before : State
before = record default_state { ecdsa_key_name = "key_1"; agents = alice ∷ [] }

abbrev pub alice_token : String
alice_token = unary_text (130 ∷ 7 ∷ 130 ∷ [])

abbrev pub after : State
after = record before { agents = record alice { proxy_token = some alice_token } ∷ [] }

pub system-SignsFor : SignsFor packages system unary_text (signer before) 7
unfolding signer
system-SignsFor = record {
  management =
      λ unset digest sig h. (sig, refl, rw (ok_sig digest sig h) (list_eq_refl (7 ∷ digest)));
  by_cose = λ client set digest sig h. cc;
}
  where
    ok_sig :
        {E : Type 0} (digest sig : List ℕ)
        → ◌≡◌ {A = Result (List ℕ) E} (ok (7 ∷ digest)) (ok sig)
        → sig ≡ 7 ∷ digest
    ok_sig digest sig h = cc

pub refreshed :
    refresh_proxy_token
      (sign_proxy_token system unary_text alice_cbor (λ m. m) (signer before))
      (λ n. 0)
      10
      before
      before
    ≡ some after
unfolding refresh_proxy_token signer sign_digest sign_proxy_token
    idempotent_proxy.Canister.Tasks.sign_agents idempotent_proxy.Prelude.lookup
    idempotent_proxy.Canister.Tasks.token_expiry
refreshed = refl

refresh_proxy_token-authorizes_example :
    (token : String) × (some alice_token ≡ some token)
    × ((app : AppState packages) (req : Request packages) (now_ms : ℕ)
        → Member {A = ℕ} 7 app.ecdsa_pub_keys
        → (is_empty app.agents || any (str_eq "alice") app.agents) ≡ true
        → extract_header list_headers "proxy-authorization" req.headers
          ≡ join ("Bearer " ∷ token ∷ [])
        → now_ms / 1000 ≤ 0 / seconds + 10 + 130
        → authorize packages app req now_ms ≡ ok "alice")
refresh_proxy_token-authorizes_example =
    refresh_proxy_token-authorizes packages system unary_text (λ n. 0) 10 0 before before after
      numbers_decode (λ n. omega arith) (λ n. omega arith) 7 system-SignsFor refreshed refl
      (record alice { proxy_token = some alice_token }) (inl refl) (λ e sig. refl)
