-- ===== src/Examples/Posted/Tests.antt =====
-- A small example canister and the small proxy, and the theorem at them.
use idempotent_proxy.Prelude.{
  ℕ, ◌≡◌, refl, String, true, false, none, some, List, [], ◌∷◌, Result, ok, err, join, inl, arith,
  starts_with, to_ascii_lowercase,
}
use idempotent_proxy.Proxy.{AppState, Request, full_key, prepare}
use idempotent_proxy.Canister.Signer.{signer}
use idempotent_proxy.Canister.Signer.Tokens.{SignsFor}
use idempotent_proxy.Canister.Signer.Tests.{packages, unary_text, numbers_decode, list_eq_refl}
use idempotent_proxy.Delivery.{IsDelivered}
use idempotent_proxy.Examples.EthCanister.{RpcAgent, System, post_request}
use idempotent_proxy.Examples.Signing.{EcdsaCalls, sign_proxy_token}
use idempotent_proxy.Examples.State.{EthState, refresh_proxy_token}
use idempotent_proxy.Examples.Tokens.{as_state, as_system}
use idempotent_proxy.Examples.Posted.{posted-prepared}

abbrev calls : EcdsaCalls
calls = record {
  sign_with_ecdsa = λ arg. ok (7 ∷ arg.message_hash);
  ecdsa_public_key = λ arg. ok (7 ∷ []);
}

abbrev alice : RpcAgent
alice = record {
  name = "alice";
  endpoint = "https://proxy.example/URL_ETH";
  max_cycles = 100;
  proxy_token = none;
  api_token = some "secret";
}

abbrev before : EthState
before = record { ecdsa_key_name = "key_1"; rpc_proxy_public_key = ""; rpc_agents = alice ∷ [] }

abbrev token : String
token = unary_text (3720 ∷ 7 ∷ 3720 ∷ [])

abbrev tokened : RpcAgent
tokened = record alice { proxy_token = some token }

abbrev after : EthState
after = record before { rpc_agents = tokened ∷ [] }

calls-SignsFor : SignsFor packages (as_system calls) unary_text (signer (as_state before)) 7
unfolding signer
calls-SignsFor = record {
  management =
      λ unset digest sig h. (sig, refl, rw (ok_sig digest sig h) (list_eq_refl (7 ∷ digest)));
  by_cose = λ client set digest sig h. cc;
}
  where
    ok_sig :
        {E : Type 0} (digest sig : List ℕ)
        → ◌≡◌ {A = Result (List ℕ) E} (ok (7 ∷ digest)) (ok sig)
        → sig ≡ 7 ∷ digest
    ok_sig digest sig h = cc

refreshed :
    refresh_proxy_token
      (sign_proxy_token calls unary_text packages.cbor packages.sha3_256)
      (λ n. 0)
      before
      before
    ≡ some after
unfolding refresh_proxy_token sign_proxy_token idempotent_proxy.Examples.State.update_proxy_token
    idempotent_proxy.Examples.State.sign_rpc_agents idempotent_proxy.Prelude.lookup
refreshed = refl

abbrev app : AppState packages
app = record {
  poll_interval = 100;
  cache_ttl = 10000;
  agents = [];
  url_vars = ("URL_ETH", "https://node.example/") ∷ [];
  header_vars = [];
  ecdsa_pub_keys = 7 ∷ [];
  ed25519_pub_keys = [];
}

abbrev outcalls : System
outcalls = record {
  http_request = λ req cycles. err ("2", "timeout");
  from_utf8 = λ bytes. "";
  show_number = λ n. "0";
  app_agent = "eth-canister";
}

abbrev arrived : Request packages
arrived = record {
  method = "POST";
  is_safe = false;
  path = "/URL_ETH";
  path_and_query = some "/URL_ETH";
  headers =
      ("idempotency-key", "blk-best-1")
      ∷ ("proxy-authorization", join ("Bearer " ∷ token ∷ []))
      ∷ ("authorization", "secret")
      ∷ [];
  body = ok [];
}

arrived-IsDelivered :
    IsDelivered packages "https://proxy.example"
      (post_request outcalls tokened "blk-best-1" [])
      arrived
unfolding post_request idempotent_proxy.Examples.EthCanister.post_headers to_ascii_lowercase
    idempotent_proxy.Headers.extract_header idempotent_proxy.Prelude.lookup
arrived-IsDelivered = record {
  target = "/URL_ETH";
  sent_to = refl;
  path = refl;
  path_and_query = refl;
  proxy_authorization = refl;
  forwarded_host = refl;
  idempotency_key = refl;
}

posted-prepared_example :
    prepare packages app arrived 0
    ≡ ok (record {
      agent = "alice";
      url = "https://node.example/";
      idempotency_key = full_key packages "alice" "POST" "blk-best-1";
    })
unfolding starts_with idempotent_proxy.Prelude.lookup
posted-prepared_example =
    posted-prepared packages calls unary_text (λ n. 0) 0 before before after numbers_decode
      (λ n. omega arith) (λ n. omega arith) 7 calls-SignsFor refreshed refl tokened (inl refl)
      (λ e sig. refl) app (inl refl) refl "https://proxy.example" "URL_ETH" _ refl refl
      (ground arith) refl refl _ refl outcalls "blk-best-1" [] refl arrived arrived-IsDelivered 0
      (omega arith)
