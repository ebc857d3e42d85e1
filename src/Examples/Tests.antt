-- ===== src/Examples/Tests.antt =====
-- A small node behind the proxy, and the theorem at it.
use idempotent_proxy.Prelude.{ℕ, ◌≡◌, ◌↔◌, refl, String, none, some, List, [], ◌∷◌, Result, ok, err}
use idempotent_proxy.Canister.Types.{HttpResponse}
use idempotent_proxy.Examples.JsonRpc.{RpcResponse, Json, Decoder, answer, rpc_call}
use idempotent_proxy.Examples.EthCanister.{
  System, RpcAgent, post_headers, post_request, post, eth_chain_id,
}
use idempotent_proxy.Examples.Lite.{
  EthereumRpc, LiteSystem, lite_request, through_proxy, lite_call, lite_eth_chain_id,
}
use idempotent_proxy.Examples.Answers.{IsReply, IsAnswered, calls_iff}

-- A value is a text, a request is coded by its identifier, and a response is the code of a chain.
abbrev json : Json
json = record {
  Value = String;
  from_text = λ s. s;
  from_bool = λ b. "false";
  to_vec = λ r. ok (r.id ∷ []);
  to_string = ok;
}

abbrev decode : List ℕ → Result (RpcResponse String String) String
decode [] = err "EOF"
decode (chain ∷ []) = ok (record { result = some "0x1"; error = none })
decode bytes = ok (record { result = none; error = some "unknown chain" })

abbrev decoder : Decoder json String
decoder = record { from_slice = decode; from_null = err "invalid type: null" }

abbrev replies : ℕ → HttpResponse
replies status = record { status = status; headers = []; body = 1 ∷ [] }

abbrev system : System
system = record {
  http_request = λ req cycles. ok (replies 200);
  from_utf8 = λ bytes. "";
  show_number = λ n. "500";
  app_agent = "eth-canister";
}

abbrev agent : RpcAgent
agent = record {
  name = "ETH";
  endpoint = "https://proxy.example/URL_ETH";
  max_cycles = 100;
  proxy_token = some "t0ken";
  api_token = none;
}

-- The canister of the proxy has no agent that works.
abbrev lite_system : LiteSystem
lite_system = record {
  call_proxy = λ id method req cycles. ok (replies 500);
  from_utf8 = λ bytes. "no agents";
  show_number = λ n. "500";
  debug = λ id. id;
  app_agent = "eth-canister-lite";
}

abbrev rpc : EthereumRpc
rpc = record { provider = "URL_ETH"; proxy = "hpudd-yqaaa"; api_token = none }

chain_tests :
    (eth_chain_id system json decoder agent "eth_chain_id" ≡ ok "0x1")
    × (lite_eth_chain_id lite_system json decoder rpc "eth_chain_id"
        ≡ err
            "failed to request provider: URL_ETH, idempotency-key: eth_chain_id, status: 500, body: no agents")
unfolding eth_chain_id lite_eth_chain_id lite_call through_proxy post post_headers post_request
    lite_request rpc_call answer
chain_tests = (refl, refl)

calls_iff_example :
    ((rpc_call json decoder (post system agent) "k1" "eth_chainId" [] ≡ ok "0x1")
      ↔ IsAnswered json decoder
          (λ input bytes.
            IsReply (system.http_request (post_request system agent "k1" input) 100) bytes)
          "eth_chainId"
          []
          "0x1")
    × ((lite_call lite_system json decoder rpc "proxy_http_request" "k1" "eth_chainId" []
          ≡ ok "0x1")
        ↔ IsAnswered json decoder
            (λ input bytes.
              IsReply
                (lite_system.call_proxy rpc.proxy "proxy_http_request"
                  (lite_request lite_system rpc "k1" input)
                  1_000_000_000)
                bytes)
            "eth_chainId"
            []
            "0x1")
calls_iff_example =
    calls_iff json decoder system agent lite_system rpc "proxy_http_request" "k1" "eth_chainId" []
      "0x1"
