-- ===== src/Examples/Lite.antt =====
-- examples/eth-canister-lite/src/jsonrpc.rs: the transport through the canister of the proxy, and
-- the three calls.
--
-- `call_proxy` is `call_with_payment128` of a method of the canister, with the cycles; its error
-- has the code as text. `debug` is the text of `{:?}`.
use idempotent_proxy.Prelude.{
  ℕ, String, false, ◌&&◌, Option, none, some, List, [], ◌∷◌, ◌++◌, if◌then◌else◌, leb, ltb, join,
  Result, ok, err, ◌>>=◌, map_err,
}
use idempotent_proxy.Canister.Types.{Principal, HttpRequest, HttpResponse}
use idempotent_proxy.Examples.JsonRpc.{Json, Decoder, rpc_call}

pub record EthereumRpc : Type 0 where
  pub provider : String
  pub proxy : Principal
  pub api_token : Option String

pub record LiteSystem : Type 0 where
  pub call_proxy : Principal → String → HttpRequest → ℕ → Result HttpResponse (String × String)
  pub from_utf8 : List ℕ → String
  pub show_number : ℕ → String
  pub debug : Principal → String
  pub app_agent : String

module _ (sys : LiteSystem) where
  -- The request of `proxy`.
  unfoldable pub lite_request : EthereumRpc → String → List ℕ → HttpRequest
  lite_request rpc idempotency_key body = record {
    url = rpc.provider;
    max_response_bytes = none;
    headers =
        (record { name = "content-type"; value = "application/json" }
          ∷ record { name = "user-agent"; value = sys.app_agent }
          ∷ record { name = "idempotency-key"; value = idempotency_key }
          ∷ [])
        ++ elim rpc.api_token [
          | none ↦ []
          | some token ↦ record { name = "authorization"; value = token } ∷ []
        ];
    body = some body;
    transform = none;
  }

  -- `EthereumRPC::proxy`.
  unfoldable pub through_proxy : EthereumRpc → String → String → List ℕ → Result (List ℕ) String
  unfolding lite_request
  through_proxy rpc proxy_method idempotency_key body =
      map_err
        (λ e. join (
          "failed to call "
          ∷ proxy_method
          ∷ " on "
          ∷ sys.debug rpc.proxy
          ∷ ", code: "
          ∷ e.0
          ∷ ", message: "
          ∷ e.1
          ∷ []))
        (sys.call_proxy rpc.proxy proxy_method (lite_request rpc idempotency_key body)
          1_000_000_000)
      >>= λ res.
          if leb 200 res.status && ltb res.status 300
          then ok res.body
          else err (
              join (
                "failed to request provider: "
                ∷ rpc.provider
                ∷ ", idempotency-key: "
                ∷ idempotency_key
                ∷ ", status: "
                ∷ sys.show_number res.status
                ∷ ", body: "
                ∷ sys.from_utf8 res.body
                ∷ []))

  module _ (json : Json) where
    -- `EthereumRPC::call`.
    unfoldable pub lite_call :
        {T : Type 0}
        → Decoder json T
        → EthereumRpc
        → String
        → String
        → String
        → List json.Value
        → Result T String
    unfolding through_proxy
    lite_call decoder rpc proxy_method key method params =
        rpc_call json decoder (through_proxy rpc proxy_method) key method params

    unfoldable pub lite_eth_chain_id :
        Decoder json String → EthereumRpc → String → Result String String
    lite_eth_chain_id decoder rpc key =
        lite_call decoder rpc "proxy_http_request" key "eth_chainId" []

    unfoldable pub lite_get_best_block :
        Decoder json json.Value → EthereumRpc → String → Result json.Value String
    lite_get_best_block decoder rpc key =
        lite_call decoder rpc "parallel_call_all_ok" key "eth_getBlockByNumber"
          (json.from_text "latest" ∷ json.from_bool false ∷ [])

    unfoldable pub lite_send_raw_transaction :
        Decoder json String → EthereumRpc → String → String → Result String String
    lite_send_raw_transaction decoder rpc key raw_tx =
        lite_call decoder rpc "parallel_call_any_ok" key "eth_sendTransaction"
          (json.from_text raw_tx ∷ [])
