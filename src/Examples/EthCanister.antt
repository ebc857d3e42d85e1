-- ===== src/Examples/EthCanister.antt =====
-- examples/eth-canister/src: the agent (agent.rs) and the three calls (jsonrpc.rs).
--
-- `app_agent` is the text with the package's name and version, `http_request` the system's HTTPS
-- outcall at one call, whose error has the code as text, `from_utf8` is `String::from_utf8` with
-- the empty text for other bytes, and `show_number` the text of a number. A request is a POST.
use idempotent_proxy.Prelude.{
  ℕ, String, false, ◌&&◌, Option, none, some, List, [], ◌∷◌, ◌++◌, if◌then◌else◌, leb, ltb, join,
  Result, ok, err,
}
use idempotent_proxy.Canister.Types.{HttpHeader, HttpRequest, HttpResponse}
use idempotent_proxy.Examples.JsonRpc.{Json, Decoder, rpc_call}

pub record RpcAgent : Type 0 where
  pub name : String
  pub endpoint : String
  pub max_cycles : ℕ
  pub proxy_token : Option String
  pub api_token : Option String

pub record System : Type 0 where
  pub http_request : HttpRequest → ℕ → Result HttpResponse (String × String)
  pub from_utf8 : List ℕ → String
  pub show_number : ℕ → String
  pub app_agent : String

module _ (sys : System) where
  -- The headers and the request of `post`.
  unfoldable pub post_headers : RpcAgent → String → List HttpHeader
  post_headers a idempotency_key =
      (record { name = "content-type"; value = "application/json" }
        ∷ record { name = "user-agent"; value = sys.app_agent }
        ∷ record { name = "response-headers"; value = "date" }
        ∷ record { name = "idempotency-key"; value = idempotency_key }
        ∷ [])
      ++ (elim a.proxy_token [
        | none ↦ []
        | some token ↦
            record { name = "proxy-authorization"; value = join ("Bearer " ∷ token ∷ []) } ∷ []
      ]
          ++ elim a.api_token [
            | none ↦ []
            | some token ↦ record { name = "authorization"; value = token } ∷ []
          ])

  unfoldable pub post_request : RpcAgent → String → List ℕ → HttpRequest
  unfolding post_headers
  post_request a idempotency_key body = record {
    url = a.endpoint;
    max_response_bytes = none;
    headers = post_headers a idempotency_key;
    body = some body;
    transform = some "transform_jsonrpc";
  }

  -- `post` of `RPCAgent`.
  unfoldable pub post : RpcAgent → String → List ℕ → Result (List ℕ) String
  unfolding post_request
  post a idempotency_key body =
      elim (sys.http_request (post_request a idempotency_key body) a.max_cycles) [
        | err e ↦
            err
              (join ("the http_request resulted into error. code: " ∷ e.0 ∷ ", error: " ∷ e.1 ∷ []))
        | ok res ↦
            if leb 200 res.status && ltb res.status 300
            then ok res.body
            else err (
                join (
                  "failed to request url: "
                  ∷ a.endpoint
                  ∷ ", idempotency-key: "
                  ∷ idempotency_key
                  ∷ ", status: "
                  ∷ sys.show_number res.status
                  ∷ ", body: "
                  ∷ sys.from_utf8 res.body
                  ∷ []))
      ]

  module _ (json : Json) where
    unfoldable pub eth_chain_id : Decoder json String → RpcAgent → String → Result String String
    eth_chain_id decoder a key = rpc_call json decoder (post a) key "eth_chainId" []

    unfoldable pub get_best_block :
        Decoder json json.Value → RpcAgent → String → Result json.Value String
    get_best_block decoder a key =
        rpc_call json decoder (post a) key "eth_getBlockByNumber"
          (json.from_text "latest" ∷ json.from_bool false ∷ [])

    unfoldable pub send_raw_transaction :
        Decoder json String → RpcAgent → String → String → Result String String
    send_raw_transaction decoder a key raw_tx =
        rpc_call json decoder (post a) key "eth_sendTransaction" (json.from_text raw_tx ∷ [])

-- Drops the headers of a response, for consensus.
unfoldable pub transform_jsonrpc : HttpResponse → HttpResponse
transform_jsonrpc res = record { status = res.status; body = res.body; headers = [] }
