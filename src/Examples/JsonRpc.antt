-- ===== src/Examples/JsonRpc.antt =====
-- JSON-RPC, of examples/eth-canister/src/jsonrpc.rs; examples/eth-canister-lite/src/jsonrpc.rs has
-- the same data and the same `call` but for its transport.
--
-- serde_json is another package: `Json` has what the code calls of it, and `Decoder` what it does
-- for one type of results. `send` is the transport: `post` of the agent, or `proxy`.
use idempotent_proxy.Prelude.{ℕ, String, Bool, Option, none, some, List, Result, ok, err, ◌>>=◌}

module _ (Value : Type 0) where
  pub record RpcRequest : Type 0 where
    pub jsonrpc : String
    pub method : String
    pub params : List Value
    pub id : ℕ

  pub record RpcResponse (T : Type 0) : Type 0 where
    pub result : Option T
    pub error : Option Value

pub record Json : Type 1 where
  pub Value : Type 0
  pub from_text : String → Value
  pub from_bool : Bool → Value
  pub to_vec : RpcRequest Value → Result (List ℕ) String
  pub to_string : Value → Result String String

pub record Decoder (json : Json) (T : Type 0) : Type 0 where
  pub from_slice : List ℕ → Result (RpcResponse json.Value T) String
  pub from_null : Result T String

module _ (json : Json) where
  -- The end of `call`, on the decoded response.
  unfoldable pub answer : {T : Type 0} → Decoder json T → RpcResponse json.Value T → Result T String
  answer decoder output = elim output.error [
    | some error ↦ json.to_string error >>= λ text. err text
    | none ↦ elim output.result [ some result ↦ ok result | none ↦ decoder.from_null ]
  ]

  -- `EthereumRPC::call`.
  unfoldable pub rpc_call :
      {T : Type 0}
      → Decoder json T
      → (String → List ℕ → Result (List ℕ) String)
      → String
      → String
      → List json.Value
      → Result T String
  unfolding answer
  rpc_call decoder send idempotency_key method params =
      json.to_vec (record { jsonrpc = "2.0"; method = method; params = params; id = 1 })
      >>= λ input. send idempotency_key input >>= λ bytes.
          decoder.from_slice bytes >>= λ output. answer decoder output
