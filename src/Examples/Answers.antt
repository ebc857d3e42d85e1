-- ===== src/Examples/Answers.antt =====
-- When the calls of the examples succeed.
use idempotent_proxy.Prelude.{
  ℕ, ◌≡◌, ◌↔◌, ◌≤◌, ◌<◌, ◌⊎◌, inl, inr, String, none, some, List, Result, ok, Result-cases,
  Option-cases, arith,
}
use idempotent_proxy.Canister.Types.{HttpResponse}
use idempotent_proxy.Examples.JsonRpc.{RpcResponse, Json, Decoder, answer, rpc_call}
use idempotent_proxy.Examples.EthCanister.{System, RpcAgent, post_request, post}
use idempotent_proxy.Examples.Lite.{EthereumRpc, LiteSystem, lite_request, through_proxy, lite_call}

-- A reply of status 2xx with this body.
pub record IsReply {E : Type 0} (replied : Result HttpResponse E) (bytes : List ℕ) : Type 0 where
  pub res : HttpResponse
  pub arrived : replied ≡ ok res
  pub low : 200 ≤ res.status
  pub high : res.status < 300
  pub body : res.body ≡ bytes

module _ (json : Json) {T : Type 0} (decoder : Decoder json T) where
  -- A response has the value, or has neither a value nor an error where `null` decodes to the value.
  abbrev pub Holds : RpcResponse json.Value T → T → Type 0
  Holds output v =
      (output.error ≡ none)
      × ((output.result ≡ some v) ⊎ ((output.result ≡ none) × (decoder.from_null ≡ ok v)))

  -- The bytes that are `reached` from the encoded request decode to a response with the value.
  pub record IsAnswered (reached : List ℕ → List ℕ → Type 0) (method : String)
      (params : List json.Value) (v : T) : Type 0 where
    pub input : List ℕ
    pub encoded :
        json.to_vec (record { jsonrpc = "2.0"; method = method; params = params; id = 1 })
        ≡ ok input
    pub bytes : List ℕ
    pub sent : reached input bytes
    pub output : RpcResponse json.Value T
    pub decoded : decoder.from_slice bytes ≡ ok output
    pub value : Holds output v

  answer_iff :
      (output : RpcResponse json.Value T) (v : T)
      → (answer json decoder output ≡ ok v) ↔ Holds output v
  unfolding answer
  answer_iff output v = elim (Option-cases output.error) [
    | inl e ↦ elim (Option-cases output.result) [
      | inl r ↦ (λ h. (e, inr (r, ground (arith, e, r, h))), λ h. ground (arith, e, r, h))
      | inr (w, r) ↦ (λ h. (e, inl (ground (arith, e, r, h))), λ h. ground (arith, e, r, h))
    ]
    | inr (error, e) ↦ (
      λ h. absurd (elim (Result-cases (json.to_string error)) [
        | inl (t, shown) ↦ ground (arith, e, shown, h)
        | inr (t, shown) ↦ ground (arith, e, shown, h)
      ]),
      λ h. absurd (ground (arith, e, h.0)),
    )
  ]

  rpc_call_iff :
      (send : String → List ℕ → Result (List ℕ) String) (reached : List ℕ → List ℕ → Type 0)
      (key method : String) (params : List json.Value) (v : T)
      → ((input bytes : List ℕ) → (send key input ≡ ok bytes) ↔ reached input bytes)
      → (rpc_call json decoder send key method params ≡ ok v) ↔ IsAnswered reached method params v
  unfolding rpc_call
  rpc_call_iff send reached key method params v reaches = (
    λ h.
        elim (Result-cases
          (json.to_vec (record { jsonrpc = "2.0"; method = method; params = params; id = 1 }))) [
            | inr (e, encoded) ↦ absurd (ground (arith, encoded, h))
            | inl (input, encoded) ↦ elim (Result-cases (send key input)) [
              | inr (e, sent) ↦ absurd (ground (arith, encoded, sent, h))
              | inl (bytes, sent) ↦ elim (Result-cases (decoder.from_slice bytes)) [
                | inr (e, decoded) ↦ absurd (ground (arith, encoded, sent, decoded, h))
                | inl (output, decoded) ↦ record {
                  input = input;
                  encoded = encoded;
                  bytes = bytes;
                  sent = (reaches input bytes).0 sent;
                  output = output;
                  decoded = decoded;
                  value = (answer_iff output v).0 (ground (arith, encoded, sent, decoded, h));
                }
              ]
            ]
          ],
    λ a.
        let sent = (reaches a.input a.bytes).1 a.sent in
        rw (a.encoded, rpc_call) (rw sent (rw (a.decoded) ((answer_iff a.output v).1 a.value))),
  )

through_proxy_iff :
    (sys : LiteSystem) (rpc : EthereumRpc) (proxy_method key : String) (input bytes : List ℕ)
    → (through_proxy sys rpc proxy_method key input ≡ ok bytes)
      ↔ IsReply
          (sys.call_proxy rpc.proxy proxy_method (lite_request sys rpc key input) 1_000_000_000)
          bytes
unfolding through_proxy
through_proxy_iff sys rpc proxy_method key input bytes = (
  λ h. elim (Result-cases replied) [
    | inr (e, failed) ↦ absurd (ground (arith, failed, h))
    | inl (res, arrived) ↦ record {
      res = res;
      arrived = arrived;
      low = ground (arith, arrived, h);
      high = ground (arith, arrived, h);
      body = ground (arith, arrived, h);
    }
  ],
  λ r. ground (arith, r.arrived, r.low, r.high, r.body),
)
  where
    replied : Result HttpResponse (String × String)
    replied = sys.call_proxy rpc.proxy proxy_method (lite_request sys rpc key input) 1_000_000_000

post_iff :
    (sys : System) (a : RpcAgent) (key : String) (input bytes : List ℕ)
    → (post sys a key input ≡ ok bytes)
      ↔ IsReply (sys.http_request (post_request sys a key input) a.max_cycles) bytes
unfolding post
post_iff sys a key input bytes = (
  λ h. elim (Result-cases (sys.http_request (post_request sys a key input) a.max_cycles)) [
    | inr (e, failed) ↦ absurd (ground (arith, failed, h))
    | inl (res, arrived) ↦ record {
      res = res;
      arrived = arrived;
      low = ground (arith, arrived, h);
      high = ground (arith, arrived, h);
      body = ground (arith, arrived, h);
    }
  ],
  λ r. ground (arith, r.arrived, r.low, r.high, r.body),
)

-- A JSON-RPC call of either example succeeds with a value exactly if its request is encoded, the
-- other side (the proxy by an outcall, or the canister of the proxy) replies to it with a status
-- from 200 to 299, and the reply's body decodes to a response with no error and this value, or with
-- neither where `null` decodes to the value. Every other call is an error.
pub calls_iff :
    (json : Json) {T : Type 0} (decoder : Decoder json T) (sys : System) (a : RpcAgent)
    (lite : LiteSystem) (rpc : EthereumRpc) (proxy_method key method : String)
    (params : List json.Value) (v : T)
    → ((rpc_call json decoder (post sys a) key method params ≡ ok v)
        ↔ IsAnswered json decoder
            (λ input bytes.
              IsReply (sys.http_request (post_request sys a key input) a.max_cycles) bytes)
            method
            params
            v)
      × ((lite_call lite json decoder rpc proxy_method key method params ≡ ok v)
          ↔ IsAnswered json decoder
              (λ input bytes.
                IsReply
                  (lite.call_proxy rpc.proxy proxy_method
                    (lite_request lite rpc key input)
                    1_000_000_000)
                  bytes)
              method
              params
              v)
unfolding lite_call
calls_iff json decoder sys a lite rpc proxy_method key method params v = (
  rpc_call_iff json decoder (post sys a) _ key method params v (post_iff sys a key),
  rpc_call_iff json decoder (through_proxy lite rpc proxy_method) _ key method params v
      (through_proxy_iff lite rpc proxy_method key),
)
