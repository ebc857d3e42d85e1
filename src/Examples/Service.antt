-- ===== src/Examples/Service.antt =====
-- The two calls that the examples offer: `eth_chain_id` and `get_best_block` of
-- examples/eth-canister/src/lib.rs and of examples/eth-canister-lite/src/lib.rs.
--
-- `time` is `ic_cdk::api::time`, `from_text` is `Principal::from_text`. A panic is `none`.
use idempotent_proxy.Prelude.{ℕ, ◌/◌, String, Option, none, some, [], ◌∷◌, join, Result, ◌>>=◌}
use idempotent_proxy.Canister.Types.{Principal}
use idempotent_proxy.Examples.JsonRpc.{Json, Decoder}
use idempotent_proxy.Examples.EthCanister
use idempotent_proxy.Examples.EthCanister.{System}
use idempotent_proxy.Examples.Lite.{LiteSystem, lite_eth_chain_id, lite_get_best_block}
use idempotent_proxy.Examples.State.{EthState, seconds, get_agent}

-- `format!("blk-best-{ts}")`
abbrev pub best_key : (ℕ → String) → ℕ → String
best_key show_number time = join ("blk-best-" ∷ show_number (time / seconds) ∷ [])

module _ (sys : System) (json : Json) where
  unfoldable pub eth_chain_id : Decoder json String → EthState → Option (Result String String)
  unfolding get_agent
  eth_chain_id decoder s = elim (get_agent s) [
    | none ↦ none
    | some agent ↦ some (EthCanister.eth_chain_id sys json decoder agent "eth_chain_id")
  ]

  unfoldable pub get_best_block :
      Decoder json json.Value → ℕ → EthState → Option (Result String String)
  unfolding get_agent
  get_best_block decoder time s = elim (get_agent s) [
    | none ↦ none
    | some agent ↦ some (
        EthCanister.get_best_block sys json decoder agent (best_key sys.show_number time) >>= λ res.
        json.to_string res)
  ]

module _ (from_text : String → Result Principal String) (sys : LiteSystem) (json : Json) where
  unfoldable pub lite_chain_id : Decoder json String → Result String String
  lite_chain_id decoder = from_text "hpudd-yqaaa-aaaap-ahnbq-cai" >>= λ proxy.
      lite_eth_chain_id sys json decoder
        (record { provider = "URL_CF_ETH"; proxy = proxy; api_token = none }) "eth_chain_id"

  unfoldable pub lite_best_block : Decoder json json.Value → ℕ → Result String String
  lite_best_block decoder time = from_text "hpudd-yqaaa-aaaap-ahnbq-cai" >>= λ proxy.
      lite_get_best_block sys json decoder
        (record { provider = "https://rpc.ankr.com/eth"; proxy = proxy; api_token = none })
        (best_key sys.show_number time)
      >>= λ res. json.to_string res
