-- ===== src/Examples/State.antt =====
-- examples/eth-canister/src: the state (store.rs), the refresh of the tokens (tasks.rs), the hooks
-- (init.rs) and the calls that change or show the state (lib.rs).
--
-- `sign` is `sign_proxy_token`, `public_key` is `get_proxy_token_public_key`, each at one call.
-- `time` is what `ic_cdk::api::time` returns, by the number of agents left. A trap or a panic is
-- `none`. The timers start `refresh_proxy_token`, after an installation `startup`.
mod Tests
use idempotent_proxy.Prelude.{
  ℕ, ◌+◌, ◌*◌, ◌/◌, ◌%◌, String, Bool, ◌&&◌, not, Option, none, some, List, [], ◌∷◌, length, lookup,
  insert, is_empty, text_is_empty, if◌then◌else◌, Result, ok, err, ◌>>=◌, u64_mod,
}
use mathlib.Core.Option
use idempotent_proxy.Examples.EthCanister.{RpcAgent}

-- `State` of store.rs.
pub record EthState : Type 0 where
  pub ecdsa_key_name : String
  pub rpc_proxy_public_key : String
  pub rpc_agents : List RpcAgent

-- `State::default()`.
abbrev pub default_eth_state : EthState
default_eth_state = record { ecdsa_key_name = ""; rpc_proxy_public_key = ""; rpc_agents = [] }

-- `get_agent`.
unfoldable pub get_agent : EthState → Option RpcAgent
get_agent s = elim s.rpc_agents [ [] ↦ none | a ∷ rest ↦ some a ]

-- `init_ecdsa_public_key`: the key's name is that of the state `before`, and `s` is the state that
-- other messages have left when the key has arrived.
unfoldable pub init_ecdsa_public_key :
    (String → Result String String) → EthState → EthState → Option EthState
init_ecdsa_public_key public_key before s =
    if text_is_empty before.rpc_proxy_public_key && not (text_is_empty before.ecdsa_key_name)
    then elim (public_key before.ecdsa_key_name) [
      | ok pk ↦ some (record s { rpc_proxy_public_key = pk })
      | err e ↦ none
    ]
    else some s

abbrev pub seconds : ℕ
seconds = 1_000_000_000

-- `REFRESH_PROXY_TOKEN_INTERVAL`.
abbrev pub refresh_proxy_token_interval : ℕ
refresh_proxy_token_interval = 60 * 60

-- `(time() / SECONDS) + REFRESH_PROXY_TOKEN_INTERVAL + 120`, in `u64`.
abbrev pub expiry : ℕ → ℕ
expiry time = ((time / seconds + refresh_proxy_token_interval) % u64_mod + 120) % u64_mod

module _ (sign : String → ℕ → String → Result String String) (time : ℕ → ℕ) where
  -- The loop, with the tokens by name so far.
  unfoldable pub sign_rpc_agents :
      String → List (String × String) → List RpcAgent → Option (List RpcAgent)
  sign_rpc_agents key_name tokens [] = some []
  sign_rpc_agents key_name tokens (a ∷ agents) = elim (lookup a.name tokens) [
    | some token ↦
        Option.map (λ l. record a { proxy_token = some token } ∷ l)
          (sign_rpc_agents key_name tokens agents)
    | none ↦ elim (sign key_name (expiry (time (length agents))) a.name) [
      | err e ↦ none
      | ok token ↦
          Option.map (λ l. record a { proxy_token = some token } ∷ l)
            (sign_rpc_agents key_name (insert a.name token tokens) agents)
    ]
  ]

  -- `s` is the state when the last signature has arrived.
  unfoldable pub update_proxy_token : String → List RpcAgent → EthState → Option EthState
  update_proxy_token key_name rpc_agents s =
      if is_empty rpc_agents
      then some s
      else Option.map (λ l. record s { rpc_agents = l }) (sign_rpc_agents key_name [] rpc_agents)

  unfoldable pub refresh_proxy_token : EthState → EthState → Option EthState
  refresh_proxy_token before s = update_proxy_token before.ecdsa_key_name before.rpc_agents s

  -- `admin_set_agents` behind its guard, for a caller who is a controller or not. A call
  -- that returns an error has awaited nothing, so that `s` is the state that it finds.
  unfoldable pub admin_set_agents :
      Bool → List RpcAgent → EthState → EthState → Option (EthState × Result (Unit {0}) String)
  admin_set_agents controller agents before s =
      if not controller
      then some (s, err "user is not a controller")
      else if is_empty agents
      then some (s, err "agents cannot be empty")
      else Option.map (λ s'. (s', ok tt)) (update_proxy_token before.ecdsa_key_name agents s)

-- `get_state`.
unfoldable pub get_state : Bool → EthState → EthState
get_state controller s = if not controller then record s { rpc_agents = [] } else s

-- `InitArgs` and `UpgradeArgs` of init.rs.
pub data EthArgs : Type 0 where
  init_args : String → EthArgs
  upgrade_args : EthArgs

-- `init`, from the state at its start.
unfoldable pub init : Option EthArgs → EthState → Option EthState
init none s = none
init (some upgrade_args) s = none
init (some (init_args key_name)) s = some (record s { ecdsa_key_name = key_name })

-- `post_upgrade`, from the state in stable memory.
unfoldable pub post_upgrade : Option EthArgs → EthState → Option EthState
post_upgrade none s = some s
post_upgrade (some upgrade_args) s = some s
post_upgrade (some (init_args key_name)) s = none
