-- ===== src/Canister/Tasks.antt =====
-- idempotent-proxy-canister/src/tasks.rs: the agents' tokens.
--
-- `sign` is `Signer::sign_proxy_token` of one signer, at one call. `time` is what
-- `ic_cdk::api::time` returns, by the number of agents left: it moves on only while a signature is
-- awaited. A panic of the `expect` is `none`.
pub mod Tokens
use idempotent_proxy.Prelude.{
  ℕ, zero, suc, ◌+◌, ◌/◌, ◌%◌, String, Option, none, some, List, [], ◌∷◌, length, lookup, insert,
  Result, ok, err, u64_mod, is_empty, if◌then◌else◌,
}
use mathlib.Core.Option
use idempotent_proxy.Canister.Types.{Agent, State}

abbrev pub seconds : ℕ
seconds = 1_000_000_000

-- `time() / SECONDS + proxy_token_refresh_interval + 120`, in `u64`.
unfoldable pub token_expiry : ℕ → ℕ → ℕ
token_expiry time interval = ((time / seconds + interval) % u64_mod + 120) % u64_mod

module _ (sign : ℕ → String → Result String String) (time : ℕ → ℕ) (interval : ℕ) where
  -- The loop, with the tokens by name so far.
  unfoldable pub sign_agents : List (String × String) → List Agent → Option (List Agent)
  sign_agents tokens [] = some []
  sign_agents tokens (a ∷ agents) = elim (lookup a.name tokens) [
    | some token ↦
        Option.map (λ l. record a { proxy_token = some token } ∷ l) (sign_agents tokens agents)
    | none ↦ elim (sign (token_expiry (time (length agents)) interval) a.name) [
      | err e ↦ none
      | ok token ↦
          Option.map (λ l. record a { proxy_token = some token } ∷ l)
            (sign_agents (insert a.name token tokens) agents)
    ]
  ]

  -- `update_proxy_token`: `s` is the state when the last signature has arrived.
  unfoldable pub update_proxy_token : List Agent → State → Option State
  update_proxy_token agents s =
      if is_empty agents
      then some s
      else Option.map (λ l. record s { agents = l }) (sign_agents [] agents)

  -- `refresh_proxy_token` reads the agents in the state `before`, and writes them in the state
  -- `s` that other messages have left when the last signature has arrived.
  unfoldable pub refresh_proxy_token : State → State → Option State
  unfolding update_proxy_token
  refresh_proxy_token before s = update_proxy_token before.agents s
