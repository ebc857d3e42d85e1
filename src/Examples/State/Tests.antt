-- ===== src/Examples/State/Tests.antt =====
-- A small history of the example, and the theorems at it.
use idempotent_proxy.Prelude.{
  ℕ, ◌≡◌, refl, sym, String, Bool, true, Option, none, some, List, [], ◌∷◌, Result, ok, err, join,
  inl, inr, All,
}
use mathlib.Core.Option
use idempotent_proxy.Canister.Signer
use idempotent_proxy.Canister.Signer.{signer}
use idempotent_proxy.Canister.Signer.Tests.{packages, unary_text}
use idempotent_proxy.Canister.Tasks
use idempotent_proxy.Examples.EthCanister.{RpcAgent}
use idempotent_proxy.Examples.Signing.{EcdsaCalls, sign_proxy_token}
use idempotent_proxy.Examples.State.{
  EthState, EthArgs, upgrade_args, default_eth_state, init, init_ecdsa_public_key,
  update_proxy_token, refresh_proxy_token, admin_set_agents,
}
use idempotent_proxy.Examples.Tokens.{as_agents, as_state, as_system, update_proxy_token-as}
use idempotent_proxy.Examples.Histories.{
  History, installed, keyed, refreshed, agents_set, AreProven, History-AreProven,
}

abbrev IsProof : String → String → String → Type 0
IsProof key_name name token = token ≡ join (name ∷ "@" ∷ key_name ∷ [])

abbrev IsKey : String → String → Type 0
IsKey key_name key = key ≡ join ("pk of " ∷ key_name ∷ [])

abbrev sign : String → ℕ → String → Result String String
sign key_name e name = ok (join (name ∷ "@" ∷ key_name ∷ []))

abbrev public_key : String → Result String String
public_key key_name = ok (join ("pk of " ∷ key_name ∷ []))

abbrev eth : RpcAgent
eth = record {
  name = "ETH";
  endpoint = "https://proxy.example/URL_ETH";
  max_cycles = 100;
  proxy_token = none;
  api_token = none;
}

abbrev fresh : EthState
fresh = record default_eth_state { ecdsa_key_name = "key_1" }

abbrev with_agents : EthState
with_agents = record fresh { rpc_agents = record eth { proxy_token = some "ETH@key_1" } ∷ [] }

abbrev with_key : EthState
with_key = record with_agents { rpc_proxy_public_key = "pk of key_1" }

ok_same : {a b : String} → ◌≡◌ {A = Result String String} (ok a) (ok b) → b ≡ a
ok_same h = cc

-- The key arrives after the agents are set, and a refresh has started before.
run : History IsProof IsKey "key_1" with_key (with_key ∷ with_agents ∷ fresh ∷ [])
unfolding init init_ecdsa_public_key update_proxy_token refresh_proxy_token admin_set_agents
    idempotent_proxy.Examples.State.sign_rpc_agents idempotent_proxy.Prelude.lookup
run =
    refreshed with_agents sign (λ n. 5)
      (keyed fresh public_key
        (agents_set fresh sign (λ n. 0) true (eth ∷ []) (installed refl) (inl refl)
          (λ key_name name token e signed. ok_same signed) refl)
        (inr (inl refl)) (λ key_name key given. ok_same given) refl)
      (inr (inl refl)) (λ key_name name token e signed. ok_same signed) refl

History-AreProven_example : AreProven IsProof IsKey "key_1" with_agents
History-AreProven_example =
    History-AreProven IsProof IsKey "key_1" with_key (with_key ∷ with_agents ∷ fresh ∷ []) run
      with_agents (inr (inr (inl refl)))

abbrev calls : EcdsaCalls
calls = record {
  sign_with_ecdsa = λ arg. ok (7 ∷ arg.message_hash);
  ecdsa_public_key = λ arg. err "not asked";
}

update_proxy_token-as_example :
    Option.map as_state (
      update_proxy_token
        (sign_proxy_token calls unary_text packages.cbor packages.sha3_256)
        (λ n. n)
        "key_1"
        (eth ∷ eth ∷ [])
        with_key)
    ≡ Tasks.update_proxy_token
        (Signer.sign_proxy_token
          (as_system calls)
          unary_text
          packages.cbor
          packages.sha3_256
          (signer (as_state fresh)))
        (λ n. n)
        3600
        (as_agents (eth ∷ eth ∷ []))
        (as_state with_key)
update_proxy_token-as_example =
    update_proxy_token-as calls unary_text packages.cbor packages.sha3_256 (λ n. n) (eth ∷ eth ∷ [])
      fresh with_key
