-- ===== src/Examples/Tokens.antt =====
-- The example's tokens, as those of the canister of the proxy.
use idempotent_proxy.Prelude.{
  ℕ, suc, ◌≡◌, refl, ap, ◌∙◌, String, none, some, List, [], ◌∷◌, length, lookup, insert, is_empty,
  false, Member, Option-cases, Result, err, Result-cases, inl, inr,
}
use mathlib.Core.Option
use idempotent_proxy.Auth.{Cbor}
use idempotent_proxy.Canister.Types.{Agent, State}
use idempotent_proxy.Canister.Signer
use idempotent_proxy.Canister.Signer.{SystemCalls, signer}
use idempotent_proxy.Canister.Tasks
use idempotent_proxy.Canister.Upgrade.{default_state}
use idempotent_proxy.Examples.EthCanister.{RpcAgent}
use idempotent_proxy.Examples.Signing.{EcdsaCalls, sign_proxy_token, sign_with}
use idempotent_proxy.Examples.State.{
  EthState, refresh_proxy_token_interval, expiry, sign_rpc_agents, update_proxy_token,
}

-- An agent of the example, without its API token.
abbrev pub as_agent : RpcAgent → Agent
as_agent a = record {
  name = a.name;
  endpoint = a.endpoint;
  max_cycles = a.max_cycles;
  proxy_token = a.proxy_token;
}

abbrev pub as_agents : List RpcAgent → List Agent
as_agents [] = []
as_agents (a ∷ l) = as_agent a ∷ as_agents l

-- The state as one of the canister of the proxy, with an interval of an hour.
abbrev pub as_state : EthState → State
as_state s = record default_state {
  ecdsa_key_name = s.ecdsa_key_name;
  proxy_token_public_key = s.rpc_proxy_public_key;
  proxy_token_refresh_interval = refresh_proxy_token_interval;
  agents = as_agents s.rpc_agents;
}

-- The calls without those of a COSE canister.
abbrev pub as_system : EcdsaCalls → SystemCalls
as_system sys = record {
  sign_with_ecdsa = sys.sign_with_ecdsa;
  ecdsa_public_key = sys.ecdsa_public_key;
  cose_public_key = λ id input cycles. err (0, "");
  cose_sign = λ id input cycles. err (0, "");
  debug = λ id. "";
  show_code = λ code. "";
}

as_agents-length : (l : List RpcAgent) → length (as_agents l) ≡ length l
as_agents-length [] = refl
as_agents-length (a ∷ l) = ap suc (as_agents-length l)

pub as_agents-Member :
    (a : RpcAgent) (l : List RpcAgent) → Member a l → Member (as_agent a) (as_agents l)
as_agents-Member a [] m = absurd m
as_agents-Member a (b ∷ l) (inl here) = inl (ap as_agent here)
as_agents-Member a (b ∷ l) (inr there) = inr (as_agents-Member a l there)

pub as_agents-not_empty : (l : List RpcAgent) → is_empty l ≡ false → is_empty (as_agents l) ≡ false
as_agents-not_empty [] h = h
as_agents-not_empty (a ∷ l) h = refl

-- One agent with its token, in front of the rest.
as_agents-cons :
    (a : RpcAgent) (token : String) (r : Option.Option (List RpcAgent))
    → Option.map as_agents (Option.map (λ l. record a { proxy_token = some token } ∷ l) r)
      ≡ Option.map
          (λ l. record (as_agent a) { proxy_token = some token } ∷ l)
          (Option.map as_agents r)
as_agents-cons a token none = refl
as_agents-cons a token (some l) = refl

module _ (sign : String → ℕ → String → Result String String) (time : ℕ → ℕ)
    (key_name : String) where
  sign_rpc_agents-sign_agents :
      (tokens : List (String × String)) (agents : List RpcAgent)
      → Option.map as_agents (sign_rpc_agents sign time key_name tokens agents)
        ≡ Tasks.sign_agents
            (sign key_name)
            time
            refresh_proxy_token_interval
            tokens
            (as_agents agents)
  unfolding sign_rpc_agents Tasks.sign_agents Tasks.token_expiry
  sign_rpc_agents-sign_agents tokens [] = refl
  sign_rpc_agents-sign_agents tokens (a ∷ agents) = elim (Option-cases (lookup a.name tokens)) [
    | inr (token, known) ↦
        rw (known, sign_rpc_agents, Tasks.sign_agents)
          (as_agents-cons a token _ ∙ rw (sign_rpc_agents-sign_agents tokens agents) refl)
    | inl new ↦
        let same = as_agents-length agents in
        elim (Result-cases (sign key_name (expiry (time (length agents))) a.name)) [
          | inr (e, failed) ↦
              rw (new, sign_rpc_agents, Tasks.sign_agents) (rw same (rw (failed) refl))
          | inl (token, signed) ↦
              rw (new, sign_rpc_agents, Tasks.sign_agents)
                (rw same (
                  rw (signed) (
                    as_agents-cons a token _
                    ∙ rw (sign_rpc_agents-sign_agents (insert a.name token tokens) agents) refl)))
        ]
  ]

update_state :
    (s : EthState) (r : Option.Option (List RpcAgent))
    → Option.map as_state (Option.map (λ l. record s { rpc_agents = l }) r)
      ≡ Option.map (λ l. record (as_state s) { agents = l }) (Option.map as_agents r)
update_state s none = refl
update_state s (some l) = refl

pub update-as :
    (sign : String → ℕ → String → Result String String) (time : ℕ → ℕ) (key_name : String)
    (agents : List RpcAgent) (s : EthState)
    → Option.map as_state (update_proxy_token sign time key_name agents s)
      ≡ Tasks.update_proxy_token
          (sign key_name)
          time
          refresh_proxy_token_interval
          (as_agents agents)
          (as_state s)
unfolding update_proxy_token Tasks.update_proxy_token
update-as sign time key_name [] s = refl
update-as sign time key_name (a ∷ agents) s =
    update_state s _
    ∙ ap (Option.map (λ l. record (as_state s) { agents = l }))
        (sign_rpc_agents-sign_agents sign time key_name [] (a ∷ agents))

module _ (sys : EcdsaCalls) (base64_encode : List ℕ → String) (cbor : Cbor)
    (sha3_256 : List ℕ → List ℕ) where
  -- The example signs as the canister of the proxy does without a COSE canister.
  sign_proxy_token-as :
      (s : EthState) (expire_at : ℕ) (message : String)
      → sign_proxy_token sys base64_encode cbor sha3_256 s.ecdsa_key_name expire_at message
        ≡ Signer.sign_proxy_token
            (as_system sys)
            base64_encode
            cbor
            sha3_256
            (signer (as_state s))
            expire_at
            message
  unfolding sign_proxy_token sign_with Signer.sign_proxy_token Signer.sign_digest Signer.sign_with
      signer
  sign_proxy_token-as s expire_at message = refl

  -- The example's refresh of its tokens, or its setting of agents, is that of the canister of the
  -- proxy without a COSE canister and with an interval of an hour: on every state and every answer
  -- of the management canister it traps where that one does, and else it leaves the same agents
  -- with the same tokens.
  pub update_proxy_token-as :
      (time : ℕ → ℕ) (agents : List RpcAgent) (before s : EthState)
      → Option.map as_state (
          update_proxy_token
            (sign_proxy_token sys base64_encode cbor sha3_256)
            time
            before.ecdsa_key_name
            agents
            s)
        ≡ Tasks.update_proxy_token
            (Signer.sign_proxy_token
              (as_system sys)
              base64_encode
              cbor
              sha3_256
              (signer (as_state before)))
            time
            (as_state before).proxy_token_refresh_interval
            (as_agents agents)
            (as_state s)
  update_proxy_token-as time agents before s =
      update-as (sign_proxy_token sys base64_encode cbor sha3_256) time before.ecdsa_key_name agents
        s
      ∙ ap
          (λ sign.
            Tasks.update_proxy_token sign time refresh_proxy_token_interval (as_agents agents)
              (as_state s))
          (λ i e m. sign_proxy_token-as before e m i)
