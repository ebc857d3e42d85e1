-- ===== src/Canister/Api/Info.antt =====
-- `state_info` of idempotent-proxy-canister/src/api.rs.
use idempotent_proxy.Prelude.{
  ℕ, ◌≡◌, refl, ap, sym, ◌∙◌, true, inl, inr, Bool-cases, Option, none, some, List, [], ◌∷◌, length,
  is_empty, String, Result, ◌%◌, u64_mod, arith,
}
use idempotent_proxy.Canister.Types.{Principal, Agent, CoseClient, State}
use idempotent_proxy.Canister.Tasks.{refresh_proxy_token}
use idempotent_proxy.Canister.Tasks.Tokens.{untokened, refresh_proxy_token-HoldTokens}

pub record StateInfo : Type 0 where
  pub ecdsa_key_name : String
  pub proxy_token_public_key : String
  pub proxy_token_refresh_interval : ℕ
  pub agents : List Agent
  pub managers : List Principal
  pub callers : ℕ
  pub subnet_size : ℕ
  pub service_fee : ℕ
  pub incoming_cycles : ℕ
  pub uncollectible_cycles : ℕ
  pub cose : Option CoseClient

-- The loop over the agents.
agent_infos : List Agent → List Agent
agent_infos [] = []
agent_infos (a ∷ agents) =
    record { name = a.name; endpoint = a.endpoint; max_cycles = a.max_cycles; proxy_token = none }
    ∷ agent_infos agents

unfoldable pub state_info : State → StateInfo
unfolding agent_infos
state_info s = record {
  ecdsa_key_name = s.ecdsa_key_name;
  proxy_token_public_key = s.proxy_token_public_key;
  proxy_token_refresh_interval = s.proxy_token_refresh_interval;
  agents = agent_infos s.agents;
  managers = s.managers;
  callers = length s.callers % u64_mod;
  subnet_size = s.subnet_size;
  service_fee = s.service_fee;
  incoming_cycles = s.incoming_cycles;
  uncollectible_cycles = s.uncollectible_cycles;
  cose = s.cose;
}

agent_infos-untokened : (l : List Agent) → agent_infos l ≡ untokened l
unfolding agent_infos
agent_infos-untokened [] = refl
agent_infos-untokened (a ∷ l) =
    ap (λ t. record a { proxy_token = none } ∷ t) (agent_infos-untokened l)

-- The answer for a state whose agents have other tokens.
state_info_congr :
    (s : State) (agents : List Agent)
    → untokened agents ≡ untokened s.agents
    → state_info (record s { agents = agents }) ≡ state_info s
unfolding state_info
state_info_congr s agents same =
    ap (λ l. record (state_info s) { agents = l })
      (agent_infos-untokened agents ∙ same ∙ sym (agent_infos-untokened s.agents))

unlisted_stays :
    (sign : ℕ → String → Result String String) (time : ℕ → ℕ) (interval : ℕ) (s s' : State)
    → is_empty s.agents ≡ true
    → refresh_proxy_token sign time interval s s ≡ some s'
    → s ≡ s'
unfolding refresh_proxy_token
unlisted_stays sign time interval s s' unlisted h = ground (arith, unlisted, h)

-- `state_info`, which anyone may ask, reveals no token. Nobody can tell states apart by it that
-- differ in their agents' tokens alone, and so nobody can tell a state that no other message
-- changes from what a refresh of the tokens makes of it.
pub state_info-refresh_proxy_token :
    (s : State)
    → ((agents : List Agent)
        → untokened agents ≡ untokened s.agents
        → state_info (record s { agents = agents }) ≡ state_info s)
      × ((sign : ℕ → String → Result String String) (time : ℕ → ℕ) (interval : ℕ) (s' : State)
          → refresh_proxy_token sign time interval s s ≡ some s'
          → state_info s' ≡ state_info s)
state_info-refresh_proxy_token s = (
  state_info_congr s,
  λ sign time interval s' h. elim (Bool-cases (is_empty s.agents)) [
    | inl unlisted ↦ ap state_info (sym (unlisted_stays sign time interval s s' unlisted h))
    | inr listed ↦
        let (tokens, _, kept, same) =
          refresh_proxy_token-HoldTokens sign time interval s s s' h listed in
        ap state_info same ∙ state_info_congr s s'.agents kept
  ],
)
