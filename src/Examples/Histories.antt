-- ===== src/Examples/Histories.antt =====
-- What the example has after any number of messages.
--
-- A message that waits reads the state at its start and writes it at its end, and others end in
-- between: a history lists the states so far, and a message that ends has started in one of them.
use idempotent_proxy.Prelude.{
  ℕ, ◌≡◌, refl, sym, ap, ◌∙◌, ◌⊎◌, inl, inr, String, Bool, false, some, List, [], ◌∷◌, is_empty,
  text_is_empty, not, ◌&&◌, Member, Result, ok, arith, Bool-cases, Result-cases,
}
use mathlib.Core.Option
use idempotent_proxy.Canister.Tasks
use idempotent_proxy.Canister.Tasks.Tokens.{refresh_proxy_token-IsSigned}
use idempotent_proxy.Canister.Upgrade.{default_state}
use idempotent_proxy.Examples.EthCanister.{RpcAgent}
use idempotent_proxy.Examples.State.{
  EthState, init_args, init, refresh_proxy_token_interval, default_eth_state, init_ecdsa_public_key,
  update_proxy_token, refresh_proxy_token, admin_set_agents,
}
use idempotent_proxy.Examples.Tokens.{
  as_agent, as_agents, as_agents-Member, as_agents-not_empty, as_state, update-as,
}

-- `IsProof key_name name token`: what a token proves that is signed. `IsKey key_name key`: what is
-- known of a public key.
module _ (IsProof : String → String → String → Type 0) (IsKey : String → String → Type 0) where
  -- Every token that is signed is a proof, whatever the times.
  abbrev pub IsSigner : (String → ℕ → String → Result String String) → Type 0
  IsSigner sign =
      (key_name name token : String) (e : ℕ)
      → sign key_name e name ≡ ok token
      → IsProof key_name name token

  abbrev pub IsKeeper : (String → Result String String) → Type 0
  IsKeeper public_key = (key_name key : String) → public_key key_name ≡ ok key → IsKey key_name key

  -- The state, and the states before it, of a canister that is installed with the name of a key.
  pub data History (key_name : String) : EthState → List EthState → Type 0 where
    installed :
        {s : EthState}
        → init (some (init_args key_name)) default_eth_state ≡ some s
        → History key_name s []
    -- The end of `init_ecdsa_public_key`.
    keyed :
        {s s' : EthState} {past : List EthState} (before : EthState)
        (public_key : String → Result String String)
        → History key_name s past
        → Member before (s ∷ past)
        → IsKeeper public_key
        → init_ecdsa_public_key public_key before s ≡ some s'
        → History key_name s' (s ∷ past)
    -- The end of `refresh_proxy_token`.
    refreshed :
        {s s' : EthState} {past : List EthState} (before : EthState)
        (sign : String → ℕ → String → Result String String) (time : ℕ → ℕ)
        → History key_name s past
        → Member before (s ∷ past)
        → IsSigner sign
        → refresh_proxy_token sign time before s ≡ some s'
        → History key_name s' (s ∷ past)
    -- The end of `admin_set_agents`, by anybody.
    agents_set :
        {s s' : EthState} {past : List EthState} {r : Result (Unit {0}) String} (before : EthState)
        (sign : String → ℕ → String → Result String String) (time : ℕ → ℕ) (controller : Bool)
        (agents : List RpcAgent)
        → History key_name s past
        → Member before (s ∷ past)
        → IsSigner sign
        → admin_set_agents sign time controller agents before s ≡ some (s', r)
        → History key_name s' (s ∷ past)

  -- Every agent has a token that proves its name, under the key of that name, and the public key
  -- is none or that key's.
  pub record AreProven (key_name : String) (s : EthState) : Type 0 where
    pub named : s.ecdsa_key_name ≡ key_name
    pub tokens :
        (a : RpcAgent)
        → Member a s.rpc_agents
        → (token : String) × (a.proxy_token ≡ some token) × IsProof key_name a.name token
    pub public_key : (s.rpc_proxy_public_key ≡ "") ⊎ IsKey key_name s.rpc_proxy_public_key

  module _ (key_name : String) where
    init-AreProven :
        (s : EthState)
        → init (some (init_args key_name)) default_eth_state ≡ some s
        → AreProven key_name s
    unfolding init
    init-AreProven s h =
        let e : (record default_eth_state { ecdsa_key_name = key_name }) ≡ s = cc in
        rw (← e) (record { named = refl; tokens = λ a m. absurd m; public_key = inl refl })

    keyed-AreProven :
        (public_key : String → Result String String) (before s s' : EthState)
        → IsKeeper public_key
        → AreProven key_name before
        → AreProven key_name s
        → init_ecdsa_public_key public_key before s ≡ some s'
        → AreProven key_name s'
    unfolding init_ecdsa_public_key
    keyed-AreProven public_key before s s' keeps old now h =
        elim (Bool-cases (
          text_is_empty before.rpc_proxy_public_key && not (text_is_empty before.ecdsa_key_name))) [
            | inr known ↦ let e : s ≡ s' = cc in rw (← e) now
            | inl wanted ↦ elim (Result-cases (public_key before.ecdsa_key_name)) [
              | inr (e, failed) ↦ absurd (ground arith)
              | inl (key, given) ↦
                  let e : (record s { rpc_proxy_public_key = key }) ≡ s' = ground arith in
                  rw (← e) (record {
                    named = now.named;
                    tokens = now.tokens;
                    public_key = inr (keeps key_name key (rw old.named at given));
                  })
            ]
          ]

    -- The canister's refresh, at the agents that are set.
    update_tokens :
        (sign : String → ℕ → String → Result String String) (time : ℕ → ℕ) (agents : List RpcAgent)
        (s s' : EthState)
        → IsSigner sign
        → update_proxy_token sign time key_name agents s ≡ some s'
        → is_empty agents ≡ false
        → (a : RpcAgent) → Member a s'.rpc_agents
        → (token : String) × (a.proxy_token ≡ some token) × IsProof key_name a.name token
    unfolding Tasks.refresh_proxy_token
    update_tokens sign time agents s s' signs h listed a m =
        let (n, token, holds, signed) =
          refresh_proxy_token-IsSigned (sign key_name) time refresh_proxy_token_interval
            (record default_state { agents = as_agents agents }) (as_state s) (as_state s')
            (sym (update-as sign time key_name agents s) ∙ ap (Option.map as_state) h)
            (as_agents-not_empty agents listed) (as_agent a) (as_agents-Member a s'.rpc_agents m) in
        (token, holds, signs key_name a.name token _ signed)

    update-AreProven :
        (sign : String → ℕ → String → Result String String) (time : ℕ → ℕ) (agents : List RpcAgent)
        (s s' : EthState)
        → IsSigner sign
        → AreProven key_name s
        → update_proxy_token sign time key_name agents s ≡ some s'
        → AreProven key_name s'
    unfolding update_proxy_token
    update-AreProven sign time agents s s' signs now h = elim (Bool-cases (is_empty agents)) [
      | inl none_left ↦ let e : s ≡ s' = ground arith in rw (← e) now
      | inr listed ↦
          let (l, signed, same) =
            (Option.map-eq-some_iff _ _).0 (rw (listed, update_proxy_token) at h) in
          rw (← same) (record {
            named = now.named;
            tokens =
                λ a m. update_tokens sign time agents s _ signs (h ∙ ap some (sym same)) listed a m;
            public_key = now.public_key;
          })
    ]

    set-AreProven :
        (sign : String → ℕ → String → Result String String) (time : ℕ → ℕ) (controller : Bool)
        (agents : List RpcAgent) (before s s' : EthState) (r : Result (Unit {0}) String)
        → IsSigner sign
        → AreProven key_name before
        → AreProven key_name s
        → admin_set_agents sign time controller agents before s ≡ some (s', r)
        → AreProven key_name s'
    unfolding admin_set_agents
    set-AreProven sign time controller agents before s s' r signs old now h =
        elim (Bool-cases controller) [
          | inr other ↦ let e : s ≡ s' = ground arith in rw (← e) now
          | inl may ↦ elim (Bool-cases (is_empty agents)) [
            | inl none_left ↦ let e : s ≡ s' = ground arith in rw (← e) now
            | inr listed ↦
                let (t, updated, same) =
                  (Option.map-eq-some_iff _ _).0 (rw listed at (rw (may, admin_set_agents) at h)) in
                let e : t ≡ s' = ap (λ q. q.0) same in
                rw (← e) (update-AreProven sign time agents s t signs now (rw old.named at updated))
          ]
        ]

    -- Whatever messages have ended since the installation, and however they overlap while they
    -- wait: in each state every agent of the example has a token that was signed for its name with
    -- the key whose name was given at the installation, and the public key is empty or one that was
    -- given for that name. `IsProof` and `IsKey` are what the answers of the management canister
    -- are known to be.
    pub History-AreProven :
        (s : EthState) (past : List EthState)
        → History key_name s past
        → (t : EthState) → Member t (s ∷ past)
        → AreProven key_name t
    unfolding refresh_proxy_token
    History-AreProven s past (installed h) t (inl now) = rw now (init-AreProven s h)
    History-AreProven s past (installed h) t (inr earlier) = absurd earlier
    History-AreProven s past (keyed {s = u} before public_key run m keeps h) t (inl now) = rw now (
        keyed-AreProven public_key before u s keeps (History-AreProven u _ run before m)
          (History-AreProven u _ run u (inl refl)) h)
    History-AreProven s past (keyed before public_key run m keeps h) t (inr earlier) =
        History-AreProven _ _ run t earlier
    History-AreProven s past (refreshed {s = u} before sign time run m signs h) t (inl now) =
        let old = History-AreProven u _ run before m in
        rw now (
          update-AreProven sign time before.rpc_agents u s signs
            (History-AreProven u _ run u (inl refl)) (rw old.named at h))
    History-AreProven s past (refreshed before sign time run m signs h) t (inr earlier) =
        History-AreProven _ _ run t earlier
    History-AreProven s past (agents_set {s = u} before sign time controller agents run m signs h) t
          (inl now) =
        rw now (
          set-AreProven sign time controller agents before u s _ signs
            (History-AreProven u _ run before m) (History-AreProven u _ run u (inl refl)) h)
    History-AreProven s past (agents_set before sign time controller agents run m signs h) t
          (inr earlier) =
        History-AreProven _ _ run t earlier
