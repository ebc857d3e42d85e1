-- ===== src/Canister/Tasks/Tokens.antt =====
-- What the refreshed agents hold.
use idempotent_proxy.Prelude.{
  Member, str_eq, Bool-cases, ok, ℕ, ◌≡◌, refl, ap, String, false, none, some, List, [], ◌∷◌,
  length, lookup, insert, lookup-insert, Result, is_empty, arith, Option-cases, Result-cases, inl,
  inr, All, eq_iff,
}
use mathlib.Core.Option
use idempotent_proxy.Canister.Types.{Agent, State}
use idempotent_proxy.Canister.Tasks.{sign_agents, refresh_proxy_token, token_expiry}

-- The agents without their tokens.
abbrev pub untokened : List Agent → List Agent
untokened [] = []
untokened (a ∷ l) = record a { proxy_token = none } ∷ untokened l

-- Each agent has the token that the table holds for its name.
abbrev pub HoldTokens : List (String × String) → List Agent → Type 0
HoldTokens tokens = All (λ (a : Agent).
    (token : String) × (lookup a.name tokens ≡ some token) × (a.proxy_token ≡ some token))

-- A table that knows all that another knows.
abbrev Extends : List (String × String) → List (String × String) → Type 0
Extends tokens tokens' = (n t : String) → lookup n tokens ≡ some t → lookup n tokens' ≡ some t

-- What a run over some agents gives: agents that hold the tokens of a table which extends the
-- table so far, and are the old ones otherwise.
record Signed (tokens : List (String × String)) (agents l : List Agent) : Type 0 where
  table : List (String × String)
  extends : Extends tokens table
  hold : HoldTokens table l
  kept : untokened l ≡ untokened agents

Signed-cons :
    (tokens tokens' : List (String × String)) (a : Agent) (token : String) (agents r l : List Agent)
    → Extends tokens tokens'
    → lookup a.name tokens' ≡ some token
    → record a { proxy_token = some token } ∷ r ≡ l
    → Signed tokens' agents r
    → Signed tokens (a ∷ agents) l
Signed-cons tokens tokens' a token agents r l more known same s = rw (← same) (record {
  table = s.table;
  extends = λ n t h. s.extends n t (more n t h);
  hold = ((token, s.extends a.name token known, refl), s.hold);
  kept = ap (◌∷◌ (record a { proxy_token = none })) s.kept;
})

Extends-insert :
    (tokens : List (String × String)) (name token : String)
    → lookup name tokens ≡ none
    → Extends tokens (insert name token tokens)
Extends-insert tokens name token new n t h =
    ground (arith, eq_iff name n, lookup-insert name n token tokens)

module _ (sign : ℕ → String → Result String String) (time : ℕ → ℕ) (interval : ℕ) where
  sign_agents-Signed :
      (tokens : List (String × String)) (agents l : List Agent)
      → sign_agents sign time interval tokens agents ≡ some l
      → Signed tokens agents l
  unfolding sign_agents
  sign_agents-Signed tokens [] l h =
      let e : [] ≡ l = ground arith in
      rw (← e) (record { table = tokens; extends = λ n t k. k; hold = tt; kept = refl })
  sign_agents-Signed tokens (a ∷ agents) l h = elim (Option-cases (lookup a.name tokens)) [
    | inr (token, known) ↦
        let (r, rest, same) = (Option.map-eq-some_iff _ _).0 (rw (known, sign_agents) at h) in
        Signed-cons tokens tokens a token agents r l (λ n t k. k) known same
          (sign_agents-Signed tokens agents r rest)
    | inl new ↦ elim (Result-cases (sign (token_expiry (time (length agents)) interval) a.name)) [
      | inr (e, failed) ↦ absurd (ground arith)
      | inl (token, signed) ↦
          let (r, rest, same) =
            (Option.map-eq-some_iff _ _).0 (rw signed at (rw (new, sign_agents) at h)) in
          Signed-cons tokens (insert a.name token tokens) a token agents r l
            (Extends-insert tokens a.name token new)
            (ground (arith, lookup-insert a.name a.name token tokens, eq_iff a.name a.name)) same
            (sign_agents-Signed (insert a.name token tokens) agents r rest)
    ]
  ]

  -- The agent has a token that was signed for its name in this run.
  abbrev pub IsSigned : Agent → Type 0
  IsSigned a =
      (n : ℕ) × (token : String) × (a.proxy_token ≡ some token)
      × (sign (token_expiry (time n) interval) a.name ≡ ok token)

  -- So were the tokens of the table.
  abbrev AreSigned : List (String × String) → Type 0
  AreSigned tokens =
      (name token : String)
      → lookup name tokens ≡ some token
      → (n : ℕ) × (sign (token_expiry (time n) interval) name ≡ ok token)

  AreSigned-insert :
      (tokens : List (String × String)) (name token : String) (n : ℕ)
      → AreSigned tokens
      → sign (token_expiry (time n) interval) name ≡ ok token
      → AreSigned (insert name token tokens)
  AreSigned-insert tokens name token n signed new other t h =
      elim (Bool-cases (str_eq name other)) [
        | inl same ↦
            let e : name ≡ other = (eq_iff name other).0 same in
            let e' : token ≡ t = ground (arith, lookup-insert name other token tokens) in
            (n, rw (← e) (rw (← e') new))
        | inr ne ↦ signed other t (ground (arith, lookup-insert name other token tokens))
      ]

  sign_agents-IsSigned :
      (tokens : List (String × String)) (agents l : List Agent)
      → AreSigned tokens
      → sign_agents sign time interval tokens agents ≡ some l
      → (a : Agent) → Member a l
      → IsSigned a
  unfolding sign_agents
  sign_agents-IsSigned tokens [] l signed h a m =
      let e : [] ≡ l = ground arith in absurd (rw (← e) at m)
  sign_agents-IsSigned tokens (b ∷ agents) l signed h a m =
      elim (Option-cases (lookup b.name tokens)) [
        | inr (token, known) ↦
            let (r, rest, same) = (Option.map-eq-some_iff _ _).0 (rw (known, sign_agents) at h) in
            let (n, by_sign) = signed b.name token known in
            elim (rw (← same) at m) [
              | inl here ↦ rw here (n, token, refl, by_sign)
              | inr there ↦ sign_agents-IsSigned tokens agents r signed rest a there
            ]
        | inl new ↦
            elim (Result-cases (sign (token_expiry (time (length agents)) interval) b.name)) [
              | inr (e, failed) ↦ absurd (ground arith)
              | inl (token, by_sign) ↦
                  let (r, rest, same) =
                    (Option.map-eq-some_iff _ _).0 (rw by_sign at (rw (new, sign_agents) at h)) in
                  elim (rw (← same) at m) [
                    | inl here ↦ rw here (length agents, token, refl, by_sign)
                    | inr there ↦
                        sign_agents-IsSigned (insert b.name token tokens) agents r
                          (AreSigned-insert tokens b.name token (length agents) signed by_sign) rest
                          a there
                  ]
            ]
      ]

  -- After a refresh every agent has a token that was signed for its name.
  pub refresh_proxy_token-IsSigned :
      (before s s' : State)
      → refresh_proxy_token sign time interval before s ≡ some s'
      → is_empty before.agents ≡ false
      → (a : Agent) → Member a s'.agents
      → IsSigned a
  unfolding refresh_proxy_token lookup
  refresh_proxy_token-IsSigned before s s' h listed a m =
      let (l, signed, same) =
        (Option.map-eq-some_iff _ _).0 (rw (listed, refresh_proxy_token) at h) in
      sign_agents-IsSigned [] before.agents l (λ name token none_yet. cc) signed a
        (rw (← same) at m)

  -- A refresh that does not trap gives every agent a token, the same to all agents of one name:
  -- those of some table of tokens by name. Nothing else of the agents changes. The agents are
  -- those that the refresh read at its start, whatever `admin_set_agents` or another message has
  -- made of the list while the signatures were awaited: such a change is lost.
  pub refresh_proxy_token-HoldTokens :
      (before s s' : State)
      → refresh_proxy_token sign time interval before s ≡ some s'
      → is_empty before.agents ≡ false
      → (tokens : List (String × String)) × HoldTokens tokens s'.agents
        × (untokened s'.agents ≡ untokened before.agents)
        × (s' ≡ record s { agents = s'.agents })
  unfolding refresh_proxy_token
  refresh_proxy_token-HoldTokens before s s' h listed =
      let (l, signed, same) =
        (Option.map-eq-some_iff _ _).0 (rw (listed, refresh_proxy_token) at h) in
      let r = sign_agents-Signed [] before.agents l signed in
      rw (← same) (r.table, r.hold, r.kept, refl)
