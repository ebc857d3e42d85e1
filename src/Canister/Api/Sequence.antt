-- ===== src/Canister/Api/Sequence.antt =====
-- The order in which `proxy_http_request` asks the agents, and its end.
use idempotent_proxy.Prelude.{
  ℕ, ◌≡◌, refl, ◌≢◌, ◌<◌, ◌⊎◌, inl, inr, String, true, false, Option, none, some, List, [], ◌∷◌,
  Result, ok, err, arith, Option-cases, Result-cases, is_empty,
}
use idempotent_proxy.Canister.Types.{Principal, HttpRequest, HttpResponse, Agent, State}
use idempotent_proxy.Canister.Cycles.{
  Calculator, http_outcall_request_cost, http_outcall_response_cost, count_response_bytes,
  ingress_cost, count_request_bytes,
}
use idempotent_proxy.Canister.Store.{
  Message, receive_cycles, get_agents, is_allowed, cycles_calculator,
}
use idempotent_proxy.Canister.Api.{
  Ending, replied, trapped, panicked, ask_agents, proxy_http_request,
}

-- The response to a list of agents that are asked in turn, after some response.
pub data Answers (answer : Agent → Result HttpResponse HttpResponse)
    : List Agent → Option HttpResponse → HttpResponse → Type 0 where
  -- The first good answer is the response; the agents after it are not asked.
  good :
      {a : Agent} {agents : List Agent} {last : Option HttpResponse} {res : HttpResponse}
      → answer a ≡ ok res
      → Answers answer (a ∷ agents) last res
  bad :
      {a : Agent} {agents : List Agent} {last : Option HttpResponse} {res res' : HttpResponse}
      → answer a ≡ err res'
      → Answers answer agents (some res') res
      → Answers answer (a ∷ agents) last res
  -- With nobody left, it is the last bad answer.
  exhausted :
      {last : Option HttpResponse} {res : HttpResponse}
      → last ≡ some res
      → Answers answer [] last res

-- A charge that may ignore a shortfall does not trap.
pub receive_cycles-ignoring :
    (accept : ℕ → ℕ → ℕ) (cycles : ℕ) (m : Message) → receive_cycles accept cycles true m ≢ none
unfolding receive_cycles
receive_cycles-ignoring accept cycles m h = ground arith

-- A charge that may not ignore a shortfall fails exactly if the system accepts less.
receive_cycles-short :
    (accept : ℕ → ℕ → ℕ) (cycles : ℕ) (m : Message)
    → receive_cycles accept cycles false m ≡ none
    → accept m.available cycles < cycles
unfolding receive_cycles
receive_cycles-short accept cycles m h = ground arith

receive_cycles-paid :
    (accept : ℕ → ℕ → ℕ) (cycles : ℕ) (m m' : Message)
    → receive_cycles accept cycles false m ≡ some m'
    → accept m.available cycles < cycles
    → ⊥
unfolding receive_cycles
receive_cycles-paid accept cycles m m' h short = ground arith

module _ (accept : ℕ → ℕ → ℕ) (answer : Agent → Result HttpResponse HttpResponse)
    (await : Agent → State → State) where
  -- The message after an agent is asked.
  abbrev pub asked : Agent → Message → Message
  asked a paid = record paid { state = await a paid.state }

  -- Agents are asked in turn for `cost` each, and the cycles for one of them are not there: those
  -- before it have answered badly. The last state is the one that the trap leaves, of the last
  -- `await`.
  abbrev pub RunsShort : ℕ → List Agent → State → Message → State → Type 0
  RunsShort cost [] committed m s = ⊥
  RunsShort cost (a ∷ agents) committed m s =
      ((accept m.available cost < cost) × (s ≡ committed))
      ⊎ ((paid : Message) × (res : HttpResponse) × (receive_cycles accept cost false m ≡ some paid)
          × (answer a ≡ err res)
          × RunsShort cost agents (asked a paid).state (asked a paid) s)

  -- The ending is a reply that the agents' answers give, where no cycles are short, or a trap at
  -- the charge for which they are.
  abbrev pub EndsWell : ℕ → List Agent → Option HttpResponse → State → Message → Ending → Type 0
  EndsWell cost agents last committed m (replied m' res) =
      Answers answer agents last res × ((s : State) → ¬ RunsShort cost agents committed m s)
  EndsWell cost agents last committed m (trapped s) = RunsShort cost agents committed m s
  EndsWell cost agents last committed m panicked = ⊥

  -- Where the first agent is paid for and answers badly, the ending is that for the others.
  EndsWell-bad :
      (cost : ℕ) (a : Agent) (agents : List Agent) (last : Option HttpResponse) (committed : State)
      (m paid : Message) (res : HttpResponse) (e : Ending)
      → receive_cycles accept cost false m ≡ some paid
      → answer a ≡ err res
      → EndsWell cost agents (some res) (asked a paid).state (asked a paid) e
      → EndsWell cost (a ∷ agents) last committed m e
  EndsWell-bad cost a agents last committed m paid res (replied m' r) charged failed
        (h, none_short) =
      (
        bad failed h,
        λ s short. elim short [
          | inl (lacks, same) ↦ receive_cycles-paid accept cost m paid charged lacks
          | inr (paid', res', charged', failed', rest) ↦
              let same : paid' ≡ paid = ground (arith, charged, charged') in
              none_short s (rw same at rest)
        ],
      )
  EndsWell-bad cost a agents last committed m paid res (trapped s) charged failed h =
      inr (paid, res, charged, failed, h)
  EndsWell-bad cost a agents last committed m paid res panicked charged failed h = h

  -- Where the first agent is paid for and answers well, there is nothing more to pay.
  answered_not_short :
      (cost : ℕ) (a : Agent) (agents : List Agent) (committed : State) (m paid : Message)
      (res : HttpResponse)
      → receive_cycles accept cost false m ≡ some paid
      → answer a ≡ ok res
      → (s : State) → ¬ RunsShort cost (a ∷ agents) committed m s
  answered_not_short cost a agents committed m paid res charged answered s short = elim short [
    | inl (lacks, same) ↦ receive_cycles-paid accept cost m paid charged lacks
    | inr (paid', res', charged', failed, rest) ↦ absurd (ground (arith, answered, failed))
  ]

  module _ (arg_size now_ms : ℕ) (caller : Principal) where
    ask_agents-EndsWell :
        (calc : Calculator) (req_size balance : ℕ) (agents : List Agent)
        (last : Option HttpResponse) (committed : State) (m : Message)
        → (is_empty agents ≡ false) ⊎ (last ≢ none)
        → EndsWell (http_outcall_request_cost calc req_size 1) agents last committed m (
            ask_agents accept answer await arg_size now_ms caller calc req_size balance agents last
              committed m)
    unfolding ask_agents
    ask_agents-EndsWell calc size balance [] none committed m (inl h) = cc
    ask_agents-EndsWell calc size balance [] none committed m (inr h) = absurd (h refl)
    ask_agents-EndsWell calc size balance [] (some res) committed m h =
        (exhausted refl, λ s short. short)
    ask_agents-EndsWell calc size balance (a ∷ agents) last committed m h =
        let cost = http_outcall_request_cost calc size 1 in
        elim (Option-cases (receive_cycles accept cost false m)) [
          | inl unpaid ↦
              rw (unpaid, ask_agents) (inl (receive_cycles-short accept cost m unpaid, refl))
          | inr (paid, charged) ↦
              let back = asked a paid in
              elim (Result-cases (answer a)) [
                | inr (res, failed) ↦
                    rw (charged, ask_agents)
                      (rw failed (
                        EndsWell-bad cost a agents last committed m paid res _ charged failed (
                          ask_agents-EndsWell calc size balance agents (some res) back.state back
                            (inr (λ e. cc)))))
                | inl (res, answered) ↦
                    elim (Option-cases (
                      receive_cycles accept
                        (http_outcall_response_cost calc (count_response_bytes calc res) 1) true
                        back)) [
                          | inl unpaid ↦ absurd (receive_cycles-ignoring accept _ back unpaid)
                          | inr (m', collected) ↦
                              rw (charged, ask_agents)
                                (rw answered (
                                  rw collected (
                                    good answered,
                                    answered_not_short cost a agents committed m paid res charged
                                        answered,
                                  )))
                        ]
              ]
        ]

    -- The cycles are short for the message itself, or for one of the agents.
    abbrev pub IsShort : HttpRequest → Message → State → Type 0
    IsShort req m s =
        let calc = cycles_calculator m.state in
        let ingress = ingress_cost calc arg_size in
        ((accept m.available ingress < ingress) × (s ≡ m.state))
        ⊎ ((paid : Message) × (receive_cycles accept ingress false m ≡ some paid)
            × RunsShort (http_outcall_request_cost calc (count_request_bytes calc req) 1)
                (get_agents m.state) m.state paid s)

    -- A reply by the agents' answers where no cycles are short, or a trap where they are.
    abbrev pub RepliesOrTraps : HttpRequest → Message → Ending → Type 0
    RepliesOrTraps req m (replied m' res) =
        Answers answer (get_agents m.state) none res × ((s : State) → ¬ IsShort req m s)
    RepliesOrTraps req m (trapped s) = IsShort req m s
    RepliesOrTraps req m panicked = ⊥

    paid-RepliesOrTraps :
        (req : HttpRequest) (m paid : Message) (e : Ending)
        → receive_cycles accept (ingress_cost (cycles_calculator m.state) arg_size) false m
          ≡ some paid
        → EndsWell
            (http_outcall_request_cost
              (cycles_calculator m.state)
              (count_request_bytes (cycles_calculator m.state) req)
              1)
            (get_agents m.state)
            none
            m.state
            paid
            e
        → RepliesOrTraps req m e
    paid-RepliesOrTraps req m paid (replied m' res) charged (h, none_short) = (
      h,
      λ s short. elim short [
        | inl (lacks, same) ↦ receive_cycles-paid accept _ m paid charged lacks
        | inr (paid', charged', rest) ↦
            let same : paid' ≡ paid = ground (arith, charged, charged') in
            none_short s (rw same at rest)
      ],
    )
    paid-RepliesOrTraps req m paid (trapped s) charged h = inr (paid, charged, h)
    paid-RepliesOrTraps req m paid panicked charged h = h

    -- The answer of `proxy_http_request` to an allowed caller, where there are agents. It is a
    -- trap exactly if the system accepts fewer cycles than the message costs, or than an agent
    -- costs to be asked when all those before it have been paid for and have answered badly; the
    -- trap leaves the state of the last `await`. Else it is a reply, with the first good answer of
    -- the agents in their order, or, if there is none, with the last agent's bad answer. The
    -- `unwrap` at its end never panics.
    pub proxy_http_request-RepliesOrTraps :
        (utf8 : String → List ℕ) (req : HttpRequest) (m : Message)
        → is_allowed caller m.state ≡ true
        → is_empty (get_agents m.state) ≡ false
        → RepliesOrTraps req m
            (proxy_http_request accept answer await arg_size now_ms caller utf8 req m)
    unfolding proxy_http_request
    proxy_http_request-RepliesOrTraps utf8 req m allowed listed =
        let ingress = ingress_cost (cycles_calculator m.state) arg_size in
        rw (allowed, proxy_http_request)
          (rw listed (elim (Option-cases (receive_cycles accept ingress false m)) [
            | inl unpaid ↦ rw unpaid (inl (receive_cycles-short accept ingress m unpaid, refl))
            | inr (paid, charged) ↦ rw charged (
                paid-RepliesOrTraps req m paid _ charged (
                  ask_agents-EndsWell (cycles_calculator m.state) _ m.available (get_agents m.state)
                    none m.state paid (inl listed)))
          ]))
