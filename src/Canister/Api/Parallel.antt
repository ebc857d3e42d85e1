-- ===== src/Canister/Api/Parallel.antt =====
-- idempotent-proxy-canister/src/api.rs: `parallel_call_all_ok` and `parallel_call_any_ok`.
--
-- All agents are asked at once; `answer` is the answer of each, and `await` what other messages
-- make of the state meanwhile. `try_join_all` and `select_ok` are those of the `futures` crate, on
-- the answers; `same` is the equality of responses of `ic_cdk`, and `encode` the CBOR of a list.
use idempotent_proxy.Prelude.{
  ℕ, String, Bool, true, false, not, none, some, List, [], ◌∷◌, ◌++◌, length, is_empty, retain,
  if◌then◌else◌, Result, ok, err,
}
use idempotent_proxy.Canister.Types.{Principal, HttpRequest, HttpResponse, Agent, State}
use idempotent_proxy.Canister.Cycles.{
  Calculator, count_request_bytes, count_response_bytes, ingress_cost, http_outcall_request_cost,
  http_outcall_response_cost, u128_add,
}
use idempotent_proxy.Canister.Store.{
  Message, receive_cycles, is_allowed, get_agents, cycles_calculator,
}
use idempotent_proxy.Canister.Api.{Ending, replied, trapped, panicked, charge_caller}

abbrev pub Answer : Type 0
Answer = Result HttpResponse HttpResponse

-- The calls of the agents, before they are awaited.
abbrev pub ask_all : (Agent → Answer) → List Agent → List Answer
ask_all answer [] = []
ask_all answer (a ∷ agents) = answer a ∷ ask_all answer agents

-- The charge for the requests to all agents.
abbrev pub request_charge : ℕ → HttpRequest → State → ℕ
request_charge arg_size req s = u128_add (ingress_cost (cycles_calculator s) arg_size) (
    http_outcall_request_cost (cycles_calculator s) (count_request_bytes (cycles_calculator s) req)
      (length (get_agents s)))

module _ (accept : ℕ → ℕ → ℕ) (answer : Agent → Answer) (await : State → State)
    (arg_size now_ms : ℕ) (caller : Principal) (utf8 : String → List ℕ) where
  -- The part that both share: the guards and the charge, and then `finish`, with the message when
  -- the answers are there.
  unfoldable pub ask_parallel : HttpRequest → (Calculator → Message → Ending) → Message → Ending
  ask_parallel req finish m =
      if not (is_allowed caller m.state)
      then replied m (record { status = 403; body = utf8 "caller is not allowed"; headers = [] })
      else if is_empty (get_agents m.state)
      then replied m (record { status = 503; body = utf8 "no agents available"; headers = [] })
      else elim (receive_cycles accept (request_charge arg_size req m.state) false m) [
        | none ↦ trapped m.state
        | some paid ↦ finish (cycles_calculator m.state) (record paid { state = await paid.state })
      ]

  -- The charge for a response, and the reply.
  unfoldable pub charge_response :
      Calculator → ℕ → ℕ → HttpResponse → Ending → (Message → Ending) → Message → Ending
  charge_response calc balance copies res on_trap reply m =
      elim (receive_cycles accept
        (http_outcall_response_cost calc (count_response_bytes calc res) copies) true m) [
          | none ↦ on_trap
          | some m' ↦ reply (charge_caller now_ms caller balance m')
        ]

  -- The response that all agents agree on, or all the responses.
  unfoldable pub agree :
      (HttpResponse → HttpResponse → Bool)
      → (List HttpResponse → Result (List ℕ) String)
      → HttpResponse
      → List HttpResponse
      → Message
      → Ending
  agree same encode base rest m =
      let inconsistent : List HttpResponse = retain (λ r. not (same r base)) rest in
      if not (is_empty inconsistent)
      then elim (encode (inconsistent ++ (base ∷ []))) [
        | err e ↦ panicked
        | ok buf ↦ replied m (record { status = 500; body = buf; headers = [] })
      ]
      else replied m base

  abbrev pub no_agents : HttpResponse
  no_agents = record { status = 503; body = utf8 "no agents available"; headers = [] }

  -- `results.next()`, and the responses after it.
  abbrev pub first_or : List HttpResponse → HttpResponse × List HttpResponse
  first_or [] = (no_agents, [])
  first_or (r ∷ rest) = (r, rest)

  unfoldable pub parallel_call_all_ok :
      (List Answer → Result (List HttpResponse) HttpResponse)
      → (HttpResponse → HttpResponse → Bool)
      → (List HttpResponse → Result (List ℕ) String)
      → HttpRequest
      → Message
      → Ending
  parallel_call_all_ok try_join_all same encode req m =
      ask_parallel req
        (λ calc back. elim (try_join_all (ask_all answer (get_agents m.state))) [
          | err res ↦ replied (charge_caller now_ms caller m.available back) res
          | ok results ↦
              let (base, rest) = first_or results in
              charge_response calc m.available (length (get_agents m.state)) base
                (trapped back.state) (agree same encode base rest) back
        ])
        m

  unfoldable pub parallel_call_any_ok : (List Answer → Answer) → HttpRequest → Message → Ending
  parallel_call_any_ok select_ok req m =
      ask_parallel req
        (λ calc back. elim (select_ok (ask_all answer (get_agents m.state))) [
          | err res ↦ replied (charge_caller now_ms caller m.available back) res
          | ok res ↦
              charge_response calc m.available (length (get_agents m.state)) res
                (trapped back.state) (λ m'. replied m' res) back
        ])
        m
