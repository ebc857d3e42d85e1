-- ===== src/Canister/Api.antt =====
-- idempotent-proxy-canister/src/api.rs: `proxy_http_request`, and the queries of the costs.
--
-- `answer` is `Agent::call` for one agent and the request, and `await` what other messages make of
-- the state while that call is awaited. `arg_size` is the size of the message's argument, `now_ms`
-- the time of its end. A trap undoes the changes since the last `await`.
pub mod Sequence
pub mod Parallel
pub mod Outcomes
pub mod Combinators
pub mod Uncharged
pub mod Info
use idempotent_proxy.Prelude.{
  ℕ, ◌+◌, ◌-◌, ◌%◌, String, Bool, true, false, not, Option, none, some, List, [], ◌∷◌, length,
  is_empty, if◌then◌else◌, Result, ok, err, u32_mod,
}
use idempotent_proxy.Canister.Types.{Principal, HttpRequest, HttpResponse, Agent, State}
use idempotent_proxy.Canister.Cycles.{
  Calculator, count_request_bytes, count_response_bytes, ingress_cost, http_outcall_request_cost,
  http_outcall_response_cost, u128_add,
}
use idempotent_proxy.Canister.Store.{
  Message, receive_cycles, update_caller_state, is_allowed, get_agents, cycles_calculator,
}

-- How a message ends.
pub data Ending : Type 0 where
  replied : Message → HttpResponse → Ending
  -- A trap for too few cycles, with the state that remains.
  trapped : State → Ending
  -- The panic of `unwrap` on no response.
  panicked : Ending

abbrev pub default_response_bytes : ℕ
default_response_bytes = 10240

-- `req.max_response_bytes.unwrap_or(10240) as usize`
abbrev pub response_bound : HttpRequest → ℕ
response_bound req = elim req.max_response_bytes [
  | none ↦ default_response_bytes
  | some n ↦ n % u32_mod
]

-- The sum that `proxy_http_request_cost` and `parallel_call_cost` share.
cost_of : Calculator → HttpRequest → ℕ → ℕ → ℕ
cost_of calc req arg_size duplicates =
    u128_add
      (u128_add (ingress_cost calc arg_size)
        (http_outcall_request_cost calc (count_request_bytes calc req) duplicates))
      (http_outcall_response_cost calc (response_bound req) duplicates)

unfoldable pub proxy_http_request_cost : State → HttpRequest → ℕ → ℕ
unfolding cost_of
proxy_http_request_cost s req arg_size = cost_of (cycles_calculator s) req arg_size 1

unfoldable pub parallel_call_cost : State → HttpRequest → ℕ → ℕ
unfolding cost_of
parallel_call_cost s req arg_size =
    cost_of (cycles_calculator s) req arg_size (length (get_agents s))

unfoldable pub caller_info : Principal → State → Option (ℕ × ℕ)
unfolding idempotent_proxy.Prelude.lookup
caller_info id s = idempotent_proxy.Prelude.lookup id s.callers

module _ (now_ms : ℕ) (caller : Principal) where
  -- `update_caller_state` with what the message has cost.
  unfoldable pub charge_caller : ℕ → Message → Message
  charge_caller balance m = record m {
    state = update_caller_state caller (balance - m.available) now_ms m.state;
  }

module _ (accept : ℕ → ℕ → ℕ) (answer : Agent → Result HttpResponse HttpResponse)
    (await : Agent → State → State) (arg_size now_ms : ℕ) (caller : Principal) where
  -- The loop over the agents, and what follows it. `committed` is the state at the last `await`.
  unfoldable pub ask_agents :
      Calculator → ℕ → ℕ → List Agent → Option HttpResponse → State → Message → Ending
  ask_agents calc req_size balance [] none committed m = panicked
  ask_agents calc req_size balance [] (some res) committed m =
      replied (charge_caller now_ms caller balance m) res
  ask_agents calc req_size balance (a ∷ agents) last_err committed m =
      elim (receive_cycles accept (http_outcall_request_cost calc req_size 1) false m) [
        | none ↦ trapped committed
        | some paid ↦
            let back : Message = record paid { state = await a paid.state } in
            elim (answer a) [
              | ok res ↦
                  elim (receive_cycles accept
                    (http_outcall_response_cost calc (count_response_bytes calc res) 1) true back) [
                      | none ↦ trapped back.state
                      | some m' ↦ replied (charge_caller now_ms caller balance m') res
                    ]
              | err res ↦ ask_agents calc req_size balance agents (some res) back.state back
            ]
      ]

  unfoldable pub proxy_http_request : (String → List ℕ) → HttpRequest → Message → Ending
  proxy_http_request utf8 req m =
      if not (is_allowed caller m.state)
      then replied m (record { status = 403; body = utf8 "caller is not allowed"; headers = [] })
      else if is_empty (get_agents m.state)
      then replied m (record { status = 503; body = utf8 "no agents available"; headers = [] })
      else (let calc : Calculator = cycles_calculator m.state in
          elim (receive_cycles accept (ingress_cost calc arg_size) false m) [
            | none ↦ trapped m.state
            | some paid ↦
                ask_agents calc (count_request_bytes calc req) m.available (get_agents m.state) none
                  m.state paid
          ])
