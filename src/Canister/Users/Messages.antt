-- ===== src/Canister/Users/Messages.antt =====
-- The messages of users one by one. Other messages run while one waits: `await` is what they make
-- of the state, and is taken to be a change by users too.
use idempotent_proxy.Prelude.{
  ℕ, String, Bool, true, false, not, Option, none, some, List, [], ◌∷◌, ◌++◌, is_empty, retain,
  Result, Option-cases, Bool-cases, Result-cases, inl, inr,
}
use idempotent_proxy.Canister.Types.{Principal, HttpRequest, HttpResponse, Agent, State}
use idempotent_proxy.Canister.Cycles.{
  Calculator, count_response_bytes, ingress_cost, http_outcall_request_cost,
  http_outcall_response_cost,
}
use idempotent_proxy.Canister.Store.{
  Message, receive_cycles, is_allowed, get_agents, cycles_calculator,
}
use idempotent_proxy.Canister.Api.{
  Ending, replied, trapped, panicked, charge_caller, ask_agents, proxy_http_request,
}
use idempotent_proxy.Canister.Api.Parallel.{
  Answer, ask_all, request_charge, ask_parallel, charge_response, agree, parallel_call_all_ok,
  parallel_call_any_ok,
}
use idempotent_proxy.Canister.Users.{
  IsUnprivileged, IsUnprivileged-refl, IsUnprivileged-trans, receive_cycles-IsUnprivileged,
  update_caller_state-IsUnprivileged,
}

-- The message ends with a state that users may have made of `s`, or with a panic, which undoes the
-- changes since the last call that it awaited.
abbrev pub EndsUnprivileged : State → Ending → Type 0
EndsUnprivileged s (replied m res) = IsUnprivileged s m.state
EndsUnprivileged s (trapped t) = IsUnprivileged s t
EndsUnprivileged s panicked = Unit

charge_caller-IsUnprivileged :
    (now_ms : ℕ) (caller : Principal) (balance : ℕ) (m : Message)
    → IsUnprivileged m.state (charge_caller now_ms caller balance m).state
unfolding charge_caller
charge_caller-IsUnprivileged now_ms caller balance m =
    update_caller_state-IsUnprivileged caller _ now_ms m.state

module _ (accept : ℕ → ℕ → ℕ) (answer : Agent → Result HttpResponse HttpResponse)
    (await : Agent → State → State) (arg_size now_ms : ℕ) (caller : Principal)
    (others : (a : Agent) (t : State) → IsUnprivileged t (await a t)) where
  ask_agents-EndsUnprivileged :
      (calc : Calculator) (req_size balance : ℕ) (agents : List Agent) (last : Option HttpResponse)
      (start committed : State) (m : Message)
      → IsUnprivileged start committed
      → IsUnprivileged start m.state
      → EndsUnprivileged start (
          ask_agents accept answer await arg_size now_ms caller calc req_size balance agents last
            committed m)
  unfolding ask_agents
  ask_agents-EndsUnprivileged calc req_size balance [] none start committed m c f = tt
  ask_agents-EndsUnprivileged calc req_size balance [] (some res) start committed m c f =
      IsUnprivileged-trans _ _ _ f (charge_caller-IsUnprivileged now_ms caller balance m)
  ask_agents-EndsUnprivileged calc req_size balance (a ∷ agents) last start committed m c f =
      elim (Option-cases
        (receive_cycles accept (http_outcall_request_cost calc req_size 1) false m)) [
          | inl short ↦ rw (short, ask_agents) c
          | inr (paid, charged) ↦
              let g : IsUnprivileged start (await a paid.state) =
                IsUnprivileged-trans _ _ _
                  (IsUnprivileged-trans _ _ _ f
                    (receive_cycles-IsUnprivileged accept _ false m paid charged))
                  (others a paid.state) in
              let back : Message = record paid { state = await a paid.state } in
              elim (Result-cases (answer a)) [
                | inr (res, failed) ↦
                    rw (charged, ask_agents)
                      (rw failed (
                        ask_agents-EndsUnprivileged calc req_size balance agents (some res) start
                          back.state back g g))
                | inl (res, answered) ↦
                    elim (Option-cases (
                      receive_cycles accept
                        (http_outcall_response_cost calc (count_response_bytes calc res) 1) true
                        back)) [
                          | inl short ↦ rw (charged, ask_agents) (rw answered (rw short g))
                          | inr (m', taken) ↦
                              rw (charged, ask_agents)
                                (rw answered (
                                  rw taken (
                                    IsUnprivileged-trans _ _ _
                                      (IsUnprivileged-trans _ _ _ g
                                        (receive_cycles-IsUnprivileged accept _ true back m' taken))
                                      (charge_caller-IsUnprivileged now_ms caller balance m'))))
                        ]
              ]
        ]

  pub proxy_http_request-EndsUnprivileged :
      (utf8 : String → List ℕ) (req : HttpRequest) (m : Message)
      → EndsUnprivileged m.state
          (proxy_http_request accept answer await arg_size now_ms caller utf8 req m)
  unfolding proxy_http_request
  proxy_http_request-EndsUnprivileged utf8 req m =
      let same = IsUnprivileged-refl m.state in
      elim (Bool-cases (is_allowed caller m.state)) [
        | inr stranger ↦ rw (stranger, proxy_http_request) same
        | inl known ↦ elim (Bool-cases (is_empty (get_agents m.state))) [
          | inl none_set ↦ rw (known, proxy_http_request) (rw none_set same)
          | inr listed ↦
              elim (Option-cases (
                receive_cycles accept (ingress_cost (cycles_calculator m.state) arg_size) false
                  m)) [
                    | inl short ↦ rw (known, proxy_http_request) (rw listed (rw short same))
                    | inr (paid, charged) ↦
                        rw (known, proxy_http_request)
                          (rw listed (
                            rw charged (
                              ask_agents-EndsUnprivileged _ _ _ _ none m.state m.state paid same
                                (receive_cycles-IsUnprivileged accept _ false m paid charged))))
                  ]
        ]
      ]

module _ (accept : ℕ → ℕ → ℕ) (answer : Agent → Answer) (await : State → State)
    (arg_size now_ms : ℕ) (caller : Principal) (utf8 : String → List ℕ)
    (others : (t : State) → IsUnprivileged t (await t)) where
  ask_parallel-EndsUnprivileged :
      (req : HttpRequest) (finish : Calculator → Message → Ending) (m : Message)
      → ((calc : Calculator) (back : Message)
          → IsUnprivileged m.state back.state
          → EndsUnprivileged m.state (finish calc back))
      → EndsUnprivileged m.state
          (ask_parallel accept answer await arg_size now_ms caller utf8 req finish m)
  unfolding ask_parallel
  ask_parallel-EndsUnprivileged req finish m finishes =
      let same = IsUnprivileged-refl m.state in
      elim (Bool-cases (is_allowed caller m.state)) [
        | inr stranger ↦ rw (stranger, ask_parallel) same
        | inl known ↦ elim (Bool-cases (is_empty (get_agents m.state))) [
          | inl none_set ↦ rw (known, ask_parallel) (rw none_set same)
          | inr listed ↦
              elim (Option-cases
                (receive_cycles accept (request_charge arg_size req m.state) false m)) [
                  | inl short ↦ rw (known, ask_parallel) (rw listed (rw short same))
                  | inr (paid, charged) ↦
                      rw (known, ask_parallel)
                        (rw listed (
                          rw charged (
                            finishes _ _ (
                              IsUnprivileged-trans _ _ _
                                (receive_cycles-IsUnprivileged accept _ false m paid charged)
                                (others paid.state)))))
                ]
        ]
      ]

  charge_response-EndsUnprivileged :
      (start : State) (calc : Calculator) (balance copies : ℕ) (res : HttpResponse)
      (reply : Message → Ending) (back : Message)
      → ((m : Message) → IsUnprivileged start m.state → EndsUnprivileged start (reply m))
      → IsUnprivileged start back.state
      → EndsUnprivileged start (
          charge_response accept answer await arg_size now_ms caller utf8 calc balance copies res
            (trapped back.state)
            reply
            back)
  unfolding charge_response
  charge_response-EndsUnprivileged start calc balance copies res reply back replies f =
      elim (Option-cases (
        receive_cycles accept
          (http_outcall_response_cost calc (count_response_bytes calc res) copies) true back)) [
            | inl short ↦ rw (short, charge_response) f
            | inr (m', taken) ↦
                rw (taken, charge_response)
                  (replies _ (
                    IsUnprivileged-trans _ _ _
                      (IsUnprivileged-trans _ _ _ f
                        (receive_cycles-IsUnprivileged accept _ true back m' taken))
                      (charge_caller-IsUnprivileged now_ms caller balance m')))
          ]

  agree-EndsUnprivileged :
      (same : HttpResponse → HttpResponse → Bool)
      (encode : List HttpResponse → Result (List ℕ) String) (base : HttpResponse)
      (rest : List HttpResponse) (start : State) (m : Message)
      → IsUnprivileged start m.state
      → EndsUnprivileged start
          (agree accept answer await arg_size now_ms caller utf8 same encode base rest m)
  unfolding agree
  agree-EndsUnprivileged same encode base rest start m f =
      let differing : List HttpResponse = retain (λ r. not (same r base)) rest in
      elim (Bool-cases (is_empty differing)) [
        | inl alike ↦ rw (alike, agree) f
        | inr differ ↦ elim (Result-cases (encode (differing ++ (base ∷ [])))) [
          | inl (buf, encoded) ↦ rw (differ, agree) (rw encoded f)
          | inr (e, garbled) ↦ rw (differ, agree) (rw garbled tt)
        ]
      ]

  pub parallel_call_all_ok-EndsUnprivileged :
      (try_join_all : List Answer → Result (List HttpResponse) HttpResponse)
      (same : HttpResponse → HttpResponse → Bool)
      (encode : List HttpResponse → Result (List ℕ) String) (req : HttpRequest) (m : Message)
      → EndsUnprivileged m.state (
          parallel_call_all_ok accept answer await arg_size now_ms caller utf8 try_join_all same
            encode req m)
  unfolding parallel_call_all_ok
  parallel_call_all_ok-EndsUnprivileged try_join_all same encode req m =
      ask_parallel-EndsUnprivileged req _ m (λ calc back f.
        elim (Result-cases (try_join_all (ask_all answer (get_agents m.state)))) [
          | inr (res, failed) ↦ rw failed (
              IsUnprivileged-trans _ _ _ f
                (charge_caller-IsUnprivileged now_ms caller m.available back))
          | inl (results, joined) ↦ rw joined (
              charge_response-EndsUnprivileged m.state calc m.available _ _ _ back
                (λ m' g. agree-EndsUnprivileged same encode _ _ m.state m' g) f)
        ])

  pub parallel_call_any_ok-EndsUnprivileged :
      (select_ok : List Answer → Answer) (req : HttpRequest) (m : Message)
      → EndsUnprivileged m.state
          (parallel_call_any_ok accept answer await arg_size now_ms caller utf8 select_ok req m)
  unfolding parallel_call_any_ok
  parallel_call_any_ok-EndsUnprivileged select_ok req m =
      ask_parallel-EndsUnprivileged req _ m (λ calc back f.
        elim (Result-cases (select_ok (ask_all answer (get_agents m.state)))) [
          | inr (res, failed) ↦ rw failed (
              IsUnprivileged-trans _ _ _ f
                (charge_caller-IsUnprivileged now_ms caller m.available back))
          | inl (res, answered) ↦
              rw answered (
                charge_response-EndsUnprivileged m.state calc m.available _ res _ back (λ m' g. g)
                  f)
        ])
