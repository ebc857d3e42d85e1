-- ===== src/Canister/Api/Uncharged.antt =====
-- `proxy_http_request` where no cycles are charged: a subnet size of zero turns the charges off.
use idempotent_proxy.Prelude.{
  ℕ, ◌≡◌, refl, ◌≢◌, ◌⊎◌, inl, inr, String, Bool, true, false, Option, none, some, List, [], ◌∷◌,
  ◌==◌, Result, err, arith, Result-cases, is_empty,
}
use idempotent_proxy.Canister.Types.{Principal, HttpRequest, HttpResponse, Agent, State}
use idempotent_proxy.Canister.Cycles.{
  Calculator, ingress_cost, http_outcall_request_cost, http_outcall_response_cost,
  count_response_bytes,
}
use idempotent_proxy.Canister.Store.{
  Message, receive_cycles, get_agents, is_allowed, cycles_calculator,
}
use idempotent_proxy.Canister.Api.{
  Ending, replied, trapped, panicked, ask_agents, proxy_http_request,
}
use idempotent_proxy.Canister.Api.Sequence.{Answers, good, bad, exhausted}
use idempotent_proxy.Canister.Api.Outcomes.{Replies}

-- Without a subnet size nothing is charged.
uncharged :
    (accept : ℕ → ℕ → ℕ) (calc : Calculator) (n d : ℕ) (ignore : Bool) (m : Message)
    → (calc.subnet_size == 0) ≡ true
    → (receive_cycles accept (ingress_cost calc n) ignore m ≡ some m)
      × (receive_cycles accept (http_outcall_request_cost calc n d) ignore m ≡ some m)
      × (receive_cycles accept (http_outcall_response_cost calc n d) ignore m ≡ some m)
unfolding receive_cycles ingress_cost http_outcall_request_cost http_outcall_response_cost
uncharged accept calc n d ignore m off = (ground arith, ground arith, ground arith)

Replies-bad :
    (answer : Agent → Result HttpResponse HttpResponse) (a : Agent) (agents : List Agent)
    (last : Option HttpResponse) (res : HttpResponse) (e : Ending)
    → answer a ≡ err res
    → Replies (Answers answer agents (some res)) e
    → Replies (Answers answer (a ∷ agents) last) e
Replies-bad answer a agents last res (replied m r) failed h = bad failed h
Replies-bad answer a agents last res (trapped s) failed h = h
Replies-bad answer a agents last res panicked failed h = h

module _ (accept : ℕ → ℕ → ℕ) (answer : Agent → Result HttpResponse HttpResponse)
    (await : Agent → State → State) (arg_size now_ms : ℕ) (caller : Principal) where
  ask_agents-Replies :
      (calc : Calculator) (req_size balance : ℕ) (agents : List Agent) (last : Option HttpResponse)
      (committed : State) (m : Message)
      → (calc.subnet_size == 0) ≡ true
      → (is_empty agents ≡ false) ⊎ (last ≢ none)
      → Replies (Answers answer agents last) (
          ask_agents accept answer await arg_size now_ms caller calc req_size balance agents last
            committed m)
  unfolding ask_agents
  ask_agents-Replies calc size balance [] none committed m off (inl h) = cc
  ask_agents-Replies calc size balance [] none committed m off (inr h) = absurd (h refl)
  ask_agents-Replies calc size balance [] (some res) committed m off h = exhausted refl
  ask_agents-Replies calc size balance (a ∷ agents) last committed m off h =
      let back : Message = record m { state = await a m.state } in
      let (_, free, _) = uncharged accept calc size 1 false m off in
      elim (Result-cases (answer a)) [
        | inr (res, failed) ↦
            rw (free, ask_agents)
              (rw failed (
                Replies-bad answer a agents last res _ failed (
                  ask_agents-Replies calc size balance agents (some res) back.state back off
                    (inr (λ e. cc)))))
        | inl (res, answered) ↦
            let (_, _, free') =
              uncharged accept calc (count_response_bytes calc res) 1 true back off in
            rw (free, ask_agents) (rw answered (rw free' (good answered)))
      ]

  -- Where the subnet size is zero, `proxy_http_request` of an allowed caller, with at least one
  -- agent, always replies, whatever cycles the system accepts: it replies the first good answer of
  -- the agents in their order, or the last agent's bad answer if there is none.
  pub proxy_http_request-Replies :
      (utf8 : String → List ℕ) (req : HttpRequest) (m : Message)
      → is_allowed caller m.state ≡ true
      → is_empty (get_agents m.state) ≡ false
      → (m.state.subnet_size == 0) ≡ true
      → Replies
          (Answers answer (get_agents m.state) none)
          (proxy_http_request accept answer await arg_size now_ms caller utf8 req m)
  unfolding proxy_http_request cycles_calculator
  proxy_http_request-Replies utf8 req m allowed listed off =
      let (free, _, _) = uncharged accept (cycles_calculator m.state) arg_size 1 false m off in
      rw (allowed, proxy_http_request)
        (rw listed (
          rw free (
            ask_agents-Replies (cycles_calculator m.state) _ m.available (get_agents m.state) none
              m.state m off (inl listed))))
