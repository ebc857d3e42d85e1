-- ===== src/Canister/Tests.antt =====
-- Small runs of the canister, and the theorems at concrete inputs.
use Prim.Native.Nat.{min}
use idempotent_proxy.Canister.Api.Parallel.{Answer, ask_all, request_charge, parallel_call_all_ok}
use idempotent_proxy.Canister.Api.Outcomes.{IsAgreement, Replies, parallel_call_all_ok-IsAgreement}
use idempotent_proxy.Prelude.{map_ok, ap, inl, inr, All, Member, Result-cases}
use idempotent_proxy.Prelude.{
  ℕ, ◌+◌, ◌-◌, ◌*◌, ◌≤◌, ◌<◌, ◌≡◌, refl, ◌++◌, String, Bool, true, false, not, ◌||◌, ◌&&◌, Option,
  none, some, List, [], ◌∷◌, any, is_empty, lookup, insert, remove, str_eq, if◌then◌else◌, Result,
  ok, err, arith, inl, inr, ◌==◌,
}
use idempotent_proxy.Canister.Types.{HttpRequest, HttpResponse, Agent, State}
use idempotent_proxy.Canister.Cycles.{
  Calculator, http_outcall_request_cost, http_outcall_response_cost,
}
use idempotent_proxy.Canister.Cycles.Exact.{http_outcall_request_cost_exact}
use idempotent_proxy.Canister.Store.{
  Message, receive_cycles, is_manager, or_insert_all, load, saturating_add,
}
use idempotent_proxy.Canister.Store.Accounting.{Accepts, counted, receive_cycles_conserves}
use idempotent_proxy.Canister.Agent.{Uri, has_header, build_request, call}
use idempotent_proxy.Canister.Tasks.{refresh_proxy_token}
use idempotent_proxy.Canister.Tasks.Tokens.{untokened, HoldTokens, refresh_proxy_token-HoldTokens}
use idempotent_proxy.Canister.Api.Info.{state_info, state_info-refresh_proxy_token}
use idempotent_proxy.Canister.Init.{
  InitArgs, UpgradeArgs, ChainArgs, init_args, upgrade_args, init, post_upgrade,
}
use idempotent_proxy.Canister.Api.{proxy_http_request}
use idempotent_proxy.Canister.Api.Sequence.{RepliesOrTraps, proxy_http_request-RepliesOrTraps}
use idempotent_proxy.Canister.Api.Combinators.{try_join_all, try_join_all-JoinLaws}

abbrev calculator : Calculator
calculator = record { subnet_size = 13; service_fee = 10_000_000 }

abbrev proxy_1 : Agent
proxy_1 = record {
  name = "LDCLabs";
  endpoint = "https://proxy.example";
  max_cycles = 100;
  proxy_token = some "t0ken";
}

abbrev proxy_2 : Agent
proxy_2 = record {
  name = "ANON";
  endpoint = "https://second.example";
  max_cycles = 100;
  proxy_token = none;
}

abbrev state : State
state = record {
  ecdsa_key_name = "key_1";
  proxy_token_public_key = "";
  proxy_token_refresh_interval = 3600;
  agents = proxy_1 ∷ proxy_2 ∷ [];
  managers = "manager" ∷ [];
  allowed_callers = "old" ∷ "alice" ∷ [];
  callers = ("alice", (5, 6)) ∷ [];
  subnet_size = 13;
  service_fee = 10_000_000;
  incoming_cycles = 40;
  uncollectible_cycles = 2;
  cose = none;
}

abbrev message : ℕ → Message
message cycles = record { state = state; available = cycles }

min-Accepts : Accepts min
min-Accepts available wanted = (omega arith, omega arith)

http_outcall_request_cost_exact_example : http_outcall_request_cost calculator 500 2 ≡ (
    if calculator.subnet_size == 0
    then 0
    else calculator.service_fee
      + (4_000_000 + 60_000 * calculator.subnet_size + 400 * (150 + 500))
        * (calculator.subnet_size * 2))
http_outcall_request_cost_exact_example =
    http_outcall_request_cost_exact calculator 500 2 (omega arith, omega arith) (omega arith)
      (omega arith)

-- Seven cycles are there, and ten are wanted.
abbrev short_charge : Message
short_charge = record {
  state = record state { incoming_cycles = 47; uncollectible_cycles = 5 };
  available = 0;
}

short_charged : receive_cycles min 10 true (message 7) ≡ some short_charge
unfolding receive_cycles
short_charged = refl

short_trapped : receive_cycles min 10 false (message 7) ≡ none
unfolding receive_cycles
short_trapped = refl

receive_cycles_conserves_example :
    (counted short_charge ≡ counted (message 7) + 10)
    × (short_charge.state.incoming_cycles + short_charge.available
        ≡ (message 7).state.incoming_cycles + (message 7).available)
receive_cycles_conserves_example =
    receive_cycles_conserves min 10 true (message 7) short_charge min-Accepts (omega arith)
      short_charged

abbrev request : HttpRequest
request = record {
  url = "https://api.example/v1";
  max_response_bytes = none;
  headers = record { name = "idempotency-key"; value = "k1" } ∷ [];
  body = none;
  transform = none;
}

abbrev parse_uri : String → Result Uri String
parse_uri url = ok (record { host = some "api.example"; path_and_query = some "/v1" })

abbrev sent : HttpRequest
sent = record {
  url = "https://proxy.example/v1";
  max_response_bytes = none;
  headers =
      record { name = "idempotency-key"; value = "k1" }
      ∷ record { name = "x-forwarded-host"; value = "api.example" }
      ∷ record { name = "response-headers"; value = "date" }
      ∷ record { name = "proxy-authorization"; value = "Bearer t0ken" }
      ∷ [];
  body = none;
  transform = some "inner_transform_response";
}

program : Unit {0}
unfolding build_request idempotent_proxy.Canister.Agent.route
    idempotent_proxy.Canister.Agent.default_response_headers
    idempotent_proxy.Canister.Agent.add_token idempotent_proxy.Prelude.starts_with
program = tt

request_is_sent : build_request parse_uri proxy_1 request ≡ ok sent
unfolding program
request_is_sent = refl

abbrev utf8 : String → List ℕ
utf8 s = []

abbrev sign : ℕ → String → Result String String
sign expire_at name = ok "signed"

-- Both agents get a token, and the empty list that was set meanwhile is overwritten.
abbrev refreshed : State
refreshed = record state {
  agents =
      record proxy_1 { proxy_token = some "signed" }
      ∷ record proxy_2 { proxy_token = some "signed" }
      ∷ [];
}

both_signed :
    refresh_proxy_token sign (λ n. 7) 3600 state (record state { agents = [] }) ≡ some refreshed
unfolding refresh_proxy_token idempotent_proxy.Canister.Tasks.update_proxy_token
    idempotent_proxy.Canister.Tasks.sign_agents lookup insert
both_signed = refl

refresh_proxy_token-HoldTokens_example :
    (tokens : List (String × String)) × HoldTokens tokens refreshed.agents
    × (untokened refreshed.agents ≡ untokened state.agents)
    × (refreshed ≡ record (record state { agents = [] }) { agents = refreshed.agents })
refresh_proxy_token-HoldTokens_example =
    refresh_proxy_token-HoldTokens sign (λ n. 7) 3600 state (record state { agents = [] }) refreshed
      both_signed refl

abbrev install : InitArgs
install = record {
  ecdsa_key_name = "key_1";
  proxy_token_refresh_interval = 3;
  subnet_size = 13;
  service_fee = 0;
  cose = none;
}

abbrev installed : State
installed = record state { proxy_token_refresh_interval = 3600; service_fee = 100_000_000 }

init_runs : init (some (init_args install)) state ≡ some installed
unfolding init
init_runs = refl

abbrev faster : UpgradeArgs
faster = record {
  proxy_token_refresh_interval = some 60;
  subnet_size = none;
  service_fee = none;
  cose = none;
}

abbrev upgraded : State
upgraded = record (load state) { proxy_token_refresh_interval = 60 }

upgrade_runs : post_upgrade (some (upgrade_args faster)) state ≡ some upgraded
unfolding post_upgrade idempotent_proxy.Canister.Init.upgrade load
upgrade_runs = refl

-- The first agent fails, and the second answers.
abbrev answer : Agent → Result HttpResponse HttpResponse
answer a =
    if str_eq a.name "ANON"
    then ok (record { status = 200; headers = []; body = 7 ∷ [] })
    else err (record { status = 503; headers = []; body = [] })

proxy_http_request-RepliesOrTraps_example :
    RepliesOrTraps min answer
      (λ a s. s)
      500
      9
      "alice"
      request
      (message 100_000_000_000)
      (proxy_http_request min answer
        (λ a s. s)
        500
        9
        "alice"
        utf8
        request
        (message 100_000_000_000))
unfolding lookup idempotent_proxy.Canister.Store.is_allowed
    idempotent_proxy.Canister.Store.get_agents
proxy_http_request-RepliesOrTraps_example =
    proxy_http_request-RepliesOrTraps min answer (λ a s. s) 500 9 "alice" utf8 request
      (message 100_000_000_000) refl refl

abbrev good_answer : Agent → Answer
good_answer a = ok (record { status = 200; headers = []; body = 7 ∷ [] })

-- The message after the charge for the requests.
abbrev paid : Message
paid =
    let charge : ℕ = request_charge 500 request state in
    record {
      state = record state { incoming_cycles = saturating_add 40 charge };
      available = 100_000_000_000 - charge;
    }

charge_is_paid :
    receive_cycles min (request_charge 500 request state) false (message 100_000_000_000)
    ≡ some paid
unfolding program receive_cycles idempotent_proxy.Canister.Cycles.ingress_cost
    idempotent_proxy.Canister.Cycles.http_outcall_request_cost
    idempotent_proxy.Canister.Cycles.count_request_bytes
    idempotent_proxy.Canister.Cycles.add_headers idempotent_proxy.Canister.Store.cycles_calculator
    idempotent_proxy.Canister.Store.get_agents
charge_is_paid = refl

parallel_call_all_ok-IsAgreement_example :
    Replies (IsAgreement (λ r r'. true) (ask_all good_answer (proxy_1 ∷ proxy_2 ∷ []))) (
      parallel_call_all_ok min good_answer
        (λ s. s)
        500
        9
        "alice"
        utf8
        try_join_all
        (λ r r'. true)
        (λ l. ok [])
        request
        (message 100_000_000_000))
unfolding lookup idempotent_proxy.Canister.Store.is_allowed
    idempotent_proxy.Canister.Store.get_agents
parallel_call_all_ok-IsAgreement_example =
    parallel_call_all_ok-IsAgreement min good_answer (λ s. s) 500 9 "alice" utf8 request
      (message 100_000_000_000) paid refl refl charge_is_paid try_join_all (λ r r'. true)
      (λ l. ok []) try_join_all-JoinLaws (λ l e h. ground arith)

state_info-refresh_proxy_token_example :
    ((agents : List Agent)
      → untokened agents ≡ untokened state.agents
      → state_info (record state { agents = agents }) ≡ state_info state)
    × ((sign' : ℕ → String → Result String String) (time : ℕ → ℕ) (interval : ℕ) (s' : State)
        → refresh_proxy_token sign' time interval state state ≡ some s'
        → state_info s' ≡ state_info state)
state_info-refresh_proxy_token_example = state_info-refresh_proxy_token state
