-- ===== src/Canister/Users/Tests.antt =====
-- A refresh, a request and a refused call on a small canister, and the theorem at them.
use Prim.Native.Nat.{min}
use idempotent_proxy.Prelude.{
  ℕ, refl, String, Option, none, some, List, [], ◌∷◌, Result, ok, lookup, insert,
}
use idempotent_proxy.Canister.Types.{Principal, HttpRequest, HttpResponse, Agent, State}
use idempotent_proxy.Canister.Store
use idempotent_proxy.Canister.Cycles
use idempotent_proxy.Canister.Api
use idempotent_proxy.Canister.Tasks
use idempotent_proxy.Canister.Tasks.{refresh_proxy_token}
use idempotent_proxy.Canister.Upgrade.{default_state}
use idempotent_proxy.Canister.Api.{Ending, proxy_http_request}
use idempotent_proxy.Canister.Users.{IsUnprivileged}
use idempotent_proxy.Canister.Users.Runs.{
  UserRun, start, administer, proxied, refreshed, administered, add_caller, UserRun-IsUnprivileged,
}

abbrev eve : Agent
eve = record {
  name = "eve";
  endpoint = "https://proxy.example";
  max_cycles = 100;
  proxy_token = none;
}

abbrev state : State
state = record default_state {
  agents = eve ∷ [];
  managers = "manager" ∷ [];
  callers = ("bob", (0, 0)) ∷ [];
  subnet_size = 13;
}

abbrev validate : List Principal → Result (Unit {0}) String
validate args = ok tt

abbrev update : List Agent → State → Option State
update agents s = some s

abbrev sign : ℕ → String → Result String String
sign expire_at name = ok "signed"

abbrev tokened : State
tokened = record state { agents = record eve { proxy_token = some "signed" } ∷ [] }

abbrev request : HttpRequest
request = record {
  url = "URL_ETH";
  max_response_bytes = none;
  headers = record { name = "idempotency-key"; value = "abc" } ∷ [];
  body = none;
  transform = none;
}

abbrev answer : Agent → Result HttpResponse HttpResponse
answer a = ok (record { status = 200; headers = []; body = 1 ∷ 2 ∷ [] })

abbrev after_request : State
after_request = record tokened {
  callers = ("bob", (91_728_000, 9)) ∷ [];
  incoming_cycles = 91_728_000;
}

-- The refresh ends first; then "bob" asks, and does not get to add a caller.
run : UserRun state (administer validate update "bob" (add_caller "carol") after_request)
unfolding proxy_http_request refresh_proxy_token Store.is_manager Tasks.sign_agents lookup
    Store.is_allowed Store.get_agents Store.receive_cycles Store.cycles_calculator
    Store.update_caller_state Cycles.ingress_cost Cycles.http_outcall_request_cost
    Cycles.count_request_bytes Cycles.add_headers Cycles.http_outcall_response_cost
    Cycles.count_response_bytes Api.ask_agents Api.charge_caller insert
run =
    administered {t = after_request} validate update "bob" (add_caller "carol")
      (proxied {t = tokened} min answer (λ a t. t) 500 9 1_000_000_000_000 "bob" (λ s. []) request
        (refreshed {before = state} {now = state} sign (λ n. 0) start start refl) (λ a t. start)
        refl)
      refl

UserRun-IsUnprivileged_example :
    IsUnprivileged state (administer validate update "bob" (add_caller "carol") after_request)
UserRun-IsUnprivileged_example = UserRun-IsUnprivileged state _ run
