-- ===== src/Canister/Users/Runs.antt =====
-- Any number of messages of users and of timers.
use idempotent_proxy.Prelude.{
  ℕ, ◌≡◌, refl, ap, ◌∙◌, String, Bool, false, Option, none, some, List, is_empty, Result, arith,
  Bool-cases, Result-cases, inl, inr,
}
use idempotent_proxy.Canister.Types.{Principal, HttpRequest, HttpResponse, Agent, State}
use idempotent_proxy.Canister.Store.{
  Message, receive_cycles, update_caller_state, is_allowed, is_manager,
}
use idempotent_proxy.Canister.Api.{Ending, replied, trapped, panicked, proxy_http_request}
use idempotent_proxy.Canister.Api.Parallel.{Answer, parallel_call_all_ok, parallel_call_any_ok}
use idempotent_proxy.Canister.Tasks.{refresh_proxy_token}
use idempotent_proxy.Canister.Tasks.Tokens.{untokened, refresh_proxy_token-HoldTokens}
use idempotent_proxy.Canister.Signer.{SystemCalls, signer, signer_public_key, init_ecdsa_public_key}
use idempotent_proxy.Canister.Admin.{
  is_controller, is_controller_or_manager, admin_add_managers, admin_remove_managers,
  admin_add_caller, admin_add_callers, admin_remove_callers, admin_set_agents,
}
use idempotent_proxy.Canister.Users.{
  receive_cycles-IsUnprivileged, update_caller_state-IsUnprivileged, IsUnprivileged, governed,
  IsUnprivileged-refl, IsUnprivileged-trans,
}
use idempotent_proxy.Canister.Users.Messages.{
  EndsUnprivileged, proxy_http_request-EndsUnprivileged, parallel_call_all_ok-EndsUnprivileged,
  parallel_call_any_ok-EndsUnprivileged,
}

-- The state that a message ends with, if it does not panic.
abbrev pub EndsAt : State → Ending → Type 0
EndsAt s' (replied m res) = m.state ≡ s'
EndsAt s' (trapped t) = t ≡ s'
EndsAt s' panicked = ⊥

-- The calls of canister administration.
pub data AdminCall : Type 0 where
  add_managers remove_managers add_callers remove_callers : List Principal → AdminCall
  add_caller : Principal → AdminCall
  set_agents : List Agent → AdminCall

module _ (validate : List Principal → Result (Unit {0}) String)
    (update : List Agent → State → Option State) (caller : Principal) where
  -- The state after a call of administration by a caller who is no controller; a trap leaves it.
  abbrev pub administer : AdminCall → State → State
  administer (add_managers args) s = (admin_add_managers validate false caller args s).0
  administer (remove_managers args) s = (admin_remove_managers validate false caller args s).0
  administer (add_callers args) s = (admin_add_callers validate false caller args s).0
  administer (remove_callers args) s = (admin_remove_callers validate false caller args s).0
  administer (add_caller id) s = (admin_add_caller validate false caller id s).0
  administer (set_agents agents) s = elim (admin_set_agents validate false caller update agents s) [
    | none ↦ s
    | some t ↦ t.0
  ]

  pub administer-refused :
      (call : AdminCall) (s : State) → is_manager caller s ≡ false → administer call s ≡ s
  unfolding admin_add_managers admin_remove_managers admin_add_callers admin_remove_callers
      admin_add_caller admin_set_agents is_controller is_controller_or_manager
  administer-refused (add_managers args) s h = refl
  administer-refused (remove_managers args) s h = refl
  administer-refused (add_callers args) s h = ground (arith, h)
  administer-refused (remove_callers args) s h = ground (arith, h)
  administer-refused (add_caller id) s h = ground (arith, h)
  administer-refused (set_agents agents) s h = ground (arith, h)

-- What users, who are neither controllers nor managers, and timers make of the state: whole
-- messages, whose waits others fill in the same way, and the parts of messages that overlap with
-- them, which are a charge and its count for the caller.
pub data UserRun : State → State → Type 0 where
  start : {s : State} → UserRun s s
  proxied :
      {s t s' : State} (accept : ℕ → ℕ → ℕ) (answer : Agent → Result HttpResponse HttpResponse)
      (await : Agent → State → State) (arg_size now_ms available : ℕ) (caller : Principal)
      (utf8 : String → List ℕ) (req : HttpRequest)
      → UserRun s t
      → ((a : Agent) (u : State) → UserRun u (await a u))
      → EndsAt s' (
          proxy_http_request accept answer await arg_size now_ms caller utf8 req
            (record { state = t; available = available }))
      → UserRun s s'
  all_ok :
      {s t s' : State} (accept : ℕ → ℕ → ℕ) (answer : Agent → Answer) (await : State → State)
      (arg_size now_ms available : ℕ) (caller : Principal) (utf8 : String → List ℕ)
      (try_join_all : List Answer → Result (List HttpResponse) HttpResponse)
      (same : HttpResponse → HttpResponse → Bool)
      (encode : List HttpResponse → Result (List ℕ) String) (req : HttpRequest)
      → UserRun s t
      → ((u : State) → UserRun u (await u))
      → EndsAt s' (
          parallel_call_all_ok accept answer await arg_size now_ms caller utf8 try_join_all same
            encode req
            (record { state = t; available = available }))
      → UserRun s s'
  any_ok :
      {s t s' : State} (accept : ℕ → ℕ → ℕ) (answer : Agent → Answer) (await : State → State)
      (arg_size now_ms available : ℕ) (caller : Principal) (utf8 : String → List ℕ)
      (select_ok : List Answer → Answer) (req : HttpRequest)
      → UserRun s t
      → ((u : State) → UserRun u (await u))
      → EndsAt s' (
          parallel_call_any_ok accept answer await arg_size now_ms caller utf8 select_ok req
            (record { state = t; available = available }))
      → UserRun s s'
  -- A part of a message: a charge, or the count of its cycles.
  charged :
      {s : State} (accept : ℕ → ℕ → ℕ) (cycles : ℕ) (ignore : Bool) (m m' : Message)
      → UserRun s m.state
      → receive_cycles accept cycles ignore m ≡ some m'
      → UserRun s m'.state
  counted :
      {s t : State} (caller : Principal) (cycles now_ms : ℕ)
      → UserRun s t
      → UserRun s (update_caller_state caller cycles now_ms t)
  -- A refresh that starts at `before` and ends at `now`, and the same for the key.
  refreshed :
      {s before now s' : State} (sign : ℕ → String → Result String String) (time : ℕ → ℕ)
      → UserRun s before
      → UserRun before now
      → refresh_proxy_token sign time before.proxy_token_refresh_interval before now ≡ some s'
      → UserRun s s'
  keyed :
      {s before now : State} (sys : SystemCalls) (base64_encode : List ℕ → String)
      → UserRun s before
      → UserRun before now
      → UserRun s (init_ecdsa_public_key sys base64_encode before now)
  administered :
      {s t : State} (validate : List Principal → Result (Unit {0}) String)
      (update : List Agent → State → Option State) (caller : Principal) (call : AdminCall)
      → UserRun s t
      → is_manager caller t ≡ false
      → UserRun s (administer validate update caller call t)

ends-IsUnprivileged :
    (s s' : State) (e : Ending) → EndsUnprivileged s e → EndsAt s' e → IsUnprivileged s s'
ends-IsUnprivileged s s' (replied m res) f h = rw (← h) f
ends-IsUnprivileged s s' (trapped t) f h = rw (← h) f
ends-IsUnprivileged s s' panicked f h = absurd h

-- New tokens for the agents that were there at the start.
retokened-IsUnprivileged :
    (s now s' : State)
    → IsUnprivileged s now
    → s' ≡ record now { agents = s'.agents }
    → untokened s'.agents ≡ untokened s.agents
    → IsUnprivileged s s'
unfolding is_allowed
retokened-IsUnprivileged s now s' f shape same = rw shape (record {
  governance =
      ap (λ l. record (governed now) { agents = l }) same
      ∙ ap (λ (g : State). record g { agents = untokened s.agents }) f.governance;
  callers = f.callers;
  incoming = f.incoming;
  uncollectible = f.uncollectible;
})

refreshed-IsUnprivileged :
    (sign : ℕ → String → Result String String) (time : ℕ → ℕ) (s now s' : State)
    → IsUnprivileged s now
    → refresh_proxy_token sign time s.proxy_token_refresh_interval s now ≡ some s'
    → IsUnprivileged s s'
unfolding refresh_proxy_token
refreshed-IsUnprivileged sign time s now s' f h = elim (Bool-cases (is_empty s.agents)) [
  | inl none_set ↦ let e : now ≡ s' = ground arith in rw (← e) f
  | inr listed ↦
      let (tokens, hold, same, shape) =
        refresh_proxy_token-HoldTokens sign time s.proxy_token_refresh_interval s now s' h listed in
      retokened-IsUnprivileged s now s' f shape same
]

keyed-IsUnprivileged :
    (sys : SystemCalls) (base64_encode : List ℕ → String) (s now : State)
    → IsUnprivileged s now
    → IsUnprivileged s (init_ecdsa_public_key sys base64_encode s now)
unfolding init_ecdsa_public_key is_allowed
keyed-IsUnprivileged sys base64_encode s now f =
    elim (Result-cases (signer_public_key sys base64_encode (signer s))) [
      | inr (e, failed) ↦ rw (failed, init_ecdsa_public_key) f
      | inl (key, given) ↦
          rw (given, init_ecdsa_public_key)
            (record {
              governance = f.governance;
              callers = f.callers;
              incoming = f.incoming;
              uncollectible = f.uncollectible;
            })
    ]

-- Whatever users and timers do, in any number of messages that reply or trap, and however those
-- messages and their parts overlap while they wait: the managers, the settings, the agents but for
-- their tokens, and the answer to who may call stay as they are, and the counters of the cycles,
-- where they fit a `u128`, never fall and still fit. A user is a caller who is neither a
-- controller nor a manager; such a caller's calls of canister administration are among the
-- messages.
pub UserRun-IsUnprivileged : (s s' : State) → UserRun s s' → IsUnprivileged s s'
UserRun-IsUnprivileged s _ start = IsUnprivileged-refl s
UserRun-IsUnprivileged s s'
      (proxied {t = t} accept answer await arg_size now_ms available caller utf8 req run others
        ends) =
    IsUnprivileged-trans s t s' (UserRun-IsUnprivileged s t run) (
      ends-IsUnprivileged t s' _
        (proxy_http_request-EndsUnprivileged accept answer await arg_size now_ms caller
          (λ a u. UserRun-IsUnprivileged u (await a u) (others a u)) utf8 req _)
        ends)
UserRun-IsUnprivileged s s'
      (all_ok {t = t} accept answer await arg_size now_ms available caller utf8 try_join_all same
        encode req run others ends) =
    IsUnprivileged-trans s t s' (UserRun-IsUnprivileged s t run) (
      ends-IsUnprivileged t s' _
        (parallel_call_all_ok-EndsUnprivileged accept answer await arg_size now_ms caller utf8
          (λ u. UserRun-IsUnprivileged u (await u) (others u)) try_join_all same encode req _)
        ends)
UserRun-IsUnprivileged s s'
      (any_ok {t = t} accept answer await arg_size now_ms available caller utf8 select_ok req run
        others ends) =
    IsUnprivileged-trans s t s' (UserRun-IsUnprivileged s t run) (
      ends-IsUnprivileged t s' _
        (parallel_call_any_ok-EndsUnprivileged accept answer await arg_size now_ms caller utf8
          (λ u. UserRun-IsUnprivileged u (await u) (others u)) select_ok req _)
        ends)
UserRun-IsUnprivileged s _ (charged accept cycles ignore m m' run paid) =
    IsUnprivileged-trans s m.state m'.state (UserRun-IsUnprivileged s m.state run)
      (receive_cycles-IsUnprivileged accept cycles ignore m m' paid)
UserRun-IsUnprivileged s _ (counted {t = t} caller cycles now_ms run) =
    IsUnprivileged-trans s t _ (UserRun-IsUnprivileged s t run)
      (update_caller_state-IsUnprivileged caller cycles now_ms t)
UserRun-IsUnprivileged s s' (refreshed {before = t} {now = now} sign time run meanwhile h) =
    IsUnprivileged-trans s t s' (UserRun-IsUnprivileged s t run)
      (refreshed-IsUnprivileged sign time t now s' (UserRun-IsUnprivileged t now meanwhile) h)
UserRun-IsUnprivileged s _ (keyed {before = t} {now = now} sys base64_encode run meanwhile) =
    IsUnprivileged-trans s t _ (UserRun-IsUnprivileged s t run)
      (keyed-IsUnprivileged sys base64_encode t now (UserRun-IsUnprivileged t now meanwhile))
UserRun-IsUnprivileged s _ (administered {t = t} validate update caller call run user) =
    rw (administer-refused validate update caller call t user) (UserRun-IsUnprivileged s t run)
