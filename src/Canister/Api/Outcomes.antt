-- ===== src/Canister/Api/Outcomes.antt =====
-- What the two parallel calls reply.
use idempotent_proxy.Prelude.{
  ℕ, ◌≡◌, refl, ◌≢◌, String, Bool, true, false, not, some, List, [], ◌∷◌, ◌++◌, is_empty, any,
  retain, All, Member, Result, ok, err, arith, Bool-cases, Option-cases, Result-cases, inl, inr,
}
use idempotent_proxy.Canister.Types.{Principal, HttpRequest, HttpResponse, Agent, State}
use idempotent_proxy.Canister.Cycles.{Calculator, http_outcall_response_cost, count_response_bytes}
use idempotent_proxy.Canister.Store.{Message, receive_cycles, is_allowed, get_agents}
use idempotent_proxy.Canister.Api.{Ending, replied, trapped, panicked}
use idempotent_proxy.Canister.Api.Sequence.{receive_cycles-ignoring}
use idempotent_proxy.Canister.Api.Parallel.{
  Answer, ask_all, request_charge, ask_parallel, charge_response, agree, parallel_call_all_ok,
  parallel_call_any_ok,
}

abbrev pub oks : List HttpResponse → List Answer
oks [] = []
oks (r ∷ l) = ok r ∷ oks l

-- The documentation of `try_join_all`: all the values in order, or an error of one of the calls.
pub record JoinLaws (try_join_all : List Answer → Result (List HttpResponse) HttpResponse)
    : Type 0 where
  pub all_ok : (l : List Answer) (rs : List HttpResponse) → try_join_all l ≡ ok rs → l ≡ oks rs
  pub one_err :
      (l : List Answer) (e : HttpResponse) → try_join_all l ≡ err e → Member {A = Answer} (err e) l

-- The documentation of `select_ok`: a value of one of the calls, or an error of one if all fail;
-- it panics on no calls.
pub record SelectLaws (select_ok : List Answer → Answer) : Type 0 where
  pub one_ok :
      (l : List Answer) (r : HttpResponse)
      → is_empty l ≡ false
      → select_ok l ≡ ok r
      → Member {A = Answer} (ok r) l
  pub all_err :
      (l : List Answer) (e : HttpResponse)
      → is_empty l ≡ false
      → select_ok l ≡ err e
      → Member {A = Answer} (err e) l × All (λ (a : Answer). (r : HttpResponse) × (a ≡ err r)) l

-- The response for a list of answers that must agree.
pub data IsAgreement (same : HttpResponse → HttpResponse → Bool) (answers : List Answer)
    : HttpResponse → Type 0 where
  failed :
      {res : HttpResponse} → Member {A = Answer} (err res) answers → IsAgreement same answers res
  agreed :
      {res : HttpResponse} (rest : List HttpResponse)
      → answers ≡ oks (res ∷ rest)
      → All (λ r. same r res ≡ true) rest
      → IsAgreement same answers res
  differed :
      {res : HttpResponse} (base : HttpResponse) (rest : List HttpResponse)
      → answers ≡ oks (base ∷ rest)
      → any (λ r. not (same r base)) rest ≡ true
      → res.status ≡ 500
      → IsAgreement same answers res

-- The response for a list of answers of which one is enough.
pub data IsSelection (answers : List Answer) : HttpResponse → Type 0 where
  selected : {res : HttpResponse} → Member {A = Answer} (ok res) answers → IsSelection answers res
  all_failed :
      {res : HttpResponse}
      → Member {A = Answer} (err res) answers
      → All (λ (a : Answer). (r : HttpResponse) × (a ≡ err r)) answers
      → IsSelection answers res

-- The message ends with a reply of which a predicate holds.
abbrev pub Replies : (HttpResponse → Type 0) → Ending → Type 0
Replies P (replied m res) = P res
Replies P (trapped s) = ⊥
Replies P panicked = ⊥

All-same :
    (same : HttpResponse → HttpResponse → Bool) (base : HttpResponse) (l : List HttpResponse)
    → is_empty (retain (λ r. not (same r base)) l) ≡ true
    → All (λ r. same r base ≡ true) l
All-same same base [] h = tt
All-same same base (r ∷ l) h = elim (Bool-cases (same r base)) [
  | inl e ↦ (e, All-same same base l (ground arith))
  | inr e ↦ absurd (ground arith)
]

some_differ :
    (same : HttpResponse → HttpResponse → Bool) (base : HttpResponse) (l : List HttpResponse)
    → is_empty (retain (λ r. not (same r base)) l) ≡ false
    → any (λ r. not (same r base)) l ≡ true
some_differ same base [] h = ground arith
some_differ same base (r ∷ l) h = elim (Bool-cases (same r base)) [
  | inl e ↦ rw e (some_differ same base l (ground arith))
  | inr e ↦ rw e refl
]

asked :
    (answer : Agent → Answer) (agents : List Agent)
    → is_empty agents ≡ false
    → is_empty (ask_all answer agents) ≡ false
asked answer [] listed = listed
asked answer (a ∷ agents) listed = refl

first_answer :
    (answer : Agent → Answer) (agents : List Agent) (results : List HttpResponse)
    → is_empty agents ≡ false
    → ask_all answer agents ≡ oks results
    → (base : HttpResponse) × (rest : List HttpResponse) × (results ≡ base ∷ rest)
first_answer answer [] results listed all = absurd (ground arith)
first_answer answer (a ∷ agents) [] listed all = absurd (ground arith)
first_answer answer (a ∷ agents) (r ∷ rest) listed all = (r, rest, refl)

module _ (accept : ℕ → ℕ → ℕ) (answer : Agent → Answer) (await : State → State)
    (arg_size now_ms : ℕ) (caller : Principal) (utf8 : String → List ℕ) where
  charged_reply :
      (P : HttpResponse → Type 0) (calc : Calculator) (balance copies : ℕ) (res : HttpResponse)
      (on_trap : Ending) (reply : Message → Ending) (m : Message)
      → ((m' : Message) → Replies P (reply m'))
      → Replies P (
          charge_response accept answer await arg_size now_ms caller utf8 calc balance copies res
            on_trap reply m)
  unfolding charge_response
  charged_reply P calc balance copies res on_trap reply m h =
      elim (Option-cases (
        receive_cycles accept
          (http_outcall_response_cost calc (count_response_bytes calc res) copies) true m)) [
            | inl unpaid ↦ absurd (receive_cycles-ignoring accept _ m unpaid)
            | inr (m', paid) ↦ rw (paid, charge_response) (h _)
          ]

  agreed_reply :
      (same : HttpResponse → HttpResponse → Bool)
      (encode : List HttpResponse → Result (List ℕ) String) (answers : List Answer)
      (base : HttpResponse) (rest : List HttpResponse) (m : Message)
      → ((l : List HttpResponse) (e : String) → encode l ≢ err e)
      → answers ≡ oks (base ∷ rest)
      → Replies
          (IsAgreement same answers)
          (agree accept answer await arg_size now_ms caller utf8 same encode base rest m)
  unfolding agree
  agreed_reply same encode answers base rest m encodes all =
      elim (Bool-cases (is_empty (retain (λ r. not (same r base)) rest))) [
        | inl none_left ↦
            rw (none_left, agree) (agreed rest all (All-same same base rest none_left))
        | inr left ↦
            elim (Result-cases (encode (retain (λ r. not (same r base)) rest ++ (base ∷ [])))) [
              | inr (e, garbled) ↦ absurd (encodes _ e garbled)
              | inl (buf, coded) ↦
                  rw (left, agree)
                    (rw coded (differed base rest all (some_differ same base rest left) refl))
            ]
      ]

  module _ (req : HttpRequest) (m paid : Message) (allowed : is_allowed caller m.state ≡ true)
      (listed : is_empty (get_agents m.state) ≡ false)
      (charged : receive_cycles accept (request_charge arg_size req m.state) false m
        ≡ some paid) where
    -- A call of `parallel_call_all_ok` that is allowed and paid for, with at least one agent, ends
    -- with a reply. It is an error answer of some agent, or the first agent's answer if all the
    -- others are the same, or a response of status 500 if all agents answered well and some answer
    -- is not the first one.
    pub parallel_call_all_ok-IsAgreement :
        (try_join_all : List Answer → Result (List HttpResponse) HttpResponse)
        (same : HttpResponse → HttpResponse → Bool)
        (encode : List HttpResponse → Result (List ℕ) String)
        → JoinLaws try_join_all
        → ((l : List HttpResponse) (e : String) → encode l ≢ err e)
        → Replies (IsAgreement same (ask_all answer (get_agents m.state))) (
            parallel_call_all_ok accept answer await arg_size now_ms caller utf8 try_join_all same
              encode req m)
    unfolding parallel_call_all_ok ask_parallel
    parallel_call_all_ok-IsAgreement try_join_all same encode laws encodes =
        rw (allowed, parallel_call_all_ok)
          (rw listed (
            rw charged (elim (Result-cases (try_join_all (ask_all answer (get_agents m.state)))) [
              | inr (res, bad) ↦ rw bad (failed (laws.one_err _ res bad))
              | inl (results, good) ↦
                  let all = laws.all_ok _ results good in
                  let (base, rest, e) =
                    first_answer answer (get_agents m.state) results listed all in
                  rw good (
                    rw e (
                      charged_reply _ _ _ _ base _ _ _
                        (λ m'. agreed_reply same encode _ base rest m' encodes (rw e at all))))
            ])))

    -- A call of `parallel_call_any_ok` that is allowed and paid for, with at least one agent, ends
    -- with a reply. It is a good answer of some agent, or an error answer if no agent answered well.
    pub parallel_call_any_ok-IsSelection :
        (select_ok : List Answer → Answer)
        → SelectLaws select_ok
        → Replies
            (IsSelection (ask_all answer (get_agents m.state)))
            (parallel_call_any_ok accept answer await arg_size now_ms caller utf8 select_ok req m)
    unfolding parallel_call_any_ok ask_parallel
    parallel_call_any_ok-IsSelection select_ok laws =
        rw (allowed, parallel_call_any_ok)
          (rw listed (
            rw charged (elim (Result-cases (select_ok (ask_all answer (get_agents m.state)))) [
              | inl (res, good) ↦ rw good (
                  charged_reply _ _ _ _ _ _ _ _ (λ m'.
                    selected (laws.one_ok _ res (asked answer (get_agents m.state) listed) good)))
              | inr (res, bad) ↦
                  let (one, all) =
                    laws.all_err _ res (asked answer (get_agents m.state) listed) bad in
                  rw bad (all_failed one all)
            ])))
