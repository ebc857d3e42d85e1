-- ===== src/Canister/Admin/Access.antt =====
-- The canister keeps its table of rights.
use idempotent_proxy.Prelude.{
  ◌≡◌, refl, sym, ap, ◌∙◌, String, Bool, true, false, not, ◌||◌, ◌&&◌, List, [], ◌∷◌, any, retain,
  str_eq, eq_iff, lookup, insert, lookup-insert, Result, ok, arith, Bool-cases, Option-cases,
  Result-cases, inl, inr,
}
use idempotent_proxy.Canister.Types.{Principal, State}
use idempotent_proxy.Canister.Store.{is_manager, or_insert_all, update_caller_state, saturating_add}
use idempotent_proxy.Canister.Store.Loading.{lookup-or_insert_all}
use idempotent_proxy.Canister.Admin.{
  anonymous, append_all, remove_all, is_controller, is_controller_or_manager, admin_add_managers,
  admin_remove_managers, admin_add_caller, admin_add_callers, admin_remove_callers,
}
use idempotent_proxy.Canister.Admin.Callers.{lookup-remove_all}
use idempotent_proxy.Canister.Admin.Rights.{
  Rights, RightsCall, add_managers, remove_managers, add_callers, remove_callers, add_caller,
  charge, Caller, rights_of, listed, perform, promise,
}

str_eq_comm : (a b : String) → str_eq a b ≡ str_eq b a
str_eq_comm a b = ground (arith, eq_iff a b, eq_iff b a)

any-append_all :
    (set args : List Principal) (id : Principal)
    → any (str_eq id) (append_all set args) ≡ (any (str_eq id) set || listed id args)
unfolding append_all
any-append_all set [] id = ground arith
any-append_all set (p ∷ ps) id = elim (Bool-cases (any (str_eq p) set)) [
  | inl present ↦
      rw (present, append_all)
        (any-append_all set ps id ∙ elim (Bool-cases (str_eq p id)) [
          | inl same ↦
              let e : any (str_eq id) set ≡ true =
                ap (λ q. any (str_eq q) set) (sym ((eq_iff p id).0 same)) ∙ present in
              rw e refl
          | inr other ↦ rw other refl
        ])
  | inr absent ↦
      rw (absent, append_all)
        (any-append_all (p ∷ set) ps id ∙ rw (str_eq_comm id p) (ground arith))
]

listed_comm : (args : List Principal) (id : Principal) → any (str_eq id) args ≡ listed id args
listed_comm [] id = refl
listed_comm (p ∷ ps) id = ground (arith, str_eq_comm id p, listed_comm ps id)

-- A principal that equals another is listed with it.
listed_same :
    (args : List Principal) (id p : Principal)
    → str_eq id p ≡ true
    → listed id args ≡ any (str_eq p) args
listed_same args id p same = rw ((eq_iff id p).0 same) (sym (listed_comm args p))

any-retain :
    (set args : List Principal) (id : Principal)
    → any (str_eq id) (retain (λ p. not (any (str_eq p) args)) set)
      ≡ (any (str_eq id) set && not (listed id args))
any-retain [] args id = refl
any-retain (p ∷ set) args id =
    let rest = any-retain set args id in
    elim (Bool-cases (str_eq id p)) [
      | inl same ↦
          let e = listed_same args id p same in
          elim (Bool-cases (any (str_eq p) args)) [
            | inl gone ↦ rw (gone, retain) (rest ∙ rw (e, gone) (ground arith))
            | inr kept ↦ rw (kept, retain) (rw (same, e, kept) (ground arith))
          ]
      | inr other ↦ elim (Bool-cases (any (str_eq p) args)) [
        | inl gone ↦ rw (gone, retain) (rest ∙ rw other refl)
        | inr kept ↦ rw (kept, retain) (rw other rest)
      ]
    ]

pub Rights-ext :
    (r r' : Rights)
    → ((id : Principal) → r.managers id ≡ r'.managers id)
    → ((id : Principal) → r.callers id ≡ r'.callers id)
    → r ≡ r'
Rights-ext r r' same_managers same_callers i = record {
  managers = λ id. same_managers id i;
  callers = λ id. same_callers id i;
}

module _ (validate : List Principal → Result (Unit {0}) String) where
  -- A call whose change of the table is known.
  answered :
      (s : State) (r : Rights) (reply : Result Bool String)
      → ((id : Principal) → is_manager id s ≡ r.managers id)
      → ((id : Principal) → lookup id s.callers ≡ r.callers id)
      → ◌≡◌ {A = Rights × Result Bool String} (rights_of s, reply) (r, reply)
  answered s r reply same_managers same_callers =
      ap (λ t. (t, reply)) (Rights-ext (rights_of s) r same_managers same_callers)

  perform-promise :
      (who : Caller) (call : RightsCall) (s : State)
      → (rights_of (perform validate who call s).0, (perform validate who call s).1)
        ≡ promise validate who call (rights_of s)
  unfolding admin_add_managers admin_remove_managers admin_add_caller admin_add_callers
      admin_remove_callers is_controller is_controller_or_manager is_manager update_caller_state
  perform-promise (controller, caller) (add_managers args) s = elim (Bool-cases controller) [
    | inr other ↦ rw other refl
    | inl may ↦ elim (Result-cases (validate args)) [
      | inr (e, invalid) ↦ rw may (rw invalid refl)
      | inl (u, valid) ↦ rw may (
          rw valid (
            answered (record s { managers = append_all s.managers args }) _ (ok true)
              (any-append_all s.managers args) (λ id. refl)))
    ]
  ]
  perform-promise (controller, caller) (remove_managers args) s = elim (Bool-cases controller) [
    | inr other ↦ rw other refl
    | inl may ↦ elim (Result-cases (validate args)) [
      | inr (e, invalid) ↦ rw may (rw invalid refl)
      | inl (u, valid) ↦ rw may (
          rw valid (
            answered (record s { managers = retain (λ p. not (any (str_eq p) args)) s.managers }) _
              (ok true) (any-retain s.managers args) (λ id. refl)))
    ]
  ]
  perform-promise (controller, caller) (add_callers args) s =
      elim (Bool-cases (controller || is_manager caller s)) [
        | inr other ↦ rw other refl
        | inl may ↦ elim (Result-cases (validate args)) [
          | inr (e, invalid) ↦ rw may (rw invalid refl)
          | inl (u, valid) ↦ rw may (
              rw valid (
                answered (record s { callers = or_insert_all args s.callers }) _ (ok true)
                  (λ id. refl) (lookup-or_insert_all args s.callers)))
        ]
      ]
  perform-promise (controller, caller) (remove_callers args) s =
      elim (Bool-cases (controller || is_manager caller s)) [
        | inr other ↦ rw other refl
        | inl may ↦ elim (Result-cases (validate args)) [
          | inr (e, invalid) ↦ rw may (rw invalid refl)
          | inl (u, valid) ↦ rw may (
              rw valid (
                answered (record s { callers = remove_all args s.callers }) _ (ok true) (λ id. refl)
                  (lookup-remove_all args s.callers)))
        ]
      ]
  perform-promise (controller, caller) (add_caller id) s =
      elim (Bool-cases (controller || is_manager caller s)) [
        | inr other ↦ rw other refl
        | inl may ↦ elim (Bool-cases (str_eq id anonymous)) [
          | inl nobody ↦ rw may (rw nobody refl)
          | inr somebody ↦ elim (Option-cases (lookup id s.callers)) [
            | inl new ↦ rw may (
                rw somebody (
                  rw new (
                    answered (record s { callers = insert id (0, 0) s.callers }) _ (ok true)
                      (λ q. refl)
                      (λ q.
                        ground (arith, new, eq_iff id q, lookup-insert id q (0, 0) s.callers)))))
            | inr (v, known) ↦ rw may (
                rw somebody (
                  rw known (
                    answered s _ (ok false) (λ q. refl) (λ q. ground (arith, known, eq_iff id q)))))
          ]
        ]
      ]
  perform-promise (controller, caller) (charge id cycles now_ms) s =
      elim (Option-cases (lookup id s.callers)) [
        | inl unknown ↦
            rw (unknown, update_caller_state)
              (answered s _ (ok true) (λ q. refl) (λ q. ground (arith, unknown, eq_iff id q)))
        | inr (v, known) ↦
            rw (known, update_caller_state)
              (answered
                (record s { callers = insert id (saturating_add v.0 cycles, now_ms) s.callers }) _
                (ok true) (λ q. refl)
                (λ q. ground (
                  arith,
                  known,
                  eq_iff id q,
                  lookup-insert id q (saturating_add v.0 cycles, now_ms) s.callers,
                )))
      ]

  -- Calls one after another, and their replies.
  abbrev pub perform_all : List (Caller × RightsCall) → State → State × List (Result Bool String)
  perform_all [] s = (s, [])
  perform_all ((who, call) ∷ calls) s =
      let (s', reply) = perform validate who call s in
      let (t, replies) = perform_all calls s' in (t, reply ∷ replies)

  abbrev pub promise_all : List (Caller × RightsCall) → Rights → Rights × List (Result Bool String)
  promise_all [] r = (r, [])
  promise_all ((who, call) ∷ calls) r =
      let (r', reply) = promise validate who call r in
      let (t, replies) = promise_all calls r' in (t, reply ∷ replies)

  -- The canister keeps a table of rights. For any calls of canister administration and any charges,
  -- one after another, by controllers, managers and others: the managers and the callers with their
  -- counters change as the calls promise on the two functions alone, and the replies are the
  -- promised ones. A controller adds and removes managers, and a controller or manager adds and
  -- removes callers; one who may not, and invalid arguments, get an error, and nothing changes. A
  -- caller that is added again keeps its counters, and a charge counts for a caller only.
  pub perform_all-promise_all :
      (calls : List (Caller × RightsCall)) (s : State)
      → (rights_of (perform_all calls s).0, (perform_all calls s).1)
        ≡ promise_all calls (rights_of s)
  perform_all-promise_all [] s = refl
  perform_all-promise_all ((who, call) ∷ calls) s =
      ap (λ (q : Rights × List (Result Bool String)). (q.0, (perform validate who call s).1 ∷ q.1))
        (perform_all-promise_all calls (perform validate who call s).0)
      ∙ ap
          (λ (q : Rights × Result Bool String).
            ((promise_all calls q.0).0, q.1 ∷ (promise_all calls q.0).1))
          (perform-promise who call s)
