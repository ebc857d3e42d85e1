-- ===== src/Canister/Admin/Rights.antt =====
-- The managers and the callers as an abstract table of rights, and the canister's calls on it.
--
-- The table has no order and no representation: it is the two functions that the code asks.
use idempotent_proxy.Prelude.{
  ℕ, String, Bool, true, false, not, ◌||◌, ◌&&◌, Option, none, some, List, any, if◌then◌else◌,
  str_eq, lookup, Result, ok, err, map_ok,
}
use idempotent_proxy.Canister.Types.{Principal, State}
use idempotent_proxy.Canister.Store.{is_manager, update_caller_state, saturating_add}
use idempotent_proxy.Canister.Store.Loading.{or_zeros}
use idempotent_proxy.Canister.Admin.{
  anonymous, admin_add_managers, admin_remove_managers, admin_add_caller, admin_add_callers,
  admin_remove_callers,
}

-- Who is a manager, and the counters of each caller.
pub record Rights : Type 0 where
  pub managers : Principal → Bool
  pub callers : Principal → Option (ℕ × ℕ)

abbrev pub rights_of : State → Rights
rights_of s = record { managers = λ id. is_manager id s; callers = λ id. lookup id s.callers }

-- The principal is among those listed.
abbrev pub listed : Principal → List Principal → Bool
listed id args = any (λ p. str_eq p id) args

-- A call that reads or changes the table. The charge is `update_caller_state`.
pub data RightsCall : Type 0 where
  add_managers remove_managers add_callers remove_callers : List Principal → RightsCall
  add_caller : Principal → RightsCall
  charge : Principal → ℕ → ℕ → RightsCall

-- Who calls: a controller or not, and the principal.
abbrev pub Caller : Type 0
Caller = Bool × Principal

module _ (validate : List Principal → Result (Unit {0}) String) where
  -- The code, with `true` for `()`.
  abbrev pub perform : Caller → RightsCall → State → State × Result Bool String
  perform (controller, caller) (add_managers args) s =
      let r = admin_add_managers validate controller caller args s in (r.0, map_ok (λ _. true) r.1)
  perform (controller, caller) (remove_managers args) s =
      let r = admin_remove_managers validate controller caller args s in
      (r.0, map_ok (λ _. true) r.1)
  perform (controller, caller) (add_callers args) s =
      let r = admin_add_callers validate controller caller args s in (r.0, map_ok (λ _. true) r.1)
  perform (controller, caller) (remove_callers args) s =
      let r = admin_remove_callers validate controller caller args s in
      (r.0, map_ok (λ _. true) r.1)
  perform (controller, caller) (add_caller id) s = admin_add_caller validate controller caller id s
  perform (controller, caller) (charge id cycles now_ms) s =
      (update_caller_state id cycles now_ms s, ok true)

  -- A change of the table for a caller who may make it, if the arguments are valid.
  abbrev guarded : Bool → String → List Principal → Rights → Rights → Rights × Result Bool String
  guarded may refusal args r r' =
      if may
      then elim (validate args) [ err e ↦ (r, err e) | ok _ ↦ (r', ok true) ]
      else (r, err refusal)

  abbrev no_controller : String
  no_controller = "user is not a controller"

  abbrev no_manager : String
  no_manager = "user is not a controller or manager"

  -- What each call promises.
  abbrev pub promise : Caller → RightsCall → Rights → Rights × Result Bool String
  promise (controller, caller) (add_managers args) r =
      guarded controller no_controller args r
        (record r { managers = λ id. r.managers id || listed id args })
  promise (controller, caller) (remove_managers args) r =
      guarded controller no_controller args r
        (record r { managers = λ id. r.managers id && not (listed id args) })
  promise (controller, caller) (add_callers args) r =
      guarded (controller || r.managers caller) no_manager args r
        (record r { callers = λ id. or_zeros (listed id args) (r.callers id) })
  promise (controller, caller) (remove_callers args) r =
      guarded (controller || r.managers caller) no_manager args r
        (record r { callers = λ id. if listed id args then none else r.callers id })
  promise (controller, caller) (add_caller id) r =
      if controller || r.managers caller
      then (if str_eq id anonymous then (r, err "anonymous caller cannot be added") else (
        record r { callers = λ q. or_zeros (str_eq id q) (r.callers q) },
        ok (elim (r.callers id) [ none ↦ true | some v ↦ false ]),
      ))
      else (r, err no_manager)
  promise (controller, caller) (charge id cycles now_ms) r = (
    record r {
      callers = λ q. elim (r.callers q) [
        | none ↦ none
        | some v ↦ some (if str_eq id q then (saturating_add v.0 cycles, now_ms) else v)
      ];
    },
    ok true,
  )
