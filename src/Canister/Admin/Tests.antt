-- ===== src/Canister/Admin/Tests.antt =====
-- A small table of rights, and the theorem at it.
use idempotent_proxy.Prelude.{
  ◌≡◌, refl, String, true, false, List, [], ◌∷◌, Result, ok, err, lookup,
}
use idempotent_proxy.Canister.Types.{Principal, State}
use idempotent_proxy.Canister.Upgrade.{default_state}
use idempotent_proxy.Canister.Admin.Rights.{
  RightsCall, add_managers, remove_managers, add_caller, add_callers, remove_callers, charge,
  Caller, rights_of,
}
use idempotent_proxy.Canister.Admin.Access.{perform_all, promise_all, perform_all-promise_all}

abbrev validate : List Principal → Result (Unit {0}) String
validate [] = err "principals cannot be empty"
validate (p ∷ ps) = ok tt

abbrev state : State
state = record default_state { managers = "meg" ∷ []; callers = ("bob", (5, 6)) ∷ [] }

-- The manager adds two callers, and may not add a manager; the controller may.
abbrev calls : List (Caller × RightsCall)
calls =
    ((false, "meg"), add_callers ("ann" ∷ "bob" ∷ []))
    ∷ ((false, "meg"), add_managers ("max" ∷ []))
    ∷ ((true, "root"), add_managers ("max" ∷ []))
    ∷ ((false, "bob"), charge "bob" 10 9)
    ∷ ((false, "max"), add_caller "ann")
    ∷ ((false, "max"), remove_callers ("ann" ∷ []))
    ∷ ((true, "root"), remove_managers [])
    ∷ []

perform_all-promise_all_example :
    (rights_of (perform_all validate calls state).0, (perform_all validate calls state).1)
    ≡ promise_all validate calls (rights_of state)
perform_all-promise_all_example = perform_all-promise_all validate calls state

promised_replies : (promise_all validate calls (rights_of state)).1 ≡ (
    ok true
    ∷ err "user is not a controller"
    ∷ ok true
    ∷ ok true
    ∷ ok false
    ∷ ok true
    ∷ err "principals cannot be empty"
    ∷ [])
unfolding lookup idempotent_proxy.Canister.Store.is_manager
promised_replies = refl
