-- ===== src/Canister/Admin/Validation.antt =====
-- The functions that validate a proposal for an update.
use idempotent_proxy.Prelude.{◌≡◌, String, true, List, Result, map_ok, arith}
use idempotent_proxy.Canister.Types.{Principal, Agent, State}
use idempotent_proxy.Canister.Admin.{
  validate_admin_add_managers, validate2_admin_add_managers, validate_admin_remove_managers,
  validate2_admin_remove_managers, validate_admin_set_agents, validate2_admin_set_agents,
  admin_add_managers, admin_remove_managers,
}

-- A proposal for the managers is valid exactly if a controller who carries it out succeeds, in
-- any state, and else both give the same error. The second function that validates a proposal,
-- for the managers or the agents, says "ok" where the first accepts, and else has its error.
pub validation_agrees :
    (validate_principals : List Principal → Result (Unit {0}) String) (caller : Principal)
    (args : List Principal) (agents : List Agent) (s : State)
    → ((admin_add_managers validate_principals true caller args s).1
        ≡ validate_admin_add_managers validate_principals args)
      × ((admin_remove_managers validate_principals true caller args s).1
          ≡ validate_admin_remove_managers validate_principals args)
      × (validate2_admin_add_managers validate_principals args
          ≡ map_ok (λ _. "ok") (validate_admin_add_managers validate_principals args))
      × (validate2_admin_remove_managers validate_principals args
          ≡ map_ok (λ _. "ok") (validate_admin_remove_managers validate_principals args))
      × (validate2_admin_set_agents agents ≡ map_ok (λ _. "ok") (validate_admin_set_agents agents))
unfolding validate_admin_add_managers validate2_admin_add_managers validate_admin_remove_managers
    validate2_admin_remove_managers validate_admin_set_agents validate2_admin_set_agents
    admin_add_managers admin_remove_managers
validation_agrees validate_principals caller args agents s =
    (ground arith, ground arith, ground arith, ground arith, ground arith)
