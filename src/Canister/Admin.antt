-- ===== src/Canister/Admin.antt =====
-- idempotent-proxy-canister/src/api_admin.rs and the guards of lib.rs.
--
-- `is_controller` is the system's answer for the caller, `validate_principals` a function of
-- another package, and `update` the rest of `admin_set_agents` (tasks.rs). A set is a list in which
-- an addition of a present member changes nothing. A call that its guard rejects, or that returns
-- an error, leaves the state.
pub mod Callers
pub mod Rights
pub mod Access
mod Tests
pub mod Validation
use idempotent_proxy.Prelude.{
  ℕ, String, Bool, true, false, not, ◌||◌, Option, none, some, List, [], ◌∷◌, any, retain, is_empty,
  if◌then◌else◌, str_eq, lookup, insert, remove, Result, ok, err, ◌>>=◌, map_ok,
}
use idempotent_proxy.Canister.Types.{Principal, Agent, State}
use idempotent_proxy.Canister.Store.{is_manager, or_insert_all}

-- The text of the anonymous principal.
abbrev pub anonymous : Principal
anonymous = "2vxsx-fae"

unfoldable pub is_controller : Bool → Result (Unit {0}) String
is_controller controller = if controller then ok tt else err "user is not a controller"

unfoldable pub is_controller_or_manager : Bool → Principal → State → Result (Unit {0}) String
is_controller_or_manager controller caller s =
    if controller || is_manager caller s then ok tt else err "user is not a controller or manager"

-- `BTreeSet::append`.
unfoldable pub append_all : List Principal → List Principal → List Principal
append_all set [] = set
append_all set (p ∷ ps) = append_all (if any (str_eq p) set then set else p ∷ set) ps

unfoldable pub remove_all : List Principal → List (Principal × (ℕ × ℕ)) → List (Principal × (ℕ × ℕ))
remove_all [] callers = callers
remove_all (p ∷ ps) callers = remove_all ps (remove p callers)

-- The new state, or the old one with an error.
abbrev pub commit : {A : Type 0} → State → Result (State × A) String → State × Result A String
commit s (ok (s', a)) = (s', ok a)
commit s (err e) = (s, err e)

module _ (validate_principals : List Principal → Result (Unit {0}) String) where
  unfoldable pub validate_admin_add_managers : List Principal → Result (Unit {0}) String
  validate_admin_add_managers args = validate_principals args >>= λ _. ok tt

  unfoldable pub validate2_admin_add_managers : List Principal → Result String String
  validate2_admin_add_managers args = validate_principals args >>= λ _. ok "ok"

  unfoldable pub validate_admin_remove_managers : List Principal → Result (Unit {0}) String
  validate_admin_remove_managers args = validate_principals args >>= λ _. ok tt

  unfoldable pub validate2_admin_remove_managers : List Principal → Result String String
  validate2_admin_remove_managers args = validate_principals args >>= λ _. ok "ok"

unfoldable pub validate_admin_set_agents : List Agent → Result (Unit {0}) String
validate_admin_set_agents agents = if is_empty agents then err "agents cannot be empty" else ok tt

unfoldable pub validate2_admin_set_agents : List Agent → Result String String
validate2_admin_set_agents agents =
    if is_empty agents then err "agents cannot be empty" else ok "ok"

module _ (validate_principals : List Principal → Result (Unit {0}) String) (controller : Bool)
    (caller : Principal) where
  unfoldable pub admin_add_managers : List Principal → State → State × Result (Unit {0}) String
  unfolding is_controller
  admin_add_managers args s = commit s (
      is_controller controller >>= λ _.
      validate_principals args >>= λ _. ok (record s { managers = append_all s.managers args }, tt))

  unfoldable pub admin_remove_managers : List Principal → State → State × Result (Unit {0}) String
  unfolding is_controller
  admin_remove_managers args s = commit s (
      is_controller controller >>= λ _. validate_principals args >>= λ _.
      ok (record s { managers = retain (λ p. not (any (str_eq p) args)) s.managers }, tt))

  unfoldable pub admin_add_caller : Principal → State → State × Result Bool String
  unfolding is_controller_or_manager
  admin_add_caller id s = commit s (
      is_controller_or_manager controller caller s >>= λ _.
      if str_eq id anonymous
      then err "anonymous caller cannot be added"
      else elim (lookup id s.callers) [
        | some v ↦ ok (s, false)
        | none ↦ ok (record s { callers = insert id (0, 0) s.callers }, true)
      ])

  unfoldable pub admin_add_callers : List Principal → State → State × Result (Unit {0}) String
  unfolding is_controller_or_manager
  admin_add_callers args s = commit s (
      is_controller_or_manager controller caller s >>= λ _. validate_principals args >>= λ _.
      ok (record s { callers = or_insert_all args s.callers }, tt))

  unfoldable pub admin_remove_callers : List Principal → State → State × Result (Unit {0}) String
  unfolding is_controller_or_manager
  admin_remove_callers args s = commit s (
      is_controller_or_manager controller caller s >>= λ _.
      validate_principals args >>= λ _. ok (record s { callers = remove_all args s.callers }, tt))

  -- `none` is a trap of the task.
  unfoldable pub admin_set_agents :
      (List Agent → State → Option State)
      → List Agent
      → State
      → Option (State × Result (Unit {0}) String)
  unfolding is_controller_or_manager validate_admin_set_agents
  admin_set_agents update agents s =
      elim (is_controller_or_manager controller caller s >>= λ _.
      validate_admin_set_agents agents) [
        | err e ↦ some (s, err e)
        | ok _ ↦ elim (update agents s) [ none ↦ none | some s' ↦ some (s', ok tt) ]
      ]
