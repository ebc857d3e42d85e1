-- ===== src/Canister/Store.antt =====
-- idempotent-proxy-canister/src/store.rs: the state and its operations.
--
-- `STATE` is passed from call to call. A message also has the cycles that its caller attached and
-- that are not accepted yet: `Message` holds both. `accept` is the system's
-- `msg_cycles_accept128`, on the cycles that are available and those that are wanted. A trap is
-- `none`.
pub mod Accounting
pub mod Loading
use Prim.Native.Nat.{min}
use idempotent_proxy.Prelude.{
  ℕ, ◌+◌, ◌-◌, ◌^◌, String, Bool, true, false, Option, none, some, List, [], ◌∷◌, any, is_empty,
  if◌then◌else◌, ltb, ◌==◌, str_eq, lookup, insert, u128_mod,
}
use idempotent_proxy.Canister.Types.{Principal, Agent, State}
use idempotent_proxy.Canister.Cycles.{Calculator}

abbrev pub u128_max : ℕ
u128_max = u128_mod - 1

abbrev pub saturating_add : ℕ → ℕ → ℕ
saturating_add a b = min (a + b) u128_max

unfoldable pub get_agents : State → List Agent
get_agents s = s.agents

unfoldable pub cycles_calculator : State → Calculator
cycles_calculator s = record { subnet_size = s.subnet_size; service_fee = s.service_fee }

unfoldable pub is_manager : Principal → State → Bool
is_manager caller s = any (str_eq caller) s.managers

unfoldable pub is_allowed : Principal → State → Bool
is_allowed caller s = elim (lookup caller s.callers) [ none ↦ false | some v ↦ true ]

unfoldable pub update_caller_state : Principal → ℕ → ℕ → State → State
update_caller_state caller cycles now_ms s = elim (lookup caller s.callers) [
  | none ↦ s
  | some v ↦ record s { callers = insert caller (saturating_add v.0 cycles, now_ms) s.callers }
]

pub record Message : Type 0 where
  pub state : State
  pub available : ℕ

unfoldable pub receive_cycles : (ℕ → ℕ → ℕ) → ℕ → Bool → Message → Option Message
receive_cycles accept cycles ignore_insufficient m =
    if cycles == 0
    then some m
    else (let received : ℕ = accept m.available cycles in
        let counted : State = record (m.state) {
          incoming_cycles = saturating_add m.state.incoming_cycles received;
        } in
        let left : ℕ = m.available - received in
        if ltb received cycles
        then (if ignore_insufficient
            then some (record {
              state = record counted {
                uncollectible_cycles =
                    saturating_add counted.uncollectible_cycles (cycles - received);
              };
              available = left;
            })
            else none)
        else some (record { state = counted; available = left }))

-- `callers.entry(p).or_insert((0, 0))` for each principal, in turn.
unfoldable pub or_insert_all :
    List Principal → List (Principal × (ℕ × ℕ)) → List (Principal × (ℕ × ℕ))
or_insert_all [] callers = callers
or_insert_all (p ∷ ps) callers =
    or_insert_all ps (elim (lookup p callers) [ none ↦ insert p (0, 0) callers | some v ↦ callers ])

-- `load`, from the state in stable memory.
unfoldable pub load : State → State
load s =
    if is_empty s.allowed_callers
    then s
    else record s { callers = or_insert_all s.allowed_callers s.callers; allowed_callers = [] }
