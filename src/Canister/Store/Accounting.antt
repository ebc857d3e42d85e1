-- ===== src/Canister/Store/Accounting.antt =====
-- Where the cycles of a call go.
use idempotent_proxy.Prelude.{
  ℕ, ◌+◌, ◌-◌, ◌≤◌, ◌≡◌, Bool, false, none, some, arith, if◌then◌else◌, ltb, ◌==◌,
}
use idempotent_proxy.Canister.Store.{Message, receive_cycles, u128_max, saturating_add}

-- The system accepts no more than is wanted, and no more than is available.
abbrev pub Accepts : (ℕ → ℕ → ℕ) → Type 0
Accepts accept =
    (available wanted : ℕ)
    → (accept available wanted ≤ wanted) × (accept available wanted ≤ available)

-- The cycles that a message has seen: accepted, not collected, or still available.
abbrev pub counted : Message → ℕ
counted m = m.state.incoming_cycles + m.state.uncollectible_cycles

-- Conservation. A `receive_cycles` that does not trap, and whose sums fit a `u128`, adds its
-- charge to the two counters, what it accepts to `incoming_cycles` and the rest to
-- `uncollectible_cycles`; what it accepts, and nothing else, leaves the available cycles.
pub receive_cycles_conserves :
    (accept : ℕ → ℕ → ℕ) (cycles : ℕ) (ignore : Bool) (m m' : Message)
    → Accepts accept
    → counted m + cycles ≤ u128_max
    → receive_cycles accept cycles ignore m ≡ some m'
    → (counted m' ≡ counted m + cycles)
      × (m'.state.incoming_cycles + m'.available ≡ m.state.incoming_cycles + m.available)
unfolding receive_cycles
receive_cycles_conserves accept cycles ignore m m' accepts fits h =
    ground (arith, accepts m.available cycles)

-- Payment in full. A `receive_cycles` that may not ignore a shortfall succeeds only if the system
-- accepts the whole charge, and then it leaves `uncollectible_cycles` alone; it traps otherwise.
pub receive_cycles_full :
    (accept : ℕ → ℕ → ℕ) (cycles : ℕ) (m : Message)
    → Accepts accept
    → receive_cycles accept cycles false m ≡ (
        if ltb (accept m.available cycles) cycles
        then none
        else some (record {
          state = record (m.state) {
            incoming_cycles =
                (if cycles == 0
                  then m.state.incoming_cycles
                  else saturating_add m.state.incoming_cycles cycles);
          };
          available = m.available - cycles;
        }))
unfolding receive_cycles
receive_cycles_full accept cycles m accepts = ground (arith, accepts m.available cycles)
