-- ===== src/Canister/Users.antt =====
-- What the messages of users, who are neither controllers nor managers, leave as it is.
pub mod Messages
pub mod Runs
mod Tests
use idempotent_proxy.Prelude.{
  ℕ, ◌+◌, ◌-◌, ◌≤◌, ◌≡◌, refl, sym, ap, ◌∙◌, String, Bool, true, false, Option, none, some, List,
  [], ◌∷◌, lookup, insert, lookup-insert, str_eq, eq_iff, arith, Option-cases, Bool-cases, inl, inr,
  if◌then◌else◌, ltb, ◌==◌,
}
use idempotent_proxy.Canister.Types.{Principal, Agent, State}
use idempotent_proxy.Canister.Store.{
  Message, receive_cycles, update_caller_state, is_allowed, u128_max, saturating_add,
}
use idempotent_proxy.Canister.Tasks.Tokens.{untokened}

-- A state without what users' messages change: the agents' tokens, the public key, the callers'
-- counters and the counters of the cycles.
abbrev pub governed : State → State
governed s = record s {
  proxy_token_public_key = "";
  agents = untokened s.agents;
  callers = [];
  incoming_cycles = 0;
  uncollectible_cycles = 0;
}

-- A counter of the cycles, in `u128`, never falls.
abbrev pub Grows : ℕ → ℕ → Type 0
Grows n n' = n ≤ u128_max → (n ≤ n') × (n' ≤ u128_max)

-- What a change by users keeps: the settings, the managers, the agents but for their tokens, and
-- who may call; and the counters of the cycles do not fall.
pub record IsUnprivileged (s s' : State) : Type 0 where
  pub governance : governed s' ≡ governed s
  pub callers : (id : Principal) → is_allowed id s' ≡ is_allowed id s
  pub incoming : Grows s.incoming_cycles s'.incoming_cycles
  pub uncollectible : Grows s.uncollectible_cycles s'.uncollectible_cycles

pub IsUnprivileged-refl : (s : State) → IsUnprivileged s s
IsUnprivileged-refl s = record {
  governance = refl;
  callers = λ id. refl;
  incoming = λ fits. (omega arith, fits);
  uncollectible = λ fits. (omega arith, fits);
}

Grows-trans : (a b c : ℕ) → Grows a b → Grows b c → Grows a c
Grows-trans a b c g h fits =
    let (up, top) = g fits in let (up', top') = h top in (omega (arith, up, up'), top')

pub IsUnprivileged-trans :
    (s t u : State) → IsUnprivileged s t → IsUnprivileged t u → IsUnprivileged s u
IsUnprivileged-trans s t u f g = record {
  governance = g.governance ∙ f.governance;
  callers = λ id. g.callers id ∙ f.callers id;
  incoming = Grows-trans _ _ _ f.incoming g.incoming;
  uncollectible = Grows-trans _ _ _ f.uncollectible g.uncollectible;
}

-- Only the counters change.
counted-state :
    (accept : ℕ → ℕ → ℕ) (cycles : ℕ) (ignore : Bool) (m m' : Message)
    → receive_cycles accept cycles ignore m ≡ some m'
    → m'.state ≡ record (m.state) {
      incoming_cycles = m'.state.incoming_cycles;
      uncollectible_cycles = m'.state.uncollectible_cycles;
    }
unfolding receive_cycles
counted-state accept cycles ignore m m' h = ground (arith, h)

pub receive_cycles-IsUnprivileged :
    (accept : ℕ → ℕ → ℕ) (cycles : ℕ) (ignore : Bool) (m m' : Message)
    → receive_cycles accept cycles ignore m ≡ some m'
    → IsUnprivileged m.state m'.state
unfolding receive_cycles is_allowed
receive_cycles-IsUnprivileged accept cycles ignore m m' h = record {
  governance = ap governed (counted-state accept cycles ignore m m' h);
  callers = λ id. ap (is_allowed id) (counted-state accept cycles ignore m m' h);
  incoming = λ fits. ground (arith, h, fits);
  uncollectible = λ fits. ground (arith, h, fits);
}

pub update_caller_state-IsUnprivileged :
    (caller : Principal) (cycles now_ms : ℕ) (s : State)
    → IsUnprivileged s (update_caller_state caller cycles now_ms s)
unfolding update_caller_state is_allowed
update_caller_state-IsUnprivileged caller cycles now_ms s =
    elim (Option-cases (lookup caller s.callers)) [
      | inl unknown ↦ rw (unknown, update_caller_state) (IsUnprivileged-refl s)
      | inr (v, known) ↦
          rw (known, update_caller_state)
            (record {
              governance = refl;
              callers = λ id. ground (
                arith,
                known,
                lookup-insert caller id (saturating_add v.0 cycles, now_ms) s.callers,
                eq_iff caller id,
              );
              incoming = λ fits. (omega arith, fits);
              uncollectible = λ fits. (omega arith, fits);
            })
    ]
