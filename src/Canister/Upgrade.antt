-- ===== src/Canister/Upgrade.antt =====
-- The state in stable memory: `Storable for State` and `STATE_STORE`, `load` and `save` of
-- idempotent-proxy-canister/src/store.rs, and the hooks of init.rs.
--
-- `Stable` is what the code relies on of ciborium and of `StableCell`, for one type of states. The
-- cell's `get` after a restart decodes the bytes in stable memory, or is the default where there
-- are none. A trap is `none`.
pub mod Histories
mod Tests
use idempotent_proxy.Prelude.{Option, none, some, List, [], ◌∷◌}
use idempotent_proxy.Canister.Types.{State}
use idempotent_proxy.Canister.Init.{ChainArgs, post_upgrade}

pub record Stable (S : Type 0) : Type 1 where
  pub Bytes : Type 0
  pub into_writer : S → Option Bytes
  pub from_reader : Bytes → Option S
  -- The memory of the cell.
  pub Memory : Type 0
  pub write : Bytes → Memory → Option Memory
  pub read : Memory → Option Bytes

-- `State::default()`.
abbrev pub default_state : State
default_state = record {
  ecdsa_key_name = "";
  proxy_token_public_key = "";
  proxy_token_refresh_interval = 0;
  agents = [];
  managers = [];
  allowed_callers = [];
  callers = [];
  subnet_size = 0;
  service_fee = 0;
  incoming_cycles = 0;
  uncollectible_cycles = 0;
  cose = none;
}

module _ (stable : Stable State) where
  -- `STATE_STORE`: the memory, and the value that the cell keeps of it.
  pub record StateStore : Type 0 where
    pub memory : stable.Memory
    pub value : State

  unfoldable pub to_bytes : State → Option stable.Bytes
  to_bytes s = stable.into_writer s

  unfoldable pub from_bytes : stable.Bytes → Option State
  from_bytes bytes = stable.from_reader bytes

  unfoldable pub save : State → StateStore → Option StateStore
  unfolding to_bytes
  save s store = elim (to_bytes s) [
    | none ↦ none
    | some bytes ↦ elim (stable.write bytes store.memory) [
      | none ↦ none
      | some memory ↦ some (record { memory = memory; value = s })
    ]
  ]

  -- The initial value of `STATE_STORE` in a new program.
  unfoldable pub open_store : stable.Memory → Option StateStore
  unfolding to_bytes from_bytes
  open_store memory = elim (stable.read memory) [
    | none ↦ elim (to_bytes default_state) [
      | none ↦ none
      | some bytes ↦ elim (stable.write bytes memory) [
        | none ↦ none
        | some memory' ↦ some (record { memory = memory'; value = default_state })
      ]
    ]
    | some bytes ↦ elim (from_bytes bytes) [
      | none ↦ none
      | some s ↦ some (record { memory = memory; value = s })
    ]
  ]

  -- An upgrade: `pre_upgrade` of the old program, and `post_upgrade` of the new one, which only
  -- has the memory.
  unfoldable pub upgrade_canister :
      Option ChainArgs → State × StateStore → Option (State × StateStore)
  unfolding save open_store
  upgrade_canister args (s, store) = elim (save s store) [
    | none ↦ none
    | some saved ↦ elim (open_store saved.memory) [
      | none ↦ none
      | some opened ↦ elim (post_upgrade args opened.value) [
        | none ↦ none
        | some s' ↦ some (s', opened)
      ]
    ]
  ]
