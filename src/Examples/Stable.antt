-- ===== src/Examples/Stable.antt =====
-- examples/eth-canister/src: `Storable for State` and `STATE_STORE`, `load` and `save` of store.rs,
-- and `pre_upgrade` and `post_upgrade` of init.rs.
use idempotent_proxy.Prelude.{◌≡◌, refl, Option, none, some, List, [], ◌∷◌, All, arith}
use idempotent_proxy.Canister.Upgrade.{Stable}
use idempotent_proxy.Canister.Upgrade.Histories.{StableLaws}
use idempotent_proxy.Examples.State.{
  EthState, EthArgs, init_args, upgrade_args, default_eth_state, post_upgrade,
}

module _ (stable : Stable EthState) where
  -- `STATE_STORE`: the memory, and the value that the cell keeps of it.
  pub record EthStore : Type 0 where
    pub memory : stable.Memory
    pub value : EthState

  unfoldable to_bytes : EthState → Option stable.Bytes
  to_bytes s = stable.into_writer s

  unfoldable from_bytes : stable.Bytes → Option EthState
  from_bytes bytes = stable.from_reader bytes

  -- The cell with a new value.
  set_cell : EthState → stable.Memory → Option EthStore
  unfolding to_bytes
  set_cell s memory = elim (to_bytes s) [
    | none ↦ none
    | some bytes ↦ elim (stable.write bytes memory) [
      | none ↦ none
      | some memory' ↦ some (record { memory = memory'; value = s })
    ]
  ]

  -- The initial value of `STATE_STORE` in a new program.
  unfoldable open_store : stable.Memory → Option EthStore
  unfolding set_cell from_bytes
  open_store memory = elim (stable.read memory) [
    | none ↦ set_cell default_eth_state memory
    | some bytes ↦ elim (from_bytes bytes) [
      | none ↦ none
      | some s ↦ some (record { memory = memory; value = s })
    ]
  ]

  -- `save`, of the state `STATE`.
  unfoldable save : EthState → EthStore → Option EthStore
  unfolding set_cell
  save s store = set_cell s store.memory

  -- `load`: the new `STATE`.
  unfoldable load : EthStore → EthState
  load store = store.value

  -- An upgrade: `pre_upgrade` of the old program, and `post_upgrade` of the new one, which only
  -- has the memory.
  unfoldable pub upgrade_eth : Option EthArgs → EthState × EthStore → Option (EthState × EthStore)
  unfolding save open_store load
  upgrade_eth args (s, store) = elim (save s store) [
    | none ↦ none
    | some saved ↦ elim (open_store saved.memory) [
      | none ↦ none
      | some opened ↦ elim (post_upgrade args (load opened)) [
        | none ↦ none
        | some s' ↦ some (s', opened)
      ]
    ]
  ]

  -- One upgrade after another.
  abbrev pub eth_upgrades :
      List (Option EthArgs) → EthState × EthStore → Option (EthState × EthStore)
  eth_upgrades [] c = some c
  eth_upgrades (args ∷ later) c = elim (upgrade_eth args c) [
    | none ↦ none
    | some c' ↦ eth_upgrades later c'
  ]

-- Arguments that an upgrade accepts.
abbrev pub IsEthUpgrade : Option EthArgs → Type 0
IsEthUpgrade none = Unit
IsEthUpgrade (some upgrade_args) = Unit
IsEthUpgrade (some (init_args key_name)) = ⊥

module _ (stable : Stable EthState) (laws : StableLaws stable) where
  -- What is saved is what the new program opens.
  save-open_store :
      (s : EthState) (store : EthStore stable)
      → (saved : EthStore stable) × (save stable s store ≡ some saved)
        × (open_store stable saved.memory ≡ some saved)
        × (saved.value ≡ s)
  unfolding save open_store set_cell to_bytes from_bytes
  save-open_store s store =
      let (bytes, encoded) = laws.encodes s in
      let (memory, written, held) = laws.writes bytes store.memory in
      let decoded = laws.decodes s bytes encoded in
      (
        record { memory = memory; value = s },
        ground (arith, encoded, written),
        ground (arith, held, decoded),
        refl,
      )

  post_upgrade-keeps :
      (args : Option EthArgs) (s : EthState) → IsEthUpgrade args → post_upgrade args s ≡ some s
  unfolding post_upgrade
  post_upgrade-keeps none s fits = refl
  post_upgrade-keeps (some upgrade_args) s fits = refl
  post_upgrade-keeps (some (init_args key_name)) s fits = absurd fits

  upgrade_eth-keeps :
      (args : Option EthArgs) (s : EthState) (store : EthStore stable)
      → IsEthUpgrade args
      → (store' : EthStore stable) × (upgrade_eth stable args (s, store) ≡ some (s, store'))
  unfolding upgrade_eth load
  upgrade_eth-keeps args s store fits =
      let (saved, stored, opened, same) = save-open_store s store in
      let upgraded : post_upgrade args saved.value ≡ some s =
        rw same (post_upgrade-keeps args s fits) in
      (saved, rw (stored, upgrade_eth) (rw opened (rw upgraded refl)))

  -- The example keeps its state through upgrades: where stable memory has room, holds what is
  -- written and gives each state back as it was encoded, upgrades without arguments or with those
  -- of an upgrade never trap, however many there are, and leave the key's name, the public key
  -- and the agents with their tokens as they are.
  pub eth_upgrades-keep :
      (all : List (Option EthArgs)) (s : EthState) (store : EthStore stable)
      → All IsEthUpgrade all
      → (store' : EthStore stable) × (eth_upgrades stable all (s, store) ≡ some (s, store'))
  eth_upgrades-keep [] s store fit = (store, refl)
  eth_upgrades-keep (args ∷ later) s store (fits, fit) =
      let (between, through) = upgrade_eth-keeps args s store fits in
      let (store', rest) = eth_upgrades-keep later s between fit in
      (store', rw (through, eth_upgrades) rest)
