-- ===== src/Canister/Upgrade/Tests.antt =====
-- Two upgrades of a small canister, and the theorem at them.
use idempotent_proxy.Prelude.{◌≡◌, refl, sym, Option, none, some, List, [], ◌∷◌, arith}
use idempotent_proxy.Canister.Types.{State}
use idempotent_proxy.Canister.Init.{ChainArgs, UpgradeArgs, upgrade_args}
use idempotent_proxy.Canister.Upgrade.{Stable, StateStore, default_state}
use idempotent_proxy.Canister.Upgrade.Histories.{StableLaws, upgrades, IsKept, upgrades-IsKept}

-- A memory of one cell, where the bytes of a state stand for it.
abbrev small_stable : Stable State
small_stable = record {
  Bytes = State;
  into_writer = some;
  from_reader = some;
  Memory = Option State;
  write = λ bytes m. some (some bytes);
  read = λ m. m;
}

small_stable-Laws : StableLaws small_stable
small_stable-Laws = record {
  encodes = λ s. (s, refl);
  decodes = λ s bytes e. sym e;
  writes = λ bytes m. (some bytes, refl, refl);
}

abbrev state : State
state = record default_state {
  proxy_token_refresh_interval = 3600;
  allowed_callers = "old" ∷ [];
  callers = ("alice", (5, 6)) ∷ [];
  incoming_cycles = 40;
}

abbrev store : StateStore small_stable
store = record { memory = none; value = default_state }

abbrev new_settings : UpgradeArgs
new_settings = record {
  proxy_token_refresh_interval = some 10;
  subnet_size = some 34;
  service_fee = none;
  cose = none;
}

abbrev both : List (Option ChainArgs)
both = some (upgrade_args new_settings) ∷ none ∷ []

upgrades-IsKept_example :
    (s' : State) × (store' : StateStore small_stable) × (upgrades small_stable both (state, store)
      ≡ some (s', store'))
    × IsKept state s'
upgrades-IsKept_example =
    upgrades-IsKept small_stable small_stable-Laws both state store (omega arith, (tt, tt))
      (omega arith)
