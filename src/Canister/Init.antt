-- ===== src/Canister/Init.antt =====
-- idempotent-proxy-canister/src/init.rs: the arguments of installation and upgrade.
--
-- A trap is `none`. The timers that both functions set are left out.
pub mod Settings
use idempotent_proxy.Prelude.{ℕ, String, Option, none, some, if◌then◌else◌, leb, ltb}
use idempotent_proxy.Canister.Types.{CoseClient, State}
use idempotent_proxy.Canister.Store.{load}

pub record InitArgs : Type 0 where
  pub ecdsa_key_name : String
  pub proxy_token_refresh_interval : ℕ
  pub subnet_size : ℕ
  pub service_fee : ℕ
  pub cose : Option CoseClient

pub record UpgradeArgs : Type 0 where
  pub proxy_token_refresh_interval : Option ℕ
  pub subnet_size : Option ℕ
  pub service_fee : Option ℕ
  pub cose : Option CoseClient

pub data ChainArgs : Type 0 where
  init_args : InitArgs → ChainArgs
  upgrade_args : UpgradeArgs → ChainArgs

-- `init`, from the state at its start.
unfoldable pub init : Option ChainArgs → State → Option State
init none s = none
init (some (upgrade_args a)) s = none
init (some (init_args a)) s = some (record s {
  ecdsa_key_name = a.ecdsa_key_name;
  subnet_size = a.subnet_size;
  proxy_token_refresh_interval =
      if leb 10 a.proxy_token_refresh_interval then a.proxy_token_refresh_interval else 3600;
  service_fee = if ltb 0 a.service_fee then a.service_fee else 100_000_000;
  cose = a.cose;
})

abbrev pub or_else {ℓ} : {A : Type ℓ} → Option A → A → A
or_else none d = d
or_else (some a) d = a

-- The assignments for `UpgradeArgs`, after the check of the interval.
unfoldable pub upgrade : UpgradeArgs → State → State
upgrade a s = record s {
  proxy_token_refresh_interval =
      or_else a.proxy_token_refresh_interval s.proxy_token_refresh_interval;
  subnet_size = or_else a.subnet_size s.subnet_size;
  service_fee = or_else a.service_fee s.service_fee;
  cose = elim a.cose [ none ↦ s.cose | some c ↦ some c ];
}

-- `post_upgrade`, from the state in stable memory.
unfoldable pub post_upgrade : Option ChainArgs → State → Option State
unfolding upgrade
post_upgrade none s = some (load s)
post_upgrade (some (init_args a)) s = none
post_upgrade (some (upgrade_args a)) s =
    if ltb (or_else a.proxy_token_refresh_interval 10) 10 then none else some (upgrade a (load s))
