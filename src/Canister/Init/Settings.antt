-- ===== src/Canister/Init/Settings.antt =====
-- What installation and upgrades guarantee of the settings.
use idempotent_proxy.Prelude.{◌≡◌, ◌≤◌, ◌<◌, Option, none, some, arith}
use idempotent_proxy.Canister.Types.{State}
use idempotent_proxy.Canister.Store.{load}
use idempotent_proxy.Canister.Init.{ChainArgs, init_args, upgrade_args, init, post_upgrade}

-- Tokens are refreshed at most every ten seconds.
abbrev pub IsConfigured : State → Type 0
IsConfigured s = 10 ≤ s.proxy_token_refresh_interval

-- Whatever the arguments, an installation that does not trap leaves a refresh interval of at least
-- ten seconds and a positive fee.
pub init-IsConfigured :
    (args : Option ChainArgs) (s s' : State)
    → init args s ≡ some s'
    → IsConfigured s' × (0 < s'.service_fee)
unfolding init
init-IsConfigured none s s' h = ground arith
init-IsConfigured (some (upgrade_args a)) s s' h = ground arith
init-IsConfigured (some (init_args a)) s s' h = ground arith

-- An upgrade that does not trap keeps the refresh interval at ten seconds or more, the callers
-- that `load` gives, the agents, the managers and the cycles' counters.
pub post_upgrade-IsConfigured :
    (args : Option ChainArgs) (s s' : State)
    → IsConfigured s
    → post_upgrade args s ≡ some s'
    → IsConfigured s'
      × (s'.callers ≡ (load s).callers)
      × (s'.agents ≡ s.agents)
      × (s'.managers ≡ s.managers)
      × (s'.incoming_cycles ≡ s.incoming_cycles)
      × (s'.uncollectible_cycles ≡ s.uncollectible_cycles)
unfolding post_upgrade load
post_upgrade-IsConfigured none s s' configured h = ground arith
post_upgrade-IsConfigured (some (init_args a)) s s' configured h = ground arith
post_upgrade-IsConfigured (some (upgrade_args a)) s s' configured h = ground arith
