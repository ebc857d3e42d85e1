-- ===== src/Canister/Upgrade/Histories.antt =====
-- What a canister has after any number of upgrades.
use idempotent_proxy.Prelude.{
  ◌≡◌, ◌≤◌, refl, ◌∙◌, sym, Option, none, some, List, [], ◌∷◌, All, arith, lookup,
}
use idempotent_proxy.Canister.Types.{Principal, State}
use idempotent_proxy.Canister.Store.{load}
use idempotent_proxy.Canister.Store.Loading.{or_zeros_id, lookup-load}
use idempotent_proxy.Canister.Init.{
  ChainArgs, init_args, upgrade_args, or_else, upgrade, post_upgrade,
}
use idempotent_proxy.Canister.Init.Settings.{IsConfigured, post_upgrade-IsConfigured}
use idempotent_proxy.Canister.Upgrade.{
  Stable, StateStore, to_bytes, from_bytes, save, open_store, upgrade_canister,
}

-- The memory holds the bytes that were written last, there is room for every state, and a state
-- is decoded as it was encoded.
pub record StableLaws {S : Type 0} (stable : Stable S) : Type 0 where
  pub encodes : (s : S) → (bytes : stable.Bytes) × (stable.into_writer s ≡ some bytes)
  pub decodes :
      (s : S) (bytes : stable.Bytes)
      → stable.into_writer s ≡ some bytes
      → stable.from_reader bytes ≡ some s
  pub writes :
      (bytes : stable.Bytes) (m : stable.Memory)
      → (m' : stable.Memory) × (stable.write bytes m ≡ some m') × (stable.read m' ≡ some bytes)

-- Arguments that an upgrade accepts.
abbrev pub IsUpgrade : Option ChainArgs → Type 0
IsUpgrade none = Unit
IsUpgrade (some (init_args a)) = ⊥
IsUpgrade (some (upgrade_args a)) = 10 ≤ or_else a.proxy_token_refresh_interval 10

post_upgrade-IsUpgrade :
    (args : Option ChainArgs) (s : State)
    → IsUpgrade args
    → (s' : State) × (post_upgrade args s ≡ some s')
unfolding post_upgrade
post_upgrade-IsUpgrade none s fits = (load s, refl)
post_upgrade-IsUpgrade (some (init_args a)) s fits = absurd fits
post_upgrade-IsUpgrade (some (upgrade_args a)) s fits = (upgrade a (load s), ground (arith, fits))

post_upgrade-allowed_callers :
    (args : Option ChainArgs) (s s' : State)
    → post_upgrade args s ≡ some s'
    → s'.allowed_callers ≡ []
unfolding post_upgrade
post_upgrade-allowed_callers none s s' h = ground (arith, h, lookup-load s "")
post_upgrade-allowed_callers (some (init_args a)) s s' h = ground arith
post_upgrade-allowed_callers (some (upgrade_args a)) s s' h = ground (arith, h, lookup-load s "")

-- What upgrades keep of a state.
pub record IsKept (s s' : State) : Type 0 where
  pub configured : IsConfigured s'
  pub callers : (id : Principal) → lookup id (load s').callers ≡ lookup id (load s).callers
  pub agents : s'.agents ≡ s.agents
  pub managers : s'.managers ≡ s.managers
  pub incoming_cycles : s'.incoming_cycles ≡ s.incoming_cycles
  pub uncollectible_cycles : s'.uncollectible_cycles ≡ s.uncollectible_cycles

post_upgrade-IsKept :
    (args : Option ChainArgs) (s s' : State)
    → IsConfigured s
    → post_upgrade args s ≡ some s'
    → IsKept s s'
post_upgrade-IsKept args s s' before h =
    let (configured, callers, agents, managers, incoming, uncollectible) =
      post_upgrade-IsConfigured args s s' before h in
    record {
      configured = configured;
      callers = λ id.
          (lookup-load s' id).0
          ∙ rw (post_upgrade-allowed_callers args s s' h)
              (rw callers (sym (or_zeros_id (lookup id (load s).callers))));
      agents = agents;
      managers = managers;
      incoming_cycles = incoming;
      uncollectible_cycles = uncollectible;
    }

IsKept-trans : (s t u : State) → IsKept s t → IsKept t u → IsKept s u
IsKept-trans s t u k l = record {
  configured = l.configured;
  callers = λ id. l.callers id ∙ k.callers id;
  agents = l.agents ∙ k.agents;
  managers = l.managers ∙ k.managers;
  incoming_cycles = l.incoming_cycles ∙ k.incoming_cycles;
  uncollectible_cycles = l.uncollectible_cycles ∙ k.uncollectible_cycles;
}

module _ (stable : Stable State) where
  -- One upgrade after another.
  abbrev pub upgrades :
      List (Option ChainArgs) → State × StateStore stable → Option (State × StateStore stable)
  upgrades [] c = some c
  upgrades (args ∷ later) c = elim (upgrade_canister stable args c) [
    | none ↦ none
    | some c' ↦ upgrades later c'
  ]

  module _ (laws : StableLaws stable) where
    -- The state goes through stable memory unchanged.
    pub upgrade_canister-post_upgrade :
        (args : Option ChainArgs) (s s' : State) (store : StateStore stable)
        → post_upgrade args s ≡ some s'
        → (store' : StateStore stable) × (upgrade_canister stable args (s, store)
            ≡ some (s', store'))
    unfolding upgrade_canister save open_store to_bytes from_bytes
    upgrade_canister-post_upgrade args s s' store upgraded =
        let (bytes, encoded) = laws.encodes s in
        let (memory, written, held) = laws.writes bytes store.memory in
        let decoded = laws.decodes s bytes encoded in
        (
          record { memory = memory; value = s },
          ground (arith, encoded, written, held, decoded, upgraded),
        )

    -- Let stable memory have room, hold what is written and give each state back as it was
    -- encoded, and let the refresh interval be ten seconds or more. Then upgrades with acceptable
    -- arguments never trap, however many there are. They keep the
    -- refresh interval at ten seconds or more, the agents, the managers, the counters of the
    -- cycles, and who may call, with the counters of each caller: those on the deprecated list are
    -- callers too.
    pub upgrades-IsKept :
        (all : List (Option ChainArgs)) (s : State) (store : StateStore stable)
        → All IsUpgrade all
        → IsConfigured s
        → (s' : State) × (store' : StateStore stable) × (upgrades all (s, store)
            ≡ some (s', store'))
          × IsKept s s'
    upgrades-IsKept [] s store fit configured = (
      s,
      store,
      refl,
      record {
        configured = configured;
        callers = λ id. refl;
        agents = refl;
        managers = refl;
        incoming_cycles = refl;
        uncollectible_cycles = refl;
      },
    )
    upgrades-IsKept (args ∷ later) s store (fits, fit) configured =
        let (t, upgraded) = post_upgrade-IsUpgrade args s fits in
        let (between, through) = upgrade_canister-post_upgrade args s t store upgraded in
        let kept = post_upgrade-IsKept args s t configured upgraded in
        let (s', store', rest, kept') = upgrades-IsKept later t between fit kept.configured in
        (s', store', rw (through, upgrades) rest, IsKept-trans s t s' kept kept')
