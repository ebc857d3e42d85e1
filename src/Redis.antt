-- ===== src/Redis.antt =====
-- idempotent-proxy-server/src/cache/redis.rs: the cache on a Redis server.
--
-- The connection pool and the server are other programs: `Server` is what the code calls of them,
-- on a type `S` of the server's states, at the time when the server answers. An `err` is what
-- `map_err(err_string)` makes of an error of theirs. `RedisClient::new`, in Config/Start, only
-- configures the pool.
pub mod Contract
pub mod Failures
pub mod Small
mod Tests
use idempotent_proxy.Prelude.{
  ℕ, zero, suc, String, Bool, true, false, Option, none, some, List, [], ◌∷◌, ltb, if◌then◌else◌,
  length, Result, ok, err,
}

-- `SetCondition`, but for its default.
pub data SetCondition : Type 0 where
  nx xx : SetCondition

pub record Server (S : Type 0) : Type 0 where
  -- `pool.get()`
  pub acquire : ℕ → S → Result (Unit {0}) String
  -- The options are a condition and an expiration `Px`; the last one of the call is `false`.
  pub set_with_options : ℕ → String → List ℕ → SetCondition → ℕ → S → S × Result Bool String
  pub get : ℕ → String → S → S × Result (Option (List ℕ)) String
  pub del : ℕ → String → S → S × Result ℕ String

-- The value of a key that is obtained and has no response yet.
abbrev pub placeholder : List ℕ
placeholder = 0 ∷ []

module _ {S : Type 0} (server : Server S) where
  unfoldable pub redis_obtain : ℕ → String → ℕ → S → S × Result Bool String
  redis_obtain now key ttl s = elim (server.acquire now s) [
    | err e ↦ (s, err e)
    | ok conn ↦ server.set_with_options now key placeholder nx ttl s
  ]

  -- One round of the loop of `polling_get`: an answer, or `none` to sleep and try again.
  unfoldable pub redis_round : ℕ → String → S → S × Option (Result (List ℕ) String)
  redis_round now key s =
      let (s', res) = server.get now key s in
      elim res [
        | err e ↦ (s', some (err e))
        | ok none ↦ (s', some (err "not obtained"))
        | ok (some bs) ↦ (s', if ltb 1 (length bs) then some (ok bs) else none)
      ]

  -- The loop, by the value of `counter`. `clock` gives the time of a round, and `sleep` what other
  -- clients make of the server's state before the next one.
  unfoldable pub redis_rounds :
      (clock : ℕ → ℕ) (sleep : ℕ → ℕ → S → S) → String → ℕ → ℕ → S → S × Result (List ℕ) String
  redis_rounds clock sleep key poll_interval zero s = (s, err "polling get cache timeout")
  redis_rounds clock sleep key poll_interval (suc counter) s =
      let (s', answer) = redis_round (clock (suc counter)) key s in
      elim answer [
        | some r ↦ (s', r)
        | none ↦ redis_rounds clock sleep key poll_interval counter (sleep poll_interval counter s')
      ]

  -- One connection serves all rounds.
  unfoldable pub redis_polling_get :
      (clock : ℕ → ℕ) (sleep : ℕ → ℕ → S → S) → ℕ → String → ℕ → ℕ → S → S × Result (List ℕ) String
  redis_polling_get clock sleep now key poll_interval counter s = elim (server.acquire now s) [
    | err e ↦ (s, err e)
    | ok conn ↦ redis_rounds clock sleep key poll_interval counter s
  ]

  unfoldable pub redis_set : ℕ → String → List ℕ → ℕ → S → S × Result Bool String
  redis_set now key val ttl s = elim (server.acquire now s) [
    | err e ↦ (s, err e)
    | ok conn ↦ server.set_with_options now key val xx ttl s
  ]

  unfoldable pub redis_del : ℕ → String → S → S × Result (Unit {0}) String
  redis_del now key s = elim (server.acquire now s) [
    | err e ↦ (s, err e)
    | ok conn ↦
        let (s', n) = server.del now key s in
        elim n [ err e ↦ (s', err e) | ok count ↦ (s', ok tt) ]
  ]
