-- ===== src/Redis/Failures.antt =====
-- What the Redis client returns where a call cannot be served.
use idempotent_proxy.Prelude.{ℕ, ◌<◌, ◌≡◌, refl, String, false, List, arith, ok, err, none, ◌∙◌}
use idempotent_proxy.Cache.Contract.{Slot, live, is_live}
use idempotent_proxy.Redis.{Server, xx, redis_obtain, redis_polling_get, redis_set, redis_del}
use idempotent_proxy.Redis.Contract.{ServerLaws}

module _ {S : Type 0} (server : Server S) where
  -- Without a connection every operation returns the pool's error, and the server's state stays:
  -- nothing is obtained, stored or deleted, and nobody polls.
  pub redis_unreachable :
      (now : ℕ) (s : S) (e : String)
      → server.acquire now s ≡ err e
      → (key : String) (val : List ℕ) (ttl poll_interval counter : ℕ)
      → (clock : ℕ → ℕ) (sleep : ℕ → ℕ → S → S)
      → (redis_obtain server now key ttl s ≡ (s, err e))
        × (redis_polling_get server clock sleep now key poll_interval counter s ≡ (s, err e))
        × (redis_set server now key val ttl s ≡ (s, err e))
        × (redis_del server now key s ≡ (s, err e))
  unfolding redis_obtain redis_polling_get redis_set redis_del
  redis_unreachable now s e down key val ttl poll_interval counter clock sleep = (
    rw (down, redis_obtain) refl,
    rw (down, redis_polling_get) refl,
    rw (down, redis_set) refl,
    rw (down, redis_del) refl,
  )

  -- A `set` of a key that is not held any more stores nothing, and is no error.
  pub redis_late_set :
      (entry : String → S → Slot) (now : ℕ) (k j : String) (val : List ℕ) (ttl : ℕ) (s : S)
      → ServerLaws server entry
      → 0 < ttl
      → live now (entry k s) ≡ none
      → ((redis_set server now k val ttl s).1 ≡ ok false)
        × (live now (entry j (redis_set server now k val ttl s).0) ≡ live now (entry j s))
  unfolding redis_set
  redis_late_set entry now k j val ttl s laws pos gone =
      let late : is_live now (entry k s) ≡ false = not_live (entry k s) gone in
      (
        rw (laws.acquires now s, redis_set)
            (rw (laws.set-result now k val xx ttl s pos) (rw late refl)),
        rw (laws.acquires now s, redis_set)
            (laws.entry-set now k j val xx ttl s pos ∙ ground arith),
      )
    where
      not_live : (e : Slot) → live now e ≡ none → is_live now e ≡ false
      not_live e h = ground arith
