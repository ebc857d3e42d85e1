-- ===== src/Redis/Tests.antt =====
-- The theorems at a small server.
use idempotent_proxy.Prelude.{
  ℕ, ◌≡◌, refl, true, false, none, [], ◌∷◌, arith, lookup, insert, remove, ok, err,
}
use idempotent_proxy.Cache.Contract.{obtains, sets, polls, CacheLaws}
use idempotent_proxy.Redis.{
  redis_obtain, redis_rounds, redis_round, redis_polling_get, redis_set, redis_del,
}
use idempotent_proxy.Redis.Small.{Store, small_server, small_server-ServerLaws}
use idempotent_proxy.Redis.Contract.{redis_cache, redis-CacheLaws}
use idempotent_proxy.Cache.{CacherEntry, redis}
use idempotent_proxy.Cache.Histories.{History, calls, tidies, Follows, AreOrderly, after}
use idempotent_proxy.Cache.Hybrid.{hybrid_cache, hybrid_perform}
use idempotent_proxy.Cache.Refinement.{hybrid_cache-Follows}

program : Unit {0}
unfolding redis_obtain redis_round redis_rounds redis_polling_get redis_set redis_del lookup insert
    remove after hybrid_perform idempotent_proxy.Cache.hybrid_obtain
    idempotent_proxy.Cache.hybrid_set
program = tt

-- `key1` is obtained at 1000 for 100 ms.
abbrev obtained : Store
obtained = ("key1", (1100, 0 ∷ [])) ∷ []

obtain_test :
    (redis_obtain small_server 1000 "key1" 100 [] ≡ (obtained, ok true))
    × (redis_obtain small_server 1001 "key1" 100 obtained ≡ (obtained, ok false))
unfolding program
obtain_test = (refl, refl)

abbrev no_sleep : ℕ → ℕ → Store → Store
no_sleep interval counter s = s

polling_test :
    ((redis_polling_get small_server (λ c. 1002) no_sleep 1002 "key1" 10 2 obtained).1
      ≡ err "polling get cache timeout")
    × ((redis_polling_get small_server
          (λ c. 1005)
          no_sleep
          1005
          "key1"
          10
          2
          (redis_set small_server 1004 "key1" (1 ∷ 2 ∷ []) 100 obtained).0).1
        ≡ ok (1 ∷ 2 ∷ []))
    × ((redis_polling_get small_server (λ c. 1100) no_sleep 1100 "key1" 10 2 obtained).1
        ≡ err "not obtained")
unfolding program
polling_test = (refl, refl, refl)

redis-CacheLaws_example : CacheLaws (redis_cache small_server lookup)
redis-CacheLaws_example = redis-CacheLaws small_server lookup small_server-ServerLaws

-- One task obtains the key, another is refused and polls, and the response is set.
abbrev history : History
history =
    (1000, calls "key1" (obtains 100))
    ∷ (1010, calls "key1" (obtains 100))
    ∷ (1010, calls "key1" polls)
    ∷ (1020, calls "key2" (obtains 50))
    ∷ (1050, calls "key1" (sets (4 ∷ 2 ∷ []) 100))
    ∷ (1080, tidies 1070)
    ∷ (1090, calls "key1" polls)
    ∷ []

history-AreOrderly : AreOrderly (hybrid_cache small_server lookup) 0 history (redis [])
unfolding program
history-AreOrderly = omega arith

hybrid_cache-Follows_example :
    Follows (hybrid_cache small_server lookup) "key1" 0 history none (redis [])
unfolding lookup
hybrid_cache-Follows_example =
    hybrid_cache-Follows small_server lookup small_server-ServerLaws "key1" history 0 none
      (redis []) tt history-AreOrderly refl
