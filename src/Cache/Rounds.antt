-- ===== src/Cache/Rounds.antt =====
-- The rounds of a poll of the server's cache whose key is held without a value.
use idempotent_proxy.Prelude.{
  ℕ, zero, suc, ◌≡◌, refl, ap, ◌∙◌, String, Option, none, some, List, [], Result, ok, err,
}
use idempotent_proxy.Memory.{MemoryCacher, polling_get}
use idempotent_proxy.Memory.Contract.{poll_reply}
use idempotent_proxy.Cache.{CacherEntry, memory, redis, in_memory, in_redis, hybrid_polling_get}
use idempotent_proxy.Cache.Contract.{Slot, live, polls, spec, waiting, CacheLaws}
use idempotent_proxy.Cache.Hybrid.{
  hybrid_round, hybrid_perform, hybrid_slot, IsSoundEntry, hybrid_cache, hybrid-CacheLaws,
}
use idempotent_proxy.Redis.{Server, redis_rounds, redis_polling_get}
use idempotent_proxy.Redis.Contract.{ServerLaws}

-- `m + 2` rounds and `j` more, counted as a poll counts them.
abbrev pub rounds_left : ℕ → ℕ → ℕ
rounds_left m zero = suc (suc m)
rounds_left m (suc j) = suc (rounds_left m j)

poll_reply-waiting : (r : Option (Result (List ℕ) String)) → poll_reply r ≡ waiting → r ≡ none
poll_reply-waiting none h = refl
poll_reply-waiting (some (ok v)) h = cc
poll_reply-waiting (some (err e)) h = cc

module _ {S : Type 0} (server : Server S) (entry : String → S → Slot)
    (laws : ServerLaws server entry) where
  abbrev contract : CacheLaws (hybrid_cache server entry)
  contract = hybrid-CacheLaws server entry laws

  -- A round of a poll whose key has no value finds nothing, and leaves the slot.
  pub hybrid_round-waits :
      (now : ℕ) (key : String) (d : ℕ) (w : CacherEntry S)
      → IsSoundEntry server entry w
      → live now (hybrid_slot server entry key w) ≡ some (d, [])
      → ((hybrid_round server entry now key w).1 ≡ none)
        × IsSoundEntry server entry (hybrid_round server entry now key w).0
        × (live now (hybrid_slot server entry key (hybrid_round server entry now key w).0)
            ≡ some (d, []))
  unfolding hybrid_perform spec
  hybrid_round-waits now key d w sound held = (
    poll_reply-waiting _ (rw held at (contract.reply-perform now key polls w sound tt tt)),
    contract.perform-IsSound now key polls w sound tt tt,
    contract.slot-perform now key polls w sound tt tt
        ∙ ap (λ (s : Slot). (spec now polls s).0) held,
  )

  module _ (clock : ℕ → ℕ) (sleep_memory : ℕ → ℕ → MemoryCacher → MemoryCacher)
      (sleep_redis : ℕ → ℕ → S → S) (key : String) (interval : ℕ) where
    -- A sleep of a poll, in the cache that it is.
    abbrev pub hybrid_sleep : ℕ → CacherEntry S → CacherEntry S
    hybrid_sleep c (memory s) = memory (sleep_memory interval c s)
    hybrid_sleep c (redis s) = redis (sleep_redis interval c s)

    -- The rounds of `polling_get`, once a connection is there.
    abbrev pub hybrid_rounds : ℕ → CacherEntry S → CacherEntry S × Result (List ℕ) String
    hybrid_rounds n (memory s) = in_memory (polling_get clock sleep_memory key interval n s)
    hybrid_rounds n (redis s) = in_redis (redis_rounds server clock sleep_redis key interval n s)

    pub hybrid_polling_get-rounds :
        (now n : ℕ) (w : CacherEntry S)
        → hybrid_polling_get server clock sleep_memory sleep_redis now key interval n w
          ≡ hybrid_rounds n w
    unfolding hybrid_polling_get redis_polling_get
    hybrid_polling_get-rounds now n (memory s) = refl
    hybrid_polling_get-rounds now n (redis s) = rw (laws.acquires now s, redis_polling_get) refl

    -- A round that finds nothing sleeps and goes on.
    pub hybrid_rounds_again :
        (n : ℕ) (w : CacherEntry S)
        → (hybrid_round server entry (clock (suc n)) key w).1 ≡ none
        → (hybrid_rounds (suc n) w).1
          ≡ (hybrid_rounds n (hybrid_sleep n (hybrid_round server entry (clock (suc n)) key w).0)).1
    unfolding polling_get redis_rounds
    hybrid_rounds_again n (memory s) h = rw (h, polling_get) refl
    hybrid_rounds_again n (redis s) h = rw (h, redis_rounds) refl

    -- The cache in which a poll starts the sleep that leaves it `m + 1` rounds, after `j + 1`.
    abbrev pub hybrid_asleep : ℕ → ℕ → CacherEntry S → CacherEntry S
    hybrid_asleep m zero w = (hybrid_round server entry (clock (suc (suc m))) key w).0
    hybrid_asleep m (suc j) w = hybrid_asleep m j (
        hybrid_sleep (rounds_left m j)
          (hybrid_round server entry (clock (suc (rounds_left m j))) key w).0)
