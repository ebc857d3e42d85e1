-- ===== src/Cache/Hybrid.antt =====
-- The cache that is one of two keeps the contract, since both do.
use idempotent_proxy.Prelude.{ℕ, ◌≡◌, ◌≢◌, ◌≤◌, refl, String, List, Option, Result}
use idempotent_proxy.Cache.Contract.{
  IsTimely, IsPunctual, Permits, live, spec, Slot, Call, obtains, sets, dels, polls, Reply, Cache,
  CacheLaws,
}
use idempotent_proxy.Memory.{MemoryCacher, polling_round, run_cleaner}
use idempotent_proxy.Memory.Contract.{
  obtain_reply, set_reply, del_reply, poll_reply, memory_cache, memory-CacheLaws, perform,
}
use idempotent_proxy.Redis.{Server, redis_round}
use idempotent_proxy.Redis.Contract.{ServerLaws, redis_cache, redis-CacheLaws, redis_perform}
use idempotent_proxy.Cache.{
  CacherEntry, memory, redis, in_memory, in_redis, hybrid_obtain, hybrid_set, hybrid_del,
}

module _ {S : Type 0} (server : Server S) (entry : String → S → Slot) where
  -- A round of `polling_get`.
  abbrev pub hybrid_round :
      ℕ → String → CacherEntry S → CacherEntry S × Option (Result (List ℕ) String)
  hybrid_round now k (memory s) = in_memory (polling_round now k s)
  hybrid_round now k (redis s) = in_redis (redis_round server now k s)

  unfoldable pub hybrid_perform : ℕ → String → Call → CacherEntry S → CacherEntry S × Reply
  hybrid_perform now k (obtains ttl) w =
      let (w', r) = hybrid_obtain server now k ttl w in (w', obtain_reply r)
  hybrid_perform now k (sets val ttl) w =
      let (w', r) = hybrid_set server now k val ttl w in (w', set_reply r)
  hybrid_perform now k dels w = let (w', r) = hybrid_del server now k w in (w', del_reply r)
  hybrid_perform now k polls w = let (w', r) = hybrid_round now k w in (w', poll_reply r)

  abbrev pub hybrid_tidy : ℕ → CacherEntry S → CacherEntry S
  hybrid_tidy now (memory s) = memory (run_cleaner now s)
  hybrid_tidy now (redis s) = redis s

  abbrev pub hybrid_slot : String → CacherEntry S → Slot
  hybrid_slot k (memory s) = memory_cache.slot k s
  hybrid_slot k (redis s) = (redis_cache server entry).slot k s

  abbrev pub IsSoundEntry : CacherEntry S → Type 0
  IsSoundEntry (memory s) = memory_cache.IsSound s
  IsSoundEntry (redis s) = Unit

  abbrev pub hybrid_cache : Cache (CacherEntry S)
  hybrid_cache = record {
    perform = hybrid_perform;
    tidy = hybrid_tidy;
    slot = hybrid_slot;
    IsSound = IsSoundEntry;
  }

  perform-memory :
      (now : ℕ) (k : String) (call : Call) (s : MemoryCacher)
      → hybrid_perform now k call (memory s) ≡ in_memory (perform now k call s)
  unfolding hybrid_perform hybrid_obtain hybrid_set hybrid_del perform
  perform-memory now k (obtains ttl) s = refl
  perform-memory now k (sets val ttl) s = refl
  perform-memory now k dels s = refl
  perform-memory now k polls s = refl

  perform-redis :
      (now : ℕ) (k : String) (call : Call) (s : S)
      → hybrid_perform now k call (redis s) ≡ in_redis (redis_perform server now k call s)
  unfolding hybrid_perform hybrid_obtain hybrid_set hybrid_del redis_perform
  perform-redis now k (obtains ttl) s = refl
  perform-redis now k (sets val ttl) s = refl
  perform-redis now k dels s = refl
  perform-redis now k polls s = refl

  module _ (laws : ServerLaws server entry) where
    abbrev by_redis : CacheLaws (redis_cache server entry)
    by_redis = redis-CacheLaws server entry laws

    perform-IsSoundEntry :
        (now : ℕ) (k : String) (call : Call) (w : CacherEntry S)
        → IsSoundEntry w
        → IsTimely now call
        → IsPunctual call (live now (hybrid_slot k w))
        → IsSoundEntry (hybrid_perform now k call w).0
    perform-IsSoundEntry now k call (memory s) h t p =
        rw (perform-memory now k call s) (memory-CacheLaws.perform-IsSound now k call s h t p)
    perform-IsSoundEntry now k call (redis s) h t p = rw (perform-redis now k call s) (tt)

    slot-hybrid_perform :
        (now : ℕ) (k : String) (call : Call) (w : CacherEntry S)
        → IsSoundEntry w
        → IsTimely now call
        → IsPunctual call (live now (hybrid_slot k w))
        → live now (hybrid_slot k (hybrid_perform now k call w).0)
          ≡ (spec now call (live now (hybrid_slot k w))).0
    slot-hybrid_perform now k call (memory s) h t p =
        rw (perform-memory now k call s) (memory-CacheLaws.slot-perform now k call s h t p)
    slot-hybrid_perform now k call (redis s) h t p =
        rw (perform-redis now k call s) (by_redis.slot-perform now k call s h t p)

    reply-hybrid_perform :
        (now : ℕ) (k : String) (call : Call) (w : CacherEntry S)
        → IsSoundEntry w
        → IsTimely now call
        → IsPunctual call (live now (hybrid_slot k w))
        → Permits call
            (live now (hybrid_slot k w))
            (spec now call (live now (hybrid_slot k w))).1
            (hybrid_perform now k call w).1
    reply-hybrid_perform now k call (memory s) h t p =
        rw (perform-memory now k call s) (memory-CacheLaws.reply-perform now k call s h t p)
    reply-hybrid_perform now k call (redis s) h t p =
        rw (perform-redis now k call s) (by_redis.reply-perform now k call s h t p)

    slot-hybrid_perform_other :
        (now : ℕ) (k j : String) (call : Call) (w : CacherEntry S)
        → IsSoundEntry w
        → IsTimely now call
        → k ≢ j
        → live now (hybrid_slot j (hybrid_perform now k call w).0) ≡ live now (hybrid_slot j w)
    slot-hybrid_perform_other now k j call (memory s) h t p =
        rw (perform-memory now k call s) (memory-CacheLaws.slot-perform_other now k j call s h t p)
    slot-hybrid_perform_other now k j call (redis s) h t p =
        rw (perform-redis now k call s) (by_redis.slot-perform_other now k j call s h t p)

    tidy-IsSoundEntry :
        (now : ℕ) (w : CacherEntry S) → IsSoundEntry w → IsSoundEntry (hybrid_tidy now w)
    tidy-IsSoundEntry now (memory s) h = memory-CacheLaws.tidy-IsSound now s h
    tidy-IsSoundEntry now (redis s) h = tt

    slot-hybrid_tidy :
        (older now : ℕ) (k : String) (w : CacherEntry S)
        → IsSoundEntry w
        → older ≤ now
        → live now (hybrid_slot k (hybrid_tidy older w)) ≡ live now (hybrid_slot k w)
    slot-hybrid_tidy older now k (memory s) h le = memory-CacheLaws.slot-tidy older now k s h le
    slot-hybrid_tidy older now k (redis s) h le = refl

    -- Whichever of the two it is, the cache keeps the contract, where the Redis server can be
    -- reached and does as Redis documents.
    pub hybrid-CacheLaws : CacheLaws hybrid_cache
    hybrid-CacheLaws = record {
      perform-IsSound = perform-IsSoundEntry;
      slot-perform = slot-hybrid_perform;
      reply-perform = reply-hybrid_perform;
      slot-perform_other = slot-hybrid_perform_other;
      tidy-IsSound = tidy-IsSoundEntry;
      slot-tidy = slot-hybrid_tidy;
    }
