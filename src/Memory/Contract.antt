-- ===== src/Memory/Contract.antt =====
-- The in-memory cache keeps the contract of a cache.
use idempotent_proxy.Prelude.{
  ℕ, ◌+◌, ◌<◌, ◌≤◌, ◌≡◌, ◌≢◌, refl, inl, inr, String, Bool, true, false, Option, none, some, List,
  arith, eq_iff, Option-cases, Bool-cases, ltb, u64_mod, lookup, Result, ok, err, ◌∙◌, ap,
}
use idempotent_proxy.Cache.Contract.{
  Slot, live, Call, obtains, sets, dels, polls, Reply, granted, refused, stored, missed, deleted,
  waiting, absent, failed, found, spec, Permits, IsTimely, IsPunctual, Cache, CacheLaws,
}
use idempotent_proxy.Memory.{MemoryCacher, deadline, obtain, set, del, polling_round, run_cleaner}
use idempotent_proxy.Memory.Lookups.{
  lookup-obtain, lookup-set, lookup-del, polling_round-kv, obtain-result,
}
use idempotent_proxy.Memory.Invariant.{
  IsValid, obtain-IsValid, set-IsValid, del-IsValid, polling_round-IsValid, run_cleaner-IsValid,
}
use idempotent_proxy.Memory.Held.{NoStale}
use idempotent_proxy.Memory.Fresh.{obtain-NoStale, set-NoStale, del-NoStale, polling_round-NoStale}
use idempotent_proxy.Memory.Sync.{run_cleaner-exact}

-- The results of the calls, read as replies.
abbrev pub obtain_reply : Result Bool String → Reply
obtain_reply (ok true) = granted
obtain_reply (ok false) = refused
obtain_reply (err e) = failed

abbrev pub set_reply : Result Bool String → Reply
set_reply (ok true) = stored
set_reply (ok false) = missed
set_reply (err e) = failed

abbrev pub del_reply : Result (Unit {0}) String → Reply
del_reply (ok done) = deleted
del_reply (err e) = failed

abbrev pub poll_reply : Option (Result (List ℕ) String) → Reply
poll_reply none = waiting
poll_reply (some (ok value)) = found value
poll_reply (some (err e)) = absent

unfoldable pub perform : ℕ → String → Call → MemoryCacher → MemoryCacher × Reply
perform now k (obtains ttl) s = let (s', r) = obtain now k ttl s in (s', obtain_reply r)
perform now k (sets val ttl) s = let (s', r) = set now k val ttl s in (s', set_reply r)
perform now k dels s = let (s', r) = del k s in (s', del_reply r)
perform now k polls s = let (s', r) = polling_round now k s in (s', poll_reply r)

-- No key has a stale entry in the queue.
pub record IsClean (s : MemoryCacher) : Type 0 where
  pub valid : IsValid s
  pub fresh : (k : String) → NoStale k s

abbrev pub memory_cache : Cache MemoryCacher
memory_cache = record {
  perform = perform;
  tidy = run_cleaner;
  slot = λ k s. lookup k s.kv;
  IsSound = IsClean;
}

deadline_exact : (now ttl : ℕ) → now + ttl < u64_mod → deadline now ttl ≡ now + ttl
unfolding deadline
deadline_exact now ttl h = omega arith

module _ (now : ℕ) (k : String) (s : MemoryCacher) where
  perform-IsClean :
      (call : Call)
      → IsClean s
      → IsPunctual call (live now (lookup k s.kv))
      → IsClean (perform now k call s).0
  unfolding perform
  perform-IsClean (obtains ttl) h p = record {
    valid = obtain-IsValid h.valid now k ttl;
    fresh = λ j. obtain-NoStale k j s (h.fresh k) (h.fresh j) now ttl;
  }
  perform-IsClean (sets val ttl) h p = elim (Option-cases (lookup k s.kv)) [
    | inl vacant ↦ absurd (rw vacant at p)
    | inr ((d, v), there) ↦ elim (Bool-cases (ltb now d)) [
      | inr late ↦ absurd (rw late at (rw there at p))
      | inl held ↦ record {
        valid = set-IsValid h.valid now k val ttl;
        fresh = λ j. set-NoStale k j s (h.fresh k) (h.fresh j) now val ttl d v there (ground arith);
      }
    ]
  ]
  perform-IsClean dels h p = record {
    valid = del-IsValid h.valid k;
    fresh = λ j. del-NoStale k j s (h.fresh k) (h.fresh j);
  }
  perform-IsClean polls h p = record {
    valid = polling_round-IsValid h.valid now k;
    fresh = λ j. polling_round-NoStale k j s (h.fresh k) (h.fresh j) now;
  }

  lookup-perform :
      (call : Call)
      → IsTimely now call
      → IsPunctual call (live now (lookup k s.kv))
      → live now (lookup k (perform now k call s).0.kv)
        ≡ (spec now call (live now (lookup k s.kv))).0
  unfolding perform spec
  lookup-perform (obtains ttl) t p =
      ground (arith, eq_iff k k, lookup-obtain now k ttl s k, deadline_exact now ttl)
  lookup-perform (sets val ttl) t p =
      ground (arith, eq_iff k k, lookup-set now k val ttl s k, deadline_exact now ttl)
  lookup-perform dels t p = ground (arith, eq_iff k k, lookup-del k s k)
  lookup-perform polls t p = ground (arith, polling_round-kv k s now)

  reply-perform :
      (call : Call)
      → IsPunctual call (live now (lookup k s.kv))
      → Permits call
          (live now (lookup k s.kv))
          (spec now call (live now (lookup k s.kv))).1
          (perform now k call s).1
  unfolding perform spec set del polling_round
  reply-perform (obtains ttl) p = ground (arith, obtain-result now k ttl s)
  reply-perform (sets val ttl) p = elim (Option-cases (lookup k s.kv)) [
    | inl vacant ↦ absurd (rw vacant at p)
    | inr ((d, v), there) ↦ elim (Bool-cases (ltb now d)) [
      | inr late ↦ absurd (rw late at (rw there at p))
      | inl held ↦ ground arith
    ]
  ]
  reply-perform dels p = ground arith
  reply-perform polls p = elim (Option-cases (lookup k s.kv)) [
    | inl vacant ↦ rw (vacant, polling_round) tt
    | inr ((d, v), there) ↦ elim (Bool-cases (ltb now d)) [
      | inr late ↦ rw (there, polling_round) (rw late tt)
      | inl held ↦ rw (there, polling_round) (rw held (ground arith))
    ]
  ]

  lookup-perform_other :
      (j : String) (call : Call) → k ≢ j → lookup j (perform now k call s).0.kv ≡ lookup j s.kv
  unfolding perform
  lookup-perform_other j (obtains ttl) ne = ground (arith, eq_iff k j, lookup-obtain now k ttl s j)
  lookup-perform_other j (sets val ttl) ne =
      ground (arith, eq_iff k j, lookup-set now k val ttl s j)
  lookup-perform_other j dels ne = ground (arith, eq_iff k j, lookup-del k s j)
  lookup-perform_other j polls ne = ap (lookup j) (polling_round-kv k s now)

live-live : (older now : ℕ) (slot : Slot) → older ≤ now → live now (live older slot) ≡ live now slot
live-live older now none h = refl
live-live older now (some (d, v)) h = ground arith

-- The in-memory cache keeps the contract: on a valid cache with no stale entry of any key, each
-- call of a timely time to live and each `set` of a held key changes the slot of its key as `spec`
-- does, replies what `spec` permits, and leaves the other keys' slots; a cleaner leaves every slot
-- that has not expired; and both leave a valid cache with no stale entry.
pub memory-CacheLaws : CacheLaws memory_cache
memory-CacheLaws = record {
  perform-IsSound = λ now k call s h t p. perform-IsClean now k s call h p;
  slot-perform = λ now k call s h t p. lookup-perform now k s call t p;
  reply-perform = λ now k call s h t p. reply-perform now k s call p;
  slot-perform_other =
      λ now k j call s h t ne. ap (live now) (lookup-perform_other now k s j call ne);
  tidy-IsSound = λ now s h. record {
    valid = run_cleaner-IsValid h.valid now;
    fresh = λ k. (run_cleaner-exact now k s h.valid (h.fresh k)).1;
  };
  slot-tidy = λ older now k s h le.
      ap (live now) (run_cleaner-exact older k s h.valid (h.fresh k)).0
      ∙ live-live older now (lookup k s.kv) le;
}
