-- ===== src/Cache/Replies.antt =====
-- What the operations of the server's cache return, by the slot of the key.
use idempotent_proxy.Prelude.{
  ℕ, suc, ◌+◌, ◌≡◌, ◌<◌, refl, ap, ◌∙◌, String, Bool, true, false, Option, none, some, List, [],
  ◌∷◌, length, Result, ok, err, arith, u64_mod,
}
use idempotent_proxy.Memory.{MemoryCacher, polling_get}
use idempotent_proxy.Memory.Contract.{obtain_reply, set_reply, poll_reply}
use idempotent_proxy.Cache.{
  CacherEntry, memory, redis, hybrid_obtain, hybrid_polling_get, hybrid_set,
}
use idempotent_proxy.Cache.Contract.{
  Slot, live, obtains, sets, polls, spec, IsPunctual, granted, refused, stored, found, CacheLaws,
}
use idempotent_proxy.Cache.Hybrid.{
  hybrid_round, hybrid_perform, hybrid_slot, IsSoundEntry, hybrid_cache, hybrid-CacheLaws,
}
use idempotent_proxy.Redis.{Server, redis_rounds, redis_polling_get}
use idempotent_proxy.Redis.Contract.{ServerLaws}

obtain_reply-granted : (r : Result Bool String) → obtain_reply r ≡ granted → r ≡ ok true
obtain_reply-granted (ok true) h = refl
obtain_reply-granted (ok false) h = cc
obtain_reply-granted (err e) h = cc

obtain_reply-refused : (r : Result Bool String) → obtain_reply r ≡ refused → r ≡ ok false
obtain_reply-refused (ok true) h = cc
obtain_reply-refused (ok false) h = refl
obtain_reply-refused (err e) h = cc

set_reply-stored : (r : Result Bool String) → set_reply r ≡ stored → r ≡ ok true
set_reply-stored (ok true) h = refl
set_reply-stored (ok false) h = cc
set_reply-stored (err e) h = cc

poll_reply-found :
    (r : Option (Result (List ℕ) String)) (v : List ℕ) → poll_reply r ≡ found v → r ≡ some (ok v)
poll_reply-found none v h = cc
poll_reply-found (some (ok u)) v h = ground arith
poll_reply-found (some (err e)) v h = cc

module _ {S : Type 0} (server : Server S) (entry : String → S → Slot)
    (laws : ServerLaws server entry) where
  abbrev contract : CacheLaws (hybrid_cache server entry)
  contract = hybrid-CacheLaws server entry laws

  abbrev slot_at : ℕ → String → CacherEntry S → Slot
  slot_at now key w = live now (hybrid_slot server entry key w)

  pub hybrid_obtain-vacant :
      (now : ℕ) (key : String) (ttl : ℕ) (w : CacherEntry S)
      → IsSoundEntry server entry w
      → 0 < ttl
      → now + ttl < u64_mod
      → slot_at now key w ≡ none
      → ((hybrid_obtain server now key ttl w).1 ≡ ok true)
        × IsSoundEntry server entry (hybrid_obtain server now key ttl w).0
        × (slot_at now key (hybrid_obtain server now key ttl w).0 ≡ some (now + ttl, []))
  unfolding hybrid_perform spec
  hybrid_obtain-vacant now key ttl w sound positive fits vacant = (
    obtain_reply-granted _ (
        contract.reply-perform now key (obtains ttl) w sound (positive, fits) tt
        ∙ ap (λ (s : Slot). (spec now (obtains ttl) s).1) vacant),
    contract.perform-IsSound now key (obtains ttl) w sound (positive, fits) tt,
    contract.slot-perform now key (obtains ttl) w sound (positive, fits) tt
        ∙ ap (λ (s : Slot). (spec now (obtains ttl) s).0) vacant,
  )

  pub hybrid_obtain-held :
      (now : ℕ) (key : String) (ttl d : ℕ) (v : List ℕ) (w : CacherEntry S)
      → IsSoundEntry server entry w
      → 0 < ttl
      → now + ttl < u64_mod
      → slot_at now key w ≡ some (d, v)
      → ((hybrid_obtain server now key ttl w).1 ≡ ok false)
        × IsSoundEntry server entry (hybrid_obtain server now key ttl w).0
        × (slot_at now key (hybrid_obtain server now key ttl w).0 ≡ some (d, v))
  unfolding hybrid_perform spec
  hybrid_obtain-held now key ttl d v w sound positive fits held = (
    obtain_reply-refused _ (
        contract.reply-perform now key (obtains ttl) w sound (positive, fits) tt
        ∙ ap (λ (s : Slot). (spec now (obtains ttl) s).1) held),
    contract.perform-IsSound now key (obtains ttl) w sound (positive, fits) tt,
    contract.slot-perform now key (obtains ttl) w sound (positive, fits) tt
        ∙ ap (λ (s : Slot). (spec now (obtains ttl) s).0) held,
  )

  pub hybrid_set-held :
      (now : ℕ) (key : String) (val : List ℕ) (ttl d : ℕ) (v : List ℕ) (w : CacherEntry S)
      → IsSoundEntry server entry w
      → 1 < length val
      → 0 < ttl
      → now + ttl < u64_mod
      → slot_at now key w ≡ some (d, v)
      → ((hybrid_set server now key val ttl w).1 ≡ ok true)
        × IsSoundEntry server entry (hybrid_set server now key val ttl w).0
        × (slot_at now key (hybrid_set server now key val ttl w).0 ≡ some (now + ttl, val))
  unfolding hybrid_perform spec
  hybrid_set-held now key val ttl d v w sound long positive fits held =
      let punctual : IsPunctual (sets val ttl) (slot_at now key w) = rw held tt in
      (
        set_reply-stored _ (permitted punctual),
        contract.perform-IsSound now key (sets val ttl) w sound (long, positive, fits) punctual,
        contract.slot-perform now key (sets val ttl) w sound (long, positive, fits) punctual
            ∙ ap (λ (s : Slot). (spec now (sets val ttl) s).0) held,
      )
    where
      permitted :
          IsPunctual (sets val ttl) (slot_at now key w)
          → set_reply (hybrid_set server now key val ttl w).1 ≡ stored
      permitted punctual =
          rw held at
            (contract.reply-perform now key (sets val ttl) w sound (long, positive, fits) punctual)

  hybrid_round-held :
      (now : ℕ) (key : String) (d b : ℕ) (v : List ℕ) (w : CacherEntry S)
      → IsSoundEntry server entry w
      → slot_at now key w ≡ some (d, b ∷ v)
      → (hybrid_round server entry now key w).1 ≡ some (ok (b ∷ v))
  unfolding hybrid_perform spec
  hybrid_round-held now key d b v w sound held =
      poll_reply-found _ (b ∷ v) (rw held at (contract.reply-perform now key polls w sound tt tt))

  -- A poll that finds a value returns it.
  pub hybrid_polling_get-held :
      (clock : ℕ → ℕ) (sleep_memory : ℕ → ℕ → MemoryCacher → MemoryCacher)
      (sleep_redis : ℕ → ℕ → S → S) (now : ℕ) (key : String) (interval n d b : ℕ) (v : List ℕ)
      (w : CacherEntry S)
      → IsSoundEntry server entry w
      → slot_at (clock (suc n)) key w ≡ some (d, b ∷ v)
      → (hybrid_polling_get server clock sleep_memory sleep_redis now key interval (suc n) w).1
        ≡ ok (b ∷ v)
  unfolding hybrid_polling_get polling_get redis_polling_get redis_rounds
  hybrid_polling_get-held clock sleep_memory sleep_redis now key interval n d b v (memory s) sound
        held =
      rw (hybrid_round-held (clock (suc n)) key d b v (memory s) sound held, polling_get) refl
  hybrid_polling_get-held clock sleep_memory sleep_redis now key interval n d b v (redis s) sound
        held =
      rw (laws.acquires now s, redis_polling_get)
        (rw (hybrid_round-held (clock (suc n)) key d b v (redis s) sound held, redis_rounds) refl)

  -- A poll of no rounds returns nothing.
  pub hybrid_polling_get-never :
      (clock : ℕ → ℕ) (sleep_memory : ℕ → ℕ → MemoryCacher → MemoryCacher)
      (sleep_redis : ℕ → ℕ → S → S) (now : ℕ) (key : String) (interval : ℕ) (w : CacherEntry S)
      → (hybrid_polling_get server clock sleep_memory sleep_redis now key interval 0 w).1
        ≡ err "polling get cache timeout"
  unfolding hybrid_polling_get polling_get redis_polling_get redis_rounds
  hybrid_polling_get-never clock sleep_memory sleep_redis now key interval (memory s) = refl
  hybrid_polling_get-never clock sleep_memory sleep_redis now key interval (redis s) =
      rw (laws.acquires now s, redis_polling_get) refl
