-- ===== src/Redis/Contract.antt =====
-- The Redis client keeps the contract of a cache, where the server answers.
use idempotent_proxy.Prelude.{
  ℕ, ◌+◌, ◌<◌, ◌≡◌, ◌≢◌, refl, inl, inr, String, Bool, not, ◌&&◌, none, some, List, [], arith,
  eq_iff, Option-cases, Bool-cases, ltb, if◌then◌else◌, length, str_eq, ok, ◌∙◌, ap, sym,
}
use mathlib.Core.Option
use idempotent_proxy.Cache.Contract.{
  Slot, live, is_live, Call, obtains, sets, dels, polls, Reply, spec, Permits, IsTimely, IsPunctual,
  Cache, CacheLaws,
}
use idempotent_proxy.Memory.Contract.{obtain_reply, set_reply, del_reply, poll_reply}
use idempotent_proxy.Redis.{
  Server, SetCondition, nx, xx, placeholder, redis_obtain, redis_round, redis_set, redis_del,
}

-- Whether `SET` with the condition writes, by whether the key is there.
abbrev pub writes : SetCondition → Bool → Bool
writes nx there = not there
writes xx there = there

-- The documentation of `SET` with `NX` or `XX` and `PX`, of `GET` and of `DEL`, of a server that
-- can be reached. `entry` is a key's value with the time at which it expires.
pub record ServerLaws {S : Type 0} (server : Server S) (entry : String → S → Slot) : Type 0 where
  pub acquires : (now : ℕ) (s : S) → server.acquire now s ≡ ok tt
  pub set-result :
      (now : ℕ) (k : String) (v : List ℕ) (cond : SetCondition) (px : ℕ) (s : S)
      → 0 < px
      → (server.set_with_options now k v cond px s).1 ≡ ok (writes cond (is_live now (entry k s)))
  pub entry-set :
      (now : ℕ) (k j : String) (v : List ℕ) (cond : SetCondition) (px : ℕ) (s : S)
      → 0 < px
      → live now (entry j (server.set_with_options now k v cond px s).0) ≡ (
          if str_eq k j && writes cond (is_live now (entry k s))
          then some (now + px, v)
          else live now (entry j s))
  pub get-result :
      (now : ℕ) (k : String) (s : S)
      → (server.get now k s).1 ≡ ok (Option.map (λ e. e.1) (live now (entry k s)))
  pub entry-get :
      (now : ℕ) (k j : String) (s : S)
      → live now (entry j (server.get now k s).0) ≡ live now (entry j s)
  pub del-result :
      (now : ℕ) (k : String) (s : S)
      → (server.del now k s).1 ≡ ok (if is_live now (entry k s) then 1 else 0)
  pub entry-del :
      (now : ℕ) (k j : String) (s : S)
      → live now (entry j (server.del now k s).0)
        ≡ (if str_eq k j then none else live now (entry j s))

-- A key's slot: a value of one byte stands for none.
abbrev pub slot_of : Slot → Slot
slot_of none = none
slot_of (some (d, bytes)) = some (d, if ltb 1 (length bytes) then bytes else [])

live-slot_of : (now : ℕ) (e : Slot) → live now (slot_of e) ≡ slot_of (live now e)
live-slot_of now none = refl
live-slot_of now (some (d, bytes)) = ground arith

module _ {S : Type 0} (server : Server S) where
  unfoldable pub redis_perform : ℕ → String → Call → S → S × Reply
  redis_perform now k (obtains ttl) s =
      let (s', r) = redis_obtain server now k ttl s in (s', obtain_reply r)
  redis_perform now k (sets val ttl) s =
      let (s', r) = redis_set server now k val ttl s in (s', set_reply r)
  redis_perform now k dels s = let (s', r) = redis_del server now k s in (s', del_reply r)
  redis_perform now k polls s = let (s', r) = redis_round server now k s in (s', poll_reply r)

  -- The client does nothing on its own.
  abbrev pub redis_cache : (String → S → Slot) → Cache S
  redis_cache entry = record {
    perform = redis_perform;
    tidy = λ now s. s;
    slot = λ k s. slot_of (entry k s);
    IsSound = λ s. Unit;
  }

module _ {S : Type 0} (server : Server S) (entry : String → S → Slot)
    (laws : ServerLaws server entry) where
  open laws use {acquires, set-result, entry-set, get-result, entry-get, del-result, entry-del}

  -- What each call makes of the entries.
  entry-redis_obtain :
      (now : ℕ) (k j : String) (ttl : ℕ) (s : S)
      → 0 < ttl
      → live now (entry j (redis_obtain server now k ttl s).0) ≡ (
          if str_eq k j && not (is_live now (entry k s))
          then some (now + ttl, placeholder)
          else live now (entry j s))
  unfolding redis_obtain
  entry-redis_obtain now k j ttl s h =
      rw (acquires now s, redis_obtain) (entry-set now k j placeholder nx ttl s h)

  entry-redis_set :
      (now : ℕ) (k j : String) (val : List ℕ) (ttl : ℕ) (s : S)
      → 0 < ttl
      → live now (entry j (redis_set server now k val ttl s).0) ≡ (
          if str_eq k j && is_live now (entry k s)
          then some (now + ttl, val)
          else live now (entry j s))
  unfolding redis_set
  entry-redis_set now k j val ttl s h =
      rw (acquires now s, redis_set) (entry-set now k j val xx ttl s h)

  entry-redis_del :
      (now : ℕ) (k j : String) (s : S)
      → live now (entry j (redis_del server now k s).0)
        ≡ (if str_eq k j then none else live now (entry j s))
  unfolding redis_del
  entry-redis_del now k j s =
      rw (acquires now s, redis_del) (rw (del-result now k s) (entry-del now k j s))

  entry-redis_round :
      (now : ℕ) (k j : String) (s : S)
      → live now (entry j (redis_round server now k s).0) ≡ live now (entry j s)
  unfolding redis_round
  entry-redis_round now k j s = elim (Option-cases (live now (entry k s))) [
    | inl vacant ↦ rw (get-result now k s, redis_round) (rw vacant (entry-get now k j s))
    | inr (e, there) ↦ rw (get-result now k s, redis_round) (rw there (entry-get now k j s))
  ]

  slot-redis_perform :
      (now : ℕ) (k : String) (call : Call) (s : S)
      → IsTimely now call
      → IsPunctual call (live now (slot_of (entry k s)))
      → live now (slot_of (entry k (redis_perform server now k call s).0))
        ≡ (spec now call (live now (slot_of (entry k s)))).0
  unfolding redis_perform spec
  slot-redis_perform now k (obtains ttl) s t p =
      live-slot_of now _
      ∙ ap slot_of (entry-redis_obtain now k k ttl s t.0)
      ∙ ground (arith, eq_iff k k)
  slot-redis_perform now k (sets val ttl) s t p =
      live-slot_of now _
      ∙ ap slot_of (entry-redis_set now k k val ttl s t.1)
      ∙ ground (arith, eq_iff k k)
  slot-redis_perform now k dels s t p =
      live-slot_of now _ ∙ ap slot_of (entry-redis_del now k k s) ∙ ground (arith, eq_iff k k)
  slot-redis_perform now k polls s t p =
      live-slot_of now _ ∙ ap slot_of (entry-redis_round now k k s) ∙ ground (arith, eq_iff k k)

  reply-redis_perform :
      (now : ℕ) (k : String) (call : Call) (s : S)
      → IsTimely now call
      → IsPunctual call (live now (slot_of (entry k s)))
      → Permits call
          (live now (slot_of (entry k s)))
          (spec now call (live now (slot_of (entry k s)))).1
          (redis_perform server now k call s).1
  unfolding redis_perform redis_obtain redis_set redis_del redis_round spec
  reply-redis_perform now k (obtains ttl) s t p =
      ground (arith, acquires now s, set-result now k placeholder nx ttl s)
  reply-redis_perform now k (sets val ttl) s t p = elim (Option-cases (entry k s)) [
    | inl vacant ↦ absurd (rw vacant at p)
    | inr ((d, v), there) ↦ elim (Bool-cases (ltb now d)) [
      | inr late ↦ absurd (rw late at (rw there at p))
      | inl held ↦ ground (arith, acquires now s, set-result now k val xx ttl s)
    ]
  ]
  reply-redis_perform now k dels s t p = ground (arith, acquires now s, del-result now k s)
  reply-redis_perform now k polls s t p = elim (Option-cases (entry k s)) [
    | inl vacant ↦ rw (vacant, redis_round) tt
    | inr ((d, v), there) ↦ elim (Bool-cases (ltb now d)) [
      | inr late ↦ rw (there, redis_round) (rw late tt)
      | inl held ↦
          let got : (server.get now k s).1 ≡ ok (some v) = get-result now k s ∙ ground arith in
          rw there (rw held (ground arith))
    ]
  ]

  slot-redis_perform_other :
      (now : ℕ) (k j : String) (call : Call) (s : S)
      → IsTimely now call
      → k ≢ j
      → live now (slot_of (entry j (redis_perform server now k call s).0))
        ≡ live now (slot_of (entry j s))
  unfolding redis_perform
  slot-redis_perform_other now k j (obtains ttl) s t ne =
      live-slot_of now _
      ∙ ap slot_of (entry-redis_obtain now k j ttl s t.0)
      ∙ ground (arith, eq_iff k j, live-slot_of now (entry j s))
  slot-redis_perform_other now k j (sets val ttl) s t ne =
      live-slot_of now _
      ∙ ap slot_of (entry-redis_set now k j val ttl s t.1)
      ∙ ground (arith, eq_iff k j, live-slot_of now (entry j s))
  slot-redis_perform_other now k j dels s t ne =
      live-slot_of now _
      ∙ ap slot_of (entry-redis_del now k j s)
      ∙ ground (arith, eq_iff k j, live-slot_of now (entry j s))
  slot-redis_perform_other now k j polls s t ne =
      live-slot_of now _
      ∙ ap slot_of (entry-redis_round now k j s)
      ∙ sym (live-slot_of now (entry j s))

  -- The Redis client keeps the contract, in any state: where the server can be reached and does as
  -- Redis documents, each call of a timely time to live and each `set` of a held key with a value
  -- of more than one byte changes the slot of its key as `spec` does, replies what `spec` permits,
  -- and leaves the other keys' slots.
  pub redis-CacheLaws : CacheLaws (redis_cache server entry)
  redis-CacheLaws = record {
    perform-IsSound = λ now k call s h t p. tt;
    slot-perform = λ now k call s h t p. slot-redis_perform now k call s t p;
    reply-perform = λ now k call s h t p. reply-redis_perform now k call s t p;
    slot-perform_other = λ now k j call s h t ne. slot-redis_perform_other now k j call s t ne;
    tidy-IsSound = λ now s h. tt;
    slot-tidy = λ older now k s h le. refl;
  }
