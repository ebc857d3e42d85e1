-- ===== src/Proxy/OverHybrid/Waiting.antt =====
-- A request over the server's own cache that waits for the response of another one: its rounds.
use idempotent_proxy.Prelude.{
  ℕ, zero, suc, ◌+◌, ◌/◌, ◌≡◌, ◌<◌, refl, arith, ap, sym, ◌∙◌, String, List, [], ◌∷◌, some, length,
  Result, ok, u64_mod,
}
use idempotent_proxy.Memory.{MemoryCacher}
use idempotent_proxy.Cache.Rounds.{rounds_left}
use idempotent_proxy.Cache.{CacherEntry}
use idempotent_proxy.Cache.Contract.{Slot, live}
use idempotent_proxy.Cache.Hybrid.{IsSoundEntry, hybrid_slot, hybrid_round}
use idempotent_proxy.Cache.Rounds.{
  hybrid_round-waits, hybrid_sleep, hybrid_rounds, hybrid_rounds_again, hybrid_asleep,
  hybrid_polling_get-rounds,
}
use idempotent_proxy.Redis.{Server}
use idempotent_proxy.Redis.Contract.{ServerLaws}
use idempotent_proxy.Response.{ResponseData, Codec, try_from}
use idempotent_proxy.Proxy.Access.{Packages, AppState, Request, Prepared, prepare}
use idempotent_proxy.Proxy.{Outgoing, Upstream, wait}
use idempotent_proxy.Cache.Replies.{hybrid_polling_get-held}
use idempotent_proxy.Proxy.OverHybrid.{HybridWorld, undisturbed-held, held-wait, refused}
use idempotent_proxy.Proxy.OverHybrid.Replay.{handle, IsIdle}

module _ {S : Type 0} (server : Server S) (entry : String → S → Slot) (clock : ℕ → ℕ)
    (sleep_memory : ℕ → ℕ → MemoryCacher → MemoryCacher) (sleep_redis : ℕ → ℕ → S → S)
    (p : Packages) (codec : Codec) (from_utf8_lossy : List ℕ → String)
    (execute : Outgoing p → HybridWorld S → HybridWorld S × Result (Upstream p) String)
    (app : AppState p) (laws : ServerLaws server entry) where
  abbrev pub IsSpared : String → HybridWorld S → HybridWorld S → Type 0
  IsSpared =
      IsIdle server entry clock sleep_memory sleep_redis p codec from_utf8_lossy execute app laws

  abbrev pub moment : ℕ → CacherEntry S → HybridWorld S
  moment c u = record { cache = u; now = clock c }

  module _ (key : String) where
    abbrev pub slept : ℕ → CacherEntry S → CacherEntry S
    slept = hybrid_sleep server entry laws clock sleep_memory sleep_redis key app.poll_interval

    abbrev pub rounds_from : ℕ → CacherEntry S → CacherEntry S × Result (List ℕ) String
    rounds_from =
        hybrid_rounds server entry laws clock sleep_memory sleep_redis key app.poll_interval

    abbrev round_at : ℕ → CacherEntry S → CacherEntry S
    round_at c u = (hybrid_round server entry (clock c) key u).0

    -- The cache in which a waiter starts the sleep that leaves it `m + 1` rounds, after `j + 1`.
    abbrev pub asleep_in : ℕ → ℕ → CacherEntry S → CacherEntry S
    asleep_in = hybrid_asleep server entry laws clock sleep_memory sleep_redis key app.poll_interval

    -- Its sleeps before that one: nobody sets or deletes the key, and they end before `d`.
    abbrev pub AreQuiet : ℕ → ℕ → ℕ → CacherEntry S → Type 0
    AreQuiet d m zero u = Unit
    AreQuiet d m (suc j) u =
        let v = round_at (suc (rounds_left m j)) u in
        IsSpared key (moment (suc (rounds_left m j)) v)
          (moment (rounds_left m j) (slept (rounds_left m j) v))
        × (clock (rounds_left m j) < d)
        × AreQuiet d m j (slept (rounds_left m j) v)

    -- The rounds before that sleep find nothing.
    pub asleep-held :
        (d m j : ℕ) (u : CacherEntry S)
        → IsSoundEntry server entry u
        → live (clock (rounds_left m j)) (hybrid_slot server entry key u) ≡ some (d, [])
        → AreQuiet d m j u
        → IsSoundEntry server entry (asleep_in m j u)
          × (live (clock (suc (suc m))) (hybrid_slot server entry key (asleep_in m j u))
              ≡ some (d, []))
          × ((rounds_from (rounds_left m j) u).1
              ≡ (rounds_from (suc m) (slept (suc m) (asleep_in m j u))).1)
    asleep-held d m zero u sound held quiet =
        let (waits, sound', held') =
          hybrid_round-waits server entry laws (clock (suc (suc m))) key d u sound held in
        (
          sound',
          held',
          hybrid_rounds_again server entry laws clock sleep_memory sleep_redis key app.poll_interval
              (suc m) u waits,
        )
    asleep-held d m (suc j) u sound held (quiet, lt, more) =
        let n = rounds_left m j in
        let (waits, sound1, held1) =
          hybrid_round-waits server entry laws (clock (suc n)) key d u sound held in
        let (sound2, held2) =
          undisturbed-held server entry clock sleep_memory sleep_redis p codec from_utf8_lossy
            execute app laws key d [] (moment (suc n) (round_at (suc n) u))
            (moment n (slept n (round_at (suc n) u))) sound1 quiet lt held1 in
        let (sound3, held3, rest) =
          asleep-held d m j (slept n (round_at (suc n) u)) sound2 held2 more in
        (
          sound3,
          held3,
          hybrid_rounds_again server entry laws clock sleep_memory sleep_redis key app.poll_interval
                n u waits
              ∙ rest,
        )

    -- A round that finds a response returns it.
    pub rounds-found :
        (m d : ℕ) (bytes : List ℕ) (u : CacherEntry S)
        → 1 < length bytes
        → IsSoundEntry server entry u
        → live (clock (suc m)) (hybrid_slot server entry key u) ≡ some (d, bytes)
        → (rounds_from (suc m) u).1 ≡ ok bytes
    rounds-found m d [] u long sound held = absurd (ground (arith, long))
    rounds-found m d (b ∷ v) u long sound held =
        ap (λ (r : CacherEntry S × Result (List ℕ) String). r.1)
          (sym (
            hybrid_polling_get-rounds server entry laws clock sleep_memory sleep_redis key
              app.poll_interval 0 (suc m) u))
        ∙ hybrid_polling_get-held server entry laws clock sleep_memory sleep_redis 0 key
            app.poll_interval m d b v u sound held

  abbrev pub answer_of :
      Request p → ℕ → HybridWorld S → HybridWorld S × Result ResponseData (ℕ × String)
  answer_of =
      handle server entry clock sleep_memory sleep_redis p codec from_utf8_lossy execute app laws

  abbrev pub seen_at : ℕ → String → HybridWorld S → Slot
  seen_at now key w = live now (hybrid_slot server entry key w.cache)

  -- The world in which a request is refused its key, before its first round.
  abbrev pub waiting_in : String → HybridWorld S → HybridWorld S
  waiting_in =
      refused server entry clock sleep_memory sleep_redis p codec from_utf8_lossy execute app laws

  -- A request whose rounds return the bytes of a response gets that response.
  pub waited_response :
      (req : Request p) (prepared : Prepared p) (now_ms d : ℕ) (bytes : List ℕ) (rd : ResponseData)
      (w : HybridWorld S)
      → prepare p app req now_ms ≡ ok prepared
      → IsSoundEntry server entry w.cache
      → 0 < app.cache_ttl
      → w.now + app.cache_ttl < u64_mod
      → seen_at w.now prepared.idempotency_key w ≡ some (d, [])
      → (rounds_from prepared.idempotency_key
          (app.cache_ttl / app.poll_interval)
          (waiting_in prepared.idempotency_key w).cache).1
        ≡ ok bytes
      → try_from codec bytes ≡ ok rd
      → (answer_of req now_ms w).1 ≡ ok rd
  unfolding wait
  waited_response req prepared now_ms d bytes rd w ready sound positive fits held polled decoded =
      let (waits, _, _) =
        held-wait server entry clock sleep_memory sleep_redis p codec from_utf8_lossy execute app
          laws req prepared now_ms d [] w ready sound positive fits held in
      ap (λ (r : HybridWorld S × Result ResponseData (ℕ × String)). r.1) waits
      ∙ rw
          (hybrid_polling_get-rounds server entry laws clock sleep_memory sleep_redis
            prepared.idempotency_key app.poll_interval w.now (app.cache_ttl / app.poll_interval)
            (waiting_in prepared.idempotency_key w).cache)
          (rw polled (rw decoded refl))
