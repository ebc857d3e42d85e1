-- ===== src/Proxy/OverHybrid/Concurrent.antt =====
-- Two requests at once over the server's own cache: one that obtains the key, and one that waits.
use idempotent_proxy.Prelude.{
  ℕ, suc, ◌+◌, ◌/◌, ◌≡◌, ◌≤◌, ◌<◌, ap, ◌∙◌, String, List, [], none, some, Result, ok, u64_mod,
}
use mathlib.Core.Path.{subst}
use idempotent_proxy.Memory.{MemoryCacher}
use idempotent_proxy.Cache.Rounds.{rounds_left}
use idempotent_proxy.Cache.{CacherEntry}
use idempotent_proxy.Cache.Contract.{Slot}
use idempotent_proxy.Cache.Hybrid.{IsSoundEntry}
use idempotent_proxy.Redis.{Server}
use idempotent_proxy.Redis.Contract.{ServerLaws}
use idempotent_proxy.Response.{ResponseData, Codec}
use idempotent_proxy.Proxy.Access.{Packages, AppState, Request, Prepared, prepare}
use idempotent_proxy.Proxy.{Outgoing, Upstream, outgoing, response_of}
use idempotent_proxy.Proxy.OverMemory.{response_of-to_bytes}
use idempotent_proxy.Cache.Replies.{hybrid_obtain-held}
use idempotent_proxy.Proxy.OverHybrid.{HybridWorld, CodingLaws, undisturbed-held}
use idempotent_proxy.Proxy.OverHybrid.Replay.{locked, locked-held, first_response}
use idempotent_proxy.Proxy.OverHybrid.Waiting.{
  IsSpared, moment, slept, rounds_from, asleep_in, AreQuiet, asleep-held, rounds-found, answer_of,
  seen_at, waiting_in, waited_response,
}

module _ {S : Type 0} (server : Server S) (entry : String → S → Slot) (clock : ℕ → ℕ)
    (sleep_memory : ℕ → ℕ → MemoryCacher → MemoryCacher) (sleep_redis : ℕ → ℕ → S → S)
    (p : Packages) (codec : Codec) (from_utf8_lossy : List ℕ → String)
    (execute : Outgoing p → HybridWorld S → HybridWorld S × Result (Upstream p) String)
    (app : AppState p) (laws : ServerLaws server entry) where
  abbrev IsUnworked : String → HybridWorld S → HybridWorld S → Type 0
  IsUnworked =
      IsSpared server entry clock sleep_memory sleep_redis p codec from_utf8_lossy execute app laws

  abbrev answer : Request p → ℕ → HybridWorld S → HybridWorld S × Result ResponseData (ℕ × String)
  answer =
      answer_of server entry clock sleep_memory sleep_redis p codec from_utf8_lossy execute app laws

  abbrev seen : ℕ → String → HybridWorld S → Slot
  seen =
      seen_at server entry clock sleep_memory sleep_redis p codec from_utf8_lossy execute app laws

  abbrev waiting : String → HybridWorld S → HybridWorld S
  waiting =
      waiting_in server entry clock sleep_memory sleep_redis p codec from_utf8_lossy execute app
        laws

  abbrev now_at : ℕ → CacherEntry S → HybridWorld S
  now_at =
      moment server entry clock sleep_memory sleep_redis p codec from_utf8_lossy execute app laws

  abbrev sleeps : String → ℕ → CacherEntry S → CacherEntry S
  sleeps =
      slept server entry clock sleep_memory sleep_redis p codec from_utf8_lossy execute app laws

  abbrev sleeping : String → ℕ → ℕ → CacherEntry S → CacherEntry S
  sleeping =
      asleep_in server entry clock sleep_memory sleep_redis p codec from_utf8_lossy execute app laws

  module _ (req : Request p) (prepared : Prepared p) (now_ms : ℕ) (w w' : HybridWorld S)
      (ready : prepare p app req now_ms ≡ ok prepared) (sound : IsSoundEntry server entry w.cache)
      (positive : 0 < app.cache_ttl) (fits : w.now + app.cache_ttl < u64_mod)
      (vacant : seen w.now prepared.idempotency_key w ≡ none) (rreq : Outgoing p)
      (built : outgoing p app req prepared.url ≡ ok rreq) where
    abbrev key : String
    key = prepared.idempotency_key

    abbrev d : ℕ
    d = w.now + app.cache_ttl

    abbrev lock : HybridWorld S
    lock =
        locked server entry clock sleep_memory sleep_redis p codec from_utf8_lossy execute app laws
          req prepared now_ms w w' ready sound positive fits vacant rreq built

    -- Two requests at once, over the server's own cache. Where nobody holds the key of a request
    -- that is forwarded, and another request with the key comes while the first waits for the
    -- upstream and polls at once, let the upstream answer the first during a sleep of the second,
    -- the one that leaves it `m + 1` rounds, as in the replay of a response. Then both get that
    -- response: the other tasks' calls are orderly, and neither set nor delete the key.
    pub hybrid_concurrent_replay :
        (rres : Upstream p) (res_body : List ℕ) (rd : ResponseData) (bytes : List ℕ)
        → CodingLaws codec rd
        → rres.bytes ≡ ok res_body
        → 200 ≤ rres.status
        → rres.status ≤ 500
        → response_of p codec req rres.status rres.headers res_body ≡ ok (rd, bytes)
        → (req' : Request p) (prepared' : Prepared p) (now_ms' : ℕ) (w2 : HybridWorld S)
        → prepare p app req' now_ms' ≡ ok prepared'
        → prepared'.idempotency_key ≡ key
        → IsUnworked key lock w2
        → w2.now < d
        → w2.now + app.cache_ttl < u64_mod
        → (m j : ℕ) → app.cache_ttl / app.poll_interval ≡ rounds_left m j
        → clock (rounds_left m j) ≡ w2.now
        → AreQuiet server entry clock sleep_memory sleep_redis p codec from_utf8_lossy execute app
            laws key d m j
            (waiting key w2).cache
        → IsUnworked key (now_at (suc (suc m)) (sleeping key m j (waiting key w2).cache)) w'
        → w'.now < d
        → w'.now + app.cache_ttl < u64_mod
        → execute rreq lock ≡ (w', ok rres)
        → IsUnworked key
            (answer req now_ms w).0
            (now_at (suc m) (sleeps key (suc m) (sleeping key m j (waiting key w2).cache)))
        → clock (suc m) < w'.now + app.cache_ttl
        → ((answer req now_ms w).1 ≡ ok rd) × ((answer req' now_ms' w2).1 ≡ ok rd)
    hybrid_concurrent_replay rres res_body rd bytes coding read low high made req' prepared' now_ms'
          w2 ready' same arrives early fits2 m j rounds at_once quiet before in_time fits' answered
          after resumed =
        let encoded =
          response_of-to_bytes p codec req rres.status rres.headers res_body rd bytes made in
        let long = coding.length-encode bytes encoded in
        let (_, locked_sound, locked_held) =
          locked-held server entry clock sleep_memory sleep_redis p codec from_utf8_lossy execute
            app laws req prepared now_ms w w' ready sound positive fits vacant rreq built in
        let (sound2, held2) = spared d [] lock w2 locked_sound arrives early locked_held in
        let (_, sound3, held3) =
          hybrid_obtain-held server entry laws w2.now key app.cache_ttl d [] w2.cache sound2
            positive fits2 held2 in
        let (sound4, held4, rest) =
          asleep-held server entry clock sleep_memory sleep_redis p codec from_utf8_lossy execute
            app laws key d m j (waiting key w2).cache sound3 (rw at_once held3) quiet in
        let (sound5, held5) =
          spared d [] (now_at (suc (suc m)) (sleeping key m j (waiting key w2).cache)) w' sound4
            before in_time held4 in
        let (first, sound6, held6) =
          first_response server entry clock sleep_memory sleep_redis p codec from_utf8_lossy execute
            app laws req prepared now_ms w w' ready sound positive fits vacant rreq built rres
            res_body rd bytes long sound5 held5 fits' answered read low high made in
        let after' =
          subst
            (λ (r : HybridWorld S × Result ResponseData (ℕ × String)).
              IsUnworked key r.0
                (now_at (suc m) (sleeps key (suc m) (sleeping key m j (waiting key w2).cache))))
            first after in
        let (sound7, held7) =
          spared (w'.now + app.cache_ttl) bytes _ _ sound6 after' resumed held6 in
        let polled =
          ap
            (λ (c : ℕ).
              (rounds_from server entry clock sleep_memory sleep_redis p codec from_utf8_lossy
                execute app laws key c (waiting key w2).cache).1)
            rounds
          ∙ rest
          ∙ rounds-found server entry clock sleep_memory sleep_redis p codec from_utf8_lossy execute
              app laws key m (w'.now + app.cache_ttl) bytes _ long sound7 held7 in
        (
          ap (λ (r : HybridWorld S × Result ResponseData (ℕ × String)). r.1) first,
          waited_response server entry clock sleep_memory sleep_redis p codec from_utf8_lossy
              execute app laws req' prepared' now_ms' d bytes rd w2 ready' sound2 positive fits2
              (rw same held2) (rw same polled) (coding.decode-encode bytes encoded),
        )
      where
        spared :
            (e : ℕ) (v : List ℕ) (u u' : HybridWorld S)
            → IsSoundEntry server entry u.cache
            → IsUnworked key u u'
            → u'.now < e
            → seen u.now key u ≡ some (e, v)
            → IsSoundEntry server entry u'.cache × (seen u'.now key u' ≡ some (e, v))
        spared e v u u' =
            undisturbed-held server entry clock sleep_memory sleep_redis p codec from_utf8_lossy
              execute app laws key e v u u'
