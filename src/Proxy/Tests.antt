-- ===== src/Proxy/Tests.antt =====
-- The small proxy over the two caches, and the theorems at concrete inputs.
use idempotent_proxy.Prelude.{
  lookup, ℕ, ◌+◌, ◌≡◌, refl, ◌⊎◌, ◌<◌, String, true, [], ◌∷◌, any, str_eq, Result, ok, err, arith,
  join,
}
use idempotent_proxy.Response.{ResponseData}
use idempotent_proxy.Memory.{MemoryCacher, empty_cacher, deadline}
use idempotent_proxy.Memory.Runs.{Event}
use idempotent_proxy.Proxy.{
  AppState, Request, Prepared, Outgoing, Upstream, prepare, full_key, proxy,
}
use idempotent_proxy.Proxy.Keys.{full_key_injective, full_key_collision}
use idempotent_proxy.Proxy.Allowed.{IsAllowed, proxy-IsAllowed}
use idempotent_proxy.Proxy.OverMemory.{World, memory_cacher, memory_proxy, obtained, polled}
use idempotent_proxy.Cache.{redis}
use idempotent_proxy.Redis.Small.{Store, small_server, small_server-ServerLaws}
use idempotent_proxy.Proxy.OverHybrid.{HybridWorld, hybrid_proxy, CodingLaws}
use idempotent_proxy.Proxy.OverHybrid.Unpolled.{unpolled_timeout}
use idempotent_proxy.Proxy.OverHybrid.Replay.{hybrid_proxy_replay}
use idempotent_proxy.Proxy.EndToEnd.{IsQuiet, proxy_replay}
use idempotent_proxy.Proxy.Small.{
  packages, codec, app, request, ready, sent, upstream, response, answers, fails, clock, no_sleep,
  lossy, start, program, prepared, built, responded, codec-CodecLaws, empty-IsValid, empty-NoStale,
  key_free,
}

-- The world when the key is obtained, and the world when the upstream has answered: no other
-- task has come in between.
abbrev locked : World
locked = obtained packages codec lossy clock no_sleep answers app "ANON:GET:k1" start

abbrev answered : World
answered = record locked { now = 5200 }

abbrev still :
    (execute : Outgoing packages → World → World × Result (Upstream packages) String) (d now : ℕ)
    (w : World)
    → now < d
    → IsQuiet packages codec lossy clock no_sleep execute app "ANON:GET:k1" d w
        (record w { now = now })
unfolding idempotent_proxy.Memory.Runs.run
still execute d now w lt = record { events = []; happened = refl; sparing = tt; in_time = lt }

abbrev replayed : World
replayed = (memory_proxy packages codec lossy clock no_sleep answers app request 5000 start).0

abbrev replay_world : World
replay_world = record replayed { now = 6000 }

proxy_replay_example :
    ((memory_proxy packages codec lossy clock no_sleep answers app request 5000 start).1
      ≡ ok response)
    × (memory_proxy packages codec lossy clock no_sleep answers app request 5900 replay_world ≡ (
      polled packages codec lossy clock no_sleep answers app "ANON:GET:k1" replay_world,
      ok response,
    ))
unfolding program
proxy_replay_example =
    proxy_replay packages codec lossy clock no_sleep answers app request ready 5000 start answered
      prepared empty-IsValid empty-NoStale key_free sent built
      (still answers (deadline 5000 1000) 5200 locked (omega arith)) upstream (4 ∷ 2 ∷ []) response
      (200 ∷ 4 ∷ 2 ∷ []) codec-CodecLaws refl refl (omega arith) (omega arith) responded request
      ready 5900 9 replay_world prepared refl refl
      (still answers (deadline 5200 1000) 6000 replayed (omega arith))

abbrev locked_out : World
locked_out =
    record ((memory_proxy packages codec lossy clock no_sleep fails app request 5000 start).0) {
      now = 5999;
    }

-- An agent is required, and the request has no token's agent on the list.
abbrev listed_app : AppState packages
listed_app = record app { agents = "alice" ∷ [] }

proxy-IsAllowed_example :
    ((prepared : Prepared packages) × (prepare packages listed_app request 5000 ≡ ok prepared)
      × IsAllowed packages listed_app request 5000 prepared.agent
      × ((listed_app.agents ≡ []) ⊎ (any (str_eq prepared.agent) listed_app.agents ≡ true)))
    ⊎ ((e : ℕ × String) × (proxy packages codec lossy
            (memory_cacher clock no_sleep)
            answers
            listed_app
            request
            5000
            start
          ≡ (start, err e)))
proxy-IsAllowed_example =
    proxy-IsAllowed packages codec lossy (memory_cacher clock no_sleep) answers listed_app request
      5000 start

full_key_injective_example :
    ◌≡◌ {A = String} "alice" "alice" × ◌≡◌ {A = String} "GET" "GET" × ◌≡◌ {A = String} "k1" "k1"
full_key_injective_example =
    full_key_injective packages "alice" "alice" "GET" "GET" "k1" "k1" (omega arith) (omega arith)
      (omega arith) (omega arith) refl

full_key_collision_example :
    full_key packages "alice" "GET" (join ("POST" ∷ ":" ∷ "k1" ∷ []))
    ≡ full_key packages (join ("alice" ∷ ":" ∷ "GET" ∷ [])) "POST" "k1"
full_key_collision_example = full_key_collision packages "alice" "GET" "POST" "k1"

-- The same upstream, over a small Redis server.
abbrev pub answers_there :
    Outgoing packages → HybridWorld Store → HybridWorld Store × Result (Upstream packages) String
answers_there rreq w = (record w { now = w.now + 200 }, ok upstream)

abbrev pub no_pause : ℕ → ℕ → Store → Store
no_pause interval counter s = s

abbrev pub start_there : HybridWorld Store
start_there = record { cache = redis []; now = 5000 }

abbrev run_there :
    Request packages → ℕ → HybridWorld Store → HybridWorld Store × Result ResponseData (ℕ × String)
run_there =
    hybrid_proxy small_server lookup clock no_sleep no_pause packages codec lossy answers_there app

abbrev locked_there : HybridWorld Store
locked_there = record { cache = redis (("ANON:GET:k1", (6000, 0 ∷ [])) ∷ []); now = 5000 }

abbrev pub answered_there : HybridWorld Store
answered_there = record locked_there { now = 5200 }

abbrev pub cached_there : HybridWorld Store
cached_there = record { cache = redis (("ANON:GET:k1", (6200, 200 ∷ 4 ∷ 2 ∷ [])) ∷ []); now = 6000 }

pub codec-CodingLaws : CodingLaws codec response
unfolding program
codec-CodingLaws = record {
  decode-encode = λ bytes h. ground arith;
  length-encode = λ bytes h. ground arith;
}

hybrid_proxy_replay_example :
    ((run_there request 5000 start_there).1 ≡ ok response)
    × ((run_there request 5900 cached_there).1 ≡ ok response)
unfolding program
hybrid_proxy_replay_example =
    hybrid_proxy_replay small_server lookup clock no_sleep no_pause packages codec lossy
      answers_there app small_server-ServerLaws request ready 5000 start_there answered_there
      prepared tt (omega arith) (omega arith) refl sent built upstream (4 ∷ 2 ∷ []) response
      (200 ∷ 4 ∷ 2 ∷ []) codec-CodingLaws
      (record { history = []; happened = refl; orderly = tt; sparing = tt; later = omega arith })
      (omega arith) (omega arith) refl refl (omega arith) (omega arith) responded request ready 5900
      9 cached_there prepared refl refl refl
      (record { history = []; happened = refl; orderly = tt; sparing = tt; later = omega arith })
      (omega arith) (omega arith)

abbrev slow_app : AppState packages
slow_app = record app { poll_interval = 2000 }

unpolled_timeout_example :
    (hybrid_proxy small_server lookup clock no_sleep no_pause packages codec lossy answers_there
      slow_app request 5900 cached_there).1
    ≡ err (502, "polling get cache timeout")
unfolding program
unpolled_timeout_example =
    unpolled_timeout small_server lookup clock no_sleep no_pause packages codec lossy answers_there
      slow_app small_server-ServerLaws request ready 5900 6200 (200 ∷ 4 ∷ 2 ∷ []) cached_there
      (omega arith) prepared tt (omega arith) (omega arith) refl
