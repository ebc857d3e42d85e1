-- ===== src/Delivery/Replicas/Tests.antt =====
-- Two replicas of a small subnet, and the theorem at them.
use idempotent_proxy.Prelude.{
  join, inl, ℕ, ◌+◌, ◌*◌, ◌-◌, ◌==◌, if◌then◌else◌, Result, ◌≡◌, refl, String, true, none, some, [],
  ◌∷◌, ok, err, arith, lookup, starts_with, to_ascii_lowercase,
}
use idempotent_proxy.Redis.Small.{Store, small_server, small_server-ServerLaws}
use idempotent_proxy.Redis.{redis_set}
use idempotent_proxy.Cache.{redis}
use idempotent_proxy.Response.{ResponseData}
use idempotent_proxy.Proxy.OverHybrid.{HybridWorld}
use idempotent_proxy.Proxy.{AppState, Upstream, Request, Outgoing, authorize}
use idempotent_proxy.Proxy.OverHybrid.Replay.{handle}
use idempotent_proxy.Proxy.Small.{codec, response, clock, no_sleep, lossy, program}
use idempotent_proxy.Proxy.Tests.{no_pause, start_there, codec-CodingLaws}
use idempotent_proxy.Canister.Signer.Tests.{
  packages, system, unary_text, before, after, alice, alice_token, numbers_decode, system-SignsFor,
  refreshed,
}
use idempotent_proxy.Canister.Signer.Tokens.{refresh_proxy_token-authorizes}
use idempotent_proxy.Canister.Types.{HttpRequest, Agent}
use idempotent_proxy.Canister.Agent
use idempotent_proxy.Delivery.{IsDelivered, configured}
use idempotent_proxy.Delivery.Replicas.{IsSent, replicas-agree}
use idempotent_proxy.Delivery.Replicas.AtOnce.{replicas_at_once-agree}

-- The proxy has the canister's public key, and a list of agents.
abbrev app : ℕ → AppState packages
app interval = record {
  poll_interval = interval;
  cache_ttl = 1000;
  agents = "alice" ∷ [];
  url_vars = ("URL_API", "https://api.example/v1") ∷ [];
  header_vars = [];
  ecdsa_pub_keys = 7 ∷ [];
  ed25519_pub_keys = [];
}

abbrev agent : Agent
agent = record alice { proxy_token = some alice_token }

abbrev asked : HttpRequest
asked = record {
  url = "URL_API";
  max_response_bytes = none;
  headers =
      record { name = "Idempotency-Key"; value = "k1" }
      ∷ record { name = "idempotency-key"; value = "k1" }
      ∷ [];
  body = none;
  transform = none;
}

abbrev sent : HttpRequest
sent = record asked {
  url = "https://proxy.example/URL_API";
  headers =
      record { name = "Idempotency-Key"; value = "k1" }
      ∷ record { name = "idempotency-key"; value = "k1" }
      ∷ record { name = "response-headers"; value = "date" }
      ∷ record { name = "proxy-authorization"; value = join ("Bearer " ∷ alice_token ∷ []) }
      ∷ [];
  transform = some "inner_transform_response";
}

-- The token is the refreshed one, and the proxy accepts it for 140 seconds.
sent-IsSent :
    (interval : ℕ) → IsSent packages (app interval) agent sent "https://api.example/v1" "k1"
unfolding Agent.build_request Agent.route Agent.add_token Agent.default_response_headers starts_with
    to_ascii_lowercase lookup
sent-IsSent interval =
    let (token, holds, admits) =
      refresh_proxy_token-authorizes packages system unary_text (λ n. 0) 10 0 before before after
        numbers_decode (λ n. omega arith) (λ n. omega arith) 7 system-SignsFor refreshed refl agent
        (inl refl) (λ e sig. refl) in
    record {
      parse_uri = λ s. err "no URL";
      req = asked;
      token = token;
      text = "https://api.example/v1";
      tokened = holds;
      built = refl;
      unset = refl;
      until = 140;
      admitted = λ preq now_ms fresh given.
          admits (app interval) preq now_ms (inl refl) refl given (omega arith);
      meant = configured refl (ground arith) refl refl;
      parsed = refl;
      given = refl;
      nonempty = refl;
    }

-- What arrives from the replica at an address.
abbrev arrived : String → Request packages
arrived address = record {
  method = "GET";
  is_safe = true;
  path = "/URL_API";
  path_and_query = some "/URL_API";
  headers =
      ("x-forwarded-for", address)
      ∷ ("idempotency-key", "k1")
      ∷ ("response-headers", "date")
      ∷ ("proxy-authorization", join ("Bearer " ∷ alice_token ∷ []))
      ∷ [];
  body = ok [];
}

arrived-IsDelivered :
    (address : String) → IsDelivered packages "https://proxy.example" sent (arrived address)
unfolding to_ascii_lowercase idempotent_proxy.Headers.extract_header lookup
arrived-IsDelivered address = record {
  target = "/URL_API";
  sent_to = refl;
  path = refl;
  path_and_query = refl;
  proxy_authorization = refl;
  forwarded_host = refl;
  idempotency_key = refl;
}

abbrev upstream : Upstream packages
upstream = record { status = 200; headers = []; bytes = ok (4 ∷ 2 ∷ []) }

abbrev answers :
    ℕ
    → Outgoing packages
    → HybridWorld Store
    → HybridWorld Store × Result (Upstream packages) String
answers delay rreq w = (record w { now = w.now + delay }, ok upstream)

abbrev locked_world : ℕ → HybridWorld Store
locked_world now = record { cache = redis (("alice:GET:k1", (6000, 0 ∷ [])) ∷ []); now = now }

abbrev cached_world : HybridWorld Store
cached_world = record {
  cache = redis (("alice:GET:k1", (6200, 200 ∷ 4 ∷ 2 ∷ [])) ∷ []);
  now = 6000;
}

abbrev forwarded : Outgoing packages
forwarded = record {
  method = "GET";
  url = "https://api.example/v1";
  headers = ("idempotency-key", "k1") ∷ ("response-headers", "date") ∷ [];
  body = none;
}

replicas-agree_example :
    ((handle small_server lookup clock no_sleep no_pause packages codec lossy
        (answers 200)
        (app 100)
        small_server-ServerLaws
        (arrived "10.0.0.1")
        5000
        start_there).1
      ≡ ok response)
    × ((handle small_server lookup clock no_sleep no_pause packages codec lossy
          (answers 200)
          (app 100)
          small_server-ServerLaws
          (arrived "10.0.0.2")
          5900
          cached_world).1
        ≡ ok response)
unfolding program sent-IsSent idempotent_proxy.Proxy.verify_token idempotent_proxy.Auth.ecdsa_verify
replicas-agree_example =
    replicas-agree small_server lookup clock no_sleep no_pause packages codec lossy (answers 200)
      (app 100) small_server-ServerLaws agent sent "https://api.example/v1" "k1" (sent-IsSent 100)
      (arrived "10.0.0.1") (arrived "10.0.0.2") (arrived-IsDelivered "10.0.0.1")
      (arrived-IsDelivered "10.0.0.2") refl 5000 5900 9 (omega arith) (omega arith) start_there
      (locked_world 5200) cached_world tt (omega arith) (omega arith) refl forwarded refl upstream
      (4 ∷ 2 ∷ []) response (200 ∷ 4 ∷ 2 ∷ []) codec-CodingLaws
      (record { history = []; happened = refl; orderly = tt; sparing = tt; later = omega arith })
      (omega arith) (omega arith) refl refl (omega arith) (omega arith) refl refl refl
      (record { history = []; happened = refl; orderly = tt; sparing = tt; later = omega arith })
      (omega arith) (omega arith)

-- Six rounds, at 5100 ms, 5250 ms and so on.
abbrev ticks : ℕ → ℕ
ticks c = 6000 - 150 * c

-- The upstream answers at 5300 ms, during the sleep that leaves four rounds.
abbrev pauses : ℕ → ℕ → Store → Store
pauses interval counter s =
    if counter == 4
    then (redis_set small_server 5300 "alice:GET:k1" (200 ∷ 4 ∷ 2 ∷ []) 1000 s).0
    else s

abbrev handled :
    Request packages → ℕ → HybridWorld Store → HybridWorld Store × Result ResponseData (ℕ × String)
handled =
    handle small_server lookup ticks no_sleep pauses packages codec lossy (answers 300) (app 150)
      small_server-ServerLaws

replicas_at_once-agree_example :
    ((handled (arrived "10.0.0.1") 5000 start_there).1 ≡ ok response)
    × ((handled (arrived "10.0.0.2") 5100 (locked_world 5100)).1 ≡ ok response)
unfolding program idempotent_proxy.Redis.redis_round sent-IsSent idempotent_proxy.Proxy.verify_token
    idempotent_proxy.Auth.ecdsa_verify
replicas_at_once-agree_example =
    replicas_at_once-agree small_server lookup ticks no_sleep pauses packages codec lossy
      (answers 300) (app 150) small_server-ServerLaws agent sent "https://api.example/v1" "k1"
      (sent-IsSent 150) (arrived "10.0.0.1") (arrived "10.0.0.2") (arrived-IsDelivered "10.0.0.1")
      (arrived-IsDelivered "10.0.0.2") refl "alice:GET:k1" refl 5000 5100 (omega arith)
      (omega arith) start_there (locked_world 5100) (locked_world 5300) tt (omega arith)
      (omega arith) refl forwarded refl upstream (4 ∷ 2 ∷ []) response (200 ∷ 4 ∷ 2 ∷ [])
      codec-CodingLaws refl (omega arith) (omega arith) refl
      (record { history = []; happened = refl; orderly = tt; sparing = tt; later = omega arith })
      (omega arith) (omega arith) 3 1 refl refl
      (
        record { history = []; happened = refl; orderly = tt; sparing = tt; later = omega arith },
        omega arith,
        tt,
      )
      (record { history = []; happened = refl; orderly = tt; sparing = tt; later = omega arith })
      (omega arith) (omega arith) refl
      (record { history = []; happened = refl; orderly = tt; sparing = tt; later = omega arith })
      (omega arith)
