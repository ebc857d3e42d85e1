-- ===== src/Config/Running.antt =====
-- What a server has that serves.
use idempotent_proxy.Prelude.{
  ◌≡◌, inl, inr, some, text_is_empty, lookup, arith, Option-cases, Bool-cases, Result-cases,
}
use idempotent_proxy.Proxy.{Packages}
use idempotent_proxy.Memory.{empty_cacher}
use idempotent_proxy.Cache.{CacherEntry, memory, redis}
use idempotent_proxy.Config.{Environment, Parsers, app_state, cacher_entry}
use idempotent_proxy.Config.Settings.{IsReadFrom, app_state-IsReadFrom}
use idempotent_proxy.Config.Start.{
  Platform, client_options, pool_options, variable_or, redis_new, connect, Listener, plain, tls,
  listener, Running, start, IsListening, open_to_all, encrypted, IsCache, in_memory, at_redis,
}

module _ {S : Type 0} (platform : Platform S) (p : Packages) (parsers : Parsers p)
    (env : Environment) where
  listener-IsListening :
      (l : Listener platform)
      → listener platform env ≡ some l
      → IsListening platform p parsers env l
  unfolding listener
  listener-IsListening l h =
      elim (Option-cases (platform.parse_addr (variable_or "SERVER_ADDR" "127.0.0.1:8080" env))) [
        | inl unparsed ↦ absurd (ground (arith, unparsed, h))
        | inr (addr, parsed) ↦
            elim (Bool-cases (text_is_empty (variable_or "TLS_KEY_FILE" "" env))) [
              | inl no_key ↦
                  let e : plain addr ≡ l = ground (arith, parsed, no_key, h) in
                  rw (← e) (open_to_all parsed no_key)
              | inr key ↦
                  elim (Option-cases (
                    platform.from_pem_file (variable_or "TLS_CERT_FILE" "" env)
                      (variable_or "TLS_KEY_FILE" "" env))) [
                        | inl unread ↦ absurd (ground (arith, parsed, key, unread, h))
                        | inr (config, read) ↦
                            let e : tls addr config ≡ l = ground (arith, parsed, key, read, h) in
                            rw (← e) (encrypted parsed key read)
                      ]
            ]
      ]

  cacher_entry-IsCache :
      (entry : CacherEntry S)
      → cacher_entry (connect platform) env ≡ some entry
      → IsCache platform p parsers env entry
  unfolding cacher_entry connect redis_new
  cacher_entry-IsCache entry h = elim (Option-cases (lookup "REDIS_URL" env)) [
    | inl unset ↦
        let e : memory empty_cacher ≡ entry = ground (arith, unset, h) in rw (← e) (in_memory unset)
    | inr (url, set) ↦ elim (Option-cases (platform.manager url)) [
      | inl refused ↦ absurd (ground (arith, set, refused, h))
      | inr (m, made) ↦ elim (Result-cases (platform.build_pool pool_options m)) [
        | inr (e, failed) ↦ absurd (ground (arith, set, made, failed, h))
        | inl (s, pooled) ↦
            let e : redis s ≡ entry = ground (arith, set, made, pooled, h) in
            rw (← e) (at_redis url m set made pooled)
      ]
    ]
  ]

  -- What holds of a server that has started.
  pub record IsRunning (r : Running platform p parsers) : Type 0 where
    pub settings : IsReadFrom p parsers env r.app
    pub client : platform.build_client (client_options r.app.cache_ttl) ≡ some r.client
    pub cache : IsCache platform p parsers env r.entry
    pub listens : IsListening platform p parsers env r.listens

  -- Let the server start. Its poll interval is POLL_INTERVAL or 100 ms, but no less than 10; it
  -- keeps a key for REQUEST_TIMEOUT or 10000 ms, but no less than 1000, and gives its requests to
  -- the upstream as much time. Its agents are the trimmed and non-empty parts of ALLOW_AGENTS. A
  -- name that begins with "URL_" or "HEADER_" has the value of that variable, which the parser of
  -- header values has accepted, and no other name has one; its keys of a kind are those that the
  -- variables for that kind hold, in their order. Its cache is in memory exactly if there is no
  -- REDIS_URL, and else at the server of that URL, over a pool with the options of the code. It
  -- listens on SERVER_ADDR or 127.0.0.1:8080, with TLS exactly if TLS_KEY_FILE is there and not
  -- empty; then the files could be read.
  pub start-IsRunning :
      (r : Running platform p parsers) → start platform p parsers env ≡ some r → IsRunning r
  unfolding start
  start-IsRunning r h = elim (Option-cases (app_state p parsers env)) [
    | inl bad ↦ absurd (ground (arith, bad, h))
    | inr (app, read) ↦ elim (Option-cases (platform.build_client (client_options app.cache_ttl))) [
      | inl unbuilt ↦ absurd (ground (arith, read, unbuilt, h))
      | inr (client, built) ↦ elim (Option-cases (cacher_entry (connect platform) env)) [
        | inl unreached ↦ absurd (ground (arith, read, built, unreached, h))
        | inr (entry, reached) ↦ elim (Option-cases (listener platform env)) [
          | inl unbound ↦ absurd (ground (arith, read, built, reached, unbound, h))
          | inr (l, bound) ↦
              let e : (record { client = client; entry = entry; app = app; listens = l }) ≡ r =
                ground (arith, read, built, reached, bound, h) in
              rw (← e) (record {
                settings = app_state-IsReadFrom p parsers env app read;
                client = built;
                cache = cacher_entry-IsCache entry reached;
                listens = listener-IsListening l bound;
              })
        ]
      ]
    ]
  ]
