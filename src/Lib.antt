-- ===== src/Lib.antt =====
-- Idempotent proxy: a model of the HTTP proxy server and of its on-chain client, with the
-- properties that make them correct.
--
-- The server (src/idempotent-proxy-server) forwards a request once for each idempotency key and
-- answers every other request with that key from its cache. The canister
-- (src/idempotent-proxy-canister) sends a request to one or more proxies, charges its callers in
-- cycles, and signs the tokens (src/idempotent-proxy-types) by which a proxy knows it.
--
-- The files, and the code that each is about:
--   Memory        src/idempotent-proxy-server/src/cache/memory.rs. `MemoryCacher` is a record
--                 of the queue and the map; `obtain`, `polling_get`, `set`, `del` and the
--                 spawned cleaner are functions on it. Memory/Runs has the interleavings of the
--                 tasks as lists of events, Memory/Queue, Cleaning, Lookups and Held the lemmas on
--                 the parts; Invariant, Exclusion, Sync, LateSet and Polling are named for what
--                 they prove. Memory/Locks is about the two locks, Memory/Fresh and
--                 Contract about the cache as a client sees it.
--   Cache         src/idempotent-proxy-server/src/cache/mod.rs: the trait `Cacher`, and
--                 `HybridCacher`, which holds one of the two caches. Cache/Contract says
--                 what a cache promises: each key has a slot, on which a call acts as an abstract
--                 one. Cache/Histories, Quiet and Refinement are about calls one after another,
--                 Cache/Hybrid, Replies and Rounds about the dispatch.
--   Redis         src/idempotent-proxy-server/src/cache/redis.rs over a server: its operations,
--                 its contract, and what it does where the server fails or a key is lost.
--   Config        src/idempotent-proxy-server/src/main.rs: what the server reads from its
--                 environment (Config), and what its state has of it (Config/Settings); the HTTP
--                 client, the cache and the listener that it starts with, and `RedisClient::new`
--                 (Config/Start), and what a server has that serves (Config/Running).
--   Response      `ResponseData`, its filters and its coding, of
--                 src/idempotent-proxy-server/src/cache/mod.rs; Response/Names is about
--                 `split_filtering`, Response/Passed about the filter of the headers,
--                 Response/Filters about that of the body, and Response/Reply about
--                 `into_response`.
--   Proxy         src/idempotent-proxy-server/src/handler.rs. Proxy/Access has the handler
--                 up to the cache (`prepare`), Proxy the rest (`proxy`), over any `Cacher`.
--                 Proxy/OverMemory puts the in-memory cache in, and Proxy/Responds and EndToEnd are
--                 about several requests; Proxy/OverHybrid does the same for `HybridCacher`, and
--                 its Waiting and Concurrent are about two requests at once; the other children are
--                 about the parts of the handler.
--   Headers       the `HeaderMap` that the server reads, `extract_header`, and the names of headers
--                 of src/idempotent-proxy-types/src/lib.rs.
--   Clock         `unix_ms` of src/idempotent-proxy-types/src/lib.rs.
--   Auth          src/idempotent-proxy-types/src/auth.rs: the tokens.
--   Canister      src/idempotent-proxy-canister/src: Types (the records), Cycles (cycles.rs), Store
--                 (store.rs), Agent (agent.rs), Signer (ecdsa.rs, cose.rs and `Signer` of
--                 store.rs; Signer/Tokens is about its tokens at the proxy), Tasks (tasks.rs),
--                 Admin (api_admin.rs and the guards of lib.rs; Admin/Rights has the table of
--                 rights that its calls keep), Init (init.rs), Upgrade (the state in stable
--                 memory) and Api (api.rs; its two parallel calls are in Api/Parallel,
--                 `state_info` in Api/Info, the results on replies in its other children).
--                 Canister/Users is about the messages of users, over all of these.
--   Delivery      a request on its way from agent.rs of the canister to handler.rs of the server:
--                 Delivery says how HTTP delivers it, Delivery/Headers and Targets are about its
--                 headers and its URL, Delivery/Agents about what the proxy makes of it,
--                 Delivery/Replicas about the requests of several replicas.
--   Examples      examples/eth-canister: JSON-RPC by outcalls to a proxy (JsonRpc, EthCanister for
--                 jsonrpc.rs and agent.rs), its signatures (Signing, ecdsa.rs), its state, tasks
--                 and hooks (State and Stable, for store.rs, tasks.rs, init.rs and lib.rs) and its
--                 two calls (Service, lib.rs); examples/eth-canister-lite: JSON-RPC through the
--                 canister (Lite, jsonrpc.rs; Service, lib.rs). Answers, Tokens, Posted and
--                 Histories are about what they do.
--   Prelude       lists, texts, association lists and results that these share.
--
-- How they interact: `proxy` calls the token verifiers, the filters and the cache's four
-- operations. `proxy_http_request` of the canister charges by the calculator, calls the agents in
-- turn, and an agent's request carries the token that the refresh has signed; Delivery takes it
-- through HTTP to `prepare` of the server. The first example does the same with its own tokens, the
-- second calls the canister.
--
-- State is passed on explicitly. An operation of the cache is one function from the state to the
-- state, since it works under the write lock of the map; tasks interleave between operations and
-- between the rounds of a poll. The model is of operations that finish: a wait for a lock is not a
-- step. Memory/Locks is about these waits, with the locks that each branch takes and gives back and
-- nothing else of the state. The world of the handler is
-- a type `W`, so that what other tasks do while a call waits belongs to that call's step. A message
-- of the canister is a function too, with what other messages do during an `await` as an argument,
-- or with the state at its start and the one that it finds at its end. Errors are `err`, a trap is
-- `none` or an ending of its own.
--
-- Parameters, since they are other packages or programs: the header map, CBOR and JSON, the
-- signature schemes and the hash, base64, the URL parsers, the HTTP client, the Redis server, the
-- HTTPS outcall, the stable memory, the management canister and the COSE canister, the system's
-- cycles and the combinators of `futures`. What the theorems need of them are the hypotheses
-- `HeaderMapLaws`, `ReplyHeadersLaws`, `CodecLaws`, `CodingLaws`, `Verifies`, `RoundTrips`,
-- `ServerLaws`, `StableLaws`, `SignsFor`, `IsSigner`, `IsKeeper`, `Accepts`, `JoinLaws` and
-- `SelectLaws`, which state what the packages document, and `IsDelivered`, for HTTP. Each has an
-- instance, in a test or in the file of its small example.
--
-- Numbers are natural numbers; the sums of the cache's times, of the tokens' expiry and of the costs
-- wrap as their machine integers do in a release build. No function runs on fuel: the polls count
-- their rounds down, as the source does, and the other loops run over lists.
--
-- Not modelled: the logger, the router, the signals and the timers, which are calls of other packages
-- with no state of the program's own; when the clock is read, since the answers are arguments; the
-- tests of the source; and the worker in TypeScript, which is a second implementation of the proxy.
pub mod Prelude
pub mod Cache
pub mod Memory
pub mod Redis
pub mod Auth
pub mod Headers
pub mod Clock
pub mod Response
pub mod Proxy
pub mod Config
pub mod Canister
pub mod Examples
pub mod Delivery
