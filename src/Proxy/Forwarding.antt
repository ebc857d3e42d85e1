-- ===== src/Proxy/Forwarding.antt =====
-- How `proxy` runs, branch by branch, over any cache.
use idempotent_proxy.Prelude.{
  ℕ, ◌≡◌, refl, ◌≤◌, String, Bool, true, false, ◌&&◌, List, Result, ok, err, leb, arith,
}
use idempotent_proxy.Response.{ResponseData, Codec}
use idempotent_proxy.Proxy.Access.{Packages, AppState, Request, Prepared, prepare}
use idempotent_proxy.Cache.{Cacher}
use idempotent_proxy.Proxy.{Outgoing, Upstream, outgoing, response_of, settle, forward, wait, proxy}

module _ {W : Type 0} (p : Packages) (codec : Codec) (from_utf8_lossy : List ℕ → String)
    (cacher : Cacher W) (execute : Outgoing p → W → W × Result (Upstream p) String)
    (app : AppState p) (req : Request p) where
  pub proxy-forward :
      (now_ms : ℕ) (w w' : W) (prepared : Prepared p)
      → prepare p app req now_ms ≡ ok prepared
      → cacher.obtain prepared.idempotency_key app.cache_ttl w ≡ (w', ok true)
      → proxy p codec from_utf8_lossy cacher execute app req now_ms w
        ≡ forward p codec from_utf8_lossy cacher execute app req prepared w'
  unfolding proxy
  proxy-forward now_ms w w' prepared ready got = rw (ready, proxy) (rw got (rw got refl))

  pub proxy-wait :
      (now_ms : ℕ) (w w' : W) (prepared : Prepared p)
      → prepare p app req now_ms ≡ ok prepared
      → cacher.obtain prepared.idempotency_key app.cache_ttl w ≡ (w', ok false)
      → proxy p codec from_utf8_lossy cacher execute app req now_ms w
        ≡ wait p codec from_utf8_lossy cacher execute app prepared w'
  unfolding proxy
  proxy-wait now_ms w w' prepared ready refused = rw (ready, proxy) (rw refused (rw refused refl))

  pub forward-settle :
      (w w' : W) (prepared : Prepared p) (rreq : Outgoing p) (rres : Upstream p) (res_body : List ℕ)
      → outgoing p app req prepared.url ≡ ok rreq
      → execute rreq w ≡ (w', ok rres)
      → rres.bytes ≡ ok res_body
      → forward p codec from_utf8_lossy cacher execute app req prepared w
        ≡ settle p codec from_utf8_lossy cacher execute app req prepared.idempotency_key rres.status
            rres.headers res_body w'
  unfolding forward
  forward-settle w w' prepared rreq rres res_body built answered read =
      rw (built, forward) (rw answered (rw read (rw answered refl)))

  pub settle_cached :
      (w w' : W) (key : String) (rres : Upstream p) (res_body : List ℕ) (rd : ResponseData)
      (bytes : List ℕ) (b : Bool)
      → 200 ≤ rres.status
      → rres.status ≤ 500
      → response_of p codec req rres.status rres.headers res_body ≡ ok (rd, bytes)
      → cacher.set key bytes app.cache_ttl w ≡ (w', ok b)
      → settle p codec from_utf8_lossy cacher execute app req key rres.status rres.headers res_body
          w
        ≡ (w', ok rd)
  unfolding settle
  settle_cached w w' key rres res_body rd bytes b low high made stored =
      let in_range : (leb 200 rres.status && leb rres.status 500) ≡ true = ground arith in
      rw (in_range, settle) (rw made (rw stored (rw stored refl)))

  -- What the requests cost that never reach an upstream: the error leaves the world as `execute`
  -- left it. The key that was obtained is neither set nor deleted.
  pub forward_unanswered :
      (w w' : W) (prepared : Prepared p) (rreq : Outgoing p) (e : String)
      → outgoing p app req prepared.url ≡ ok rreq
      → execute rreq w ≡ (w', err e)
      → forward p codec from_utf8_lossy cacher execute app req prepared w ≡ (w', err (502, e))
  unfolding forward
  forward_unanswered w w' prepared rreq e built failed =
      rw (built, forward) (rw failed (rw failed refl))
