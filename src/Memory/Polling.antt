-- ===== src/Memory/Polling.antt =====
-- What a task that was refused the key gets from `polling_get`.
use idempotent_proxy.Prelude.{
  ℕ, zero, suc, ◌<◌, ◌≡◌, refl, ◌≢◌, String, List, [], ◌∷◌, arith, none, some, Bool-cases, lookup,
  ok, err, is_empty, ap, if◌then◌else◌, leb, ◌∙◌, inl, inr,
}
use idempotent_proxy.Memory.{MemoryCacher, deadline, set, polling_round, polling_get}
use idempotent_proxy.Memory.Lookups.{polling_round-kv, polling_round-queue}
use idempotent_proxy.Memory.Runs.{Event, run}
use idempotent_proxy.Memory.Invariant.{IsValid, set-IsValid}
use idempotent_proxy.Memory.Held.{IsHeld, set-IsHeld}
use idempotent_proxy.Memory.Exclusion.{AreSparing, run-IsHeld}

module _ (k : String) (d : ℕ) (v : List ℕ) (s : MemoryCacher) (held : IsHeld k d v s) where
  round-IsHeld : (now : ℕ) → IsHeld k d v (polling_round now k s).0
  round-IsHeld now = record {
    entry = rw (polling_round-kv k s now) held.entry;
    alone = rw (polling_round-queue k s now) held.alone;
  }

  round-result : (now : ℕ) → (polling_round now k s).1 ≡ (if is_empty v then none else some (ok v))
  unfolding polling_round
  round-result now = ground (arith, held.entry)

module _ (clock : ℕ → ℕ) (sleep : ℕ → ℕ → MemoryCacher → MemoryCacher) (k : String)
    (interval : ℕ) where
  -- A value that is set is returned in the first round.
  pub polling_get-IsHeld :
      (n d : ℕ) (v : List ℕ) (s : MemoryCacher)
      → v ≢ []
      → IsHeld k d v s
      → (polling_get clock sleep k interval (suc n) s).1 ≡ ok v
  unfolding polling_get
  polling_get-IsHeld n d [] s ne held = absurd (ne refl)
  polling_get-IsHeld n d (b ∷ v) s ne held =
      rw (round-result k d (b ∷ v) s held (clock (suc n)), polling_get) refl

  -- A round that finds the placeholder sleeps and goes on.
  polling_get_again :
      (n d : ℕ) (s : MemoryCacher)
      → IsHeld k d [] s
      → (polling_get clock sleep k interval (suc n) s).1
        ≡ (polling_get clock sleep k interval n
            (sleep interval n (polling_round (clock (suc n)) k s).0)).1
  unfolding polling_get
  polling_get_again n d s held = rw (round-result k d [] s held (clock (suc n)), polling_get) refl

  -- Handing over the response. A waiter whose lock holder sets a value during one of the
  -- waiter's sleeps, the one that leaves `m + 1` rounds, gets that value: the rounds before find
  -- the empty placeholder.
  pub polling_get-handoff :
      (m n d d' : ℕ) (v : List ℕ) (s : MemoryCacher)
      → v ≢ []
      → IsHeld k d [] s
      → ((c : ℕ) (u : MemoryCacher)
          → suc m < c
          → IsHeld k d [] u
          → IsHeld k d [] (sleep interval c u))
      → ((u : MemoryCacher) → IsHeld k d [] u → IsHeld k d' v (sleep interval (suc m) u))
      → suc m < n
      → (polling_get clock sleep k interval n s).1 ≡ ok v
  polling_get-handoff m zero d d' v s ne held waits sets lt = absurd (omega arith)
  polling_get-handoff m (suc n) d d' v s ne held waits sets lt =
      let u = (polling_round (clock (suc n)) k s).0 in
      let held_u = round-IsHeld k d [] s held (clock (suc n)) in
      polling_get_again n d s held ∙ elim (Bool-cases (leb n (suc m))) [
        | inl last ↦
            let e : n ≡ suc m = ground arith in
            ap (λ (j : ℕ). (polling_get clock sleep k interval j (sleep interval j u)).1) e
            ∙ polling_get-IsHeld m d' v (sleep interval (suc m) u) ne (sets u held_u)
        | inr more ↦
            polling_get-handoff m n d d' v (sleep interval n u) ne (waits n u (ground arith) held_u)
              waits sets (ground arith)
      ]

  -- A waiter whose lock holder sets nothing gives up after its last round, with an error.
  pub polling_get-timeout :
      (n d : ℕ) (s : MemoryCacher)
      → IsHeld k d [] s
      → ((c : ℕ) (u : MemoryCacher) → IsHeld k d [] u → IsHeld k d [] (sleep interval c u))
      → (polling_get clock sleep k interval n s).1 ≡ err "polling get cache timeout"
  unfolding polling_get
  polling_get-timeout zero d s held waits = refl
  polling_get-timeout (suc n) d s held waits =
      polling_get_again n d s held
      ∙ polling_get-timeout n d (sleep interval n (polling_round (clock (suc n)) k s).0)
          (waits n _ (round-IsHeld k d [] s held (clock (suc n)))) waits

  -- A waiter whose key is released is told so in its next round.
  pub polling_get-released :
      (n : ℕ) (s : MemoryCacher)
      → lookup k s.kv ≡ none
      → (polling_get clock sleep k interval (suc n) s).1 ≡ err "not obtained"
  unfolding polling_get polling_round
  polling_get-released n s vacant = ground arith

-- The response that the holder of a key sets before its lock expires is what every later
-- `polling_get` with at least one round returns, until the new expiry, however the operations of
-- other tasks interleave (no late `set` or `del` of that key among them).
set-run-polling_get :
    (t : ℕ) (k : String) (val : List ℕ) (ttl d : ℕ) (v : List ℕ) (events : List (ℕ × Event))
    (clock : ℕ → ℕ) (sleep : ℕ → ℕ → MemoryCacher → MemoryCacher) (interval n : ℕ)
    (s : MemoryCacher)
    → IsValid s
    → IsHeld k d v s
    → t < d
    → val ≢ []
    → AreSparing k (deadline t ttl) events
    → (polling_get clock sleep k interval (suc n) (run events (set t k val ttl s).0)).1 ≡ ok val
set-run-polling_get t k val ttl d v events clock sleep interval n s valid held lt ne sparing =
    polling_get-IsHeld clock sleep k interval n (deadline t ttl) val _ ne (
      run-IsHeld k (deadline t ttl) val events _ (set-IsValid valid t k val ttl) sparing
        (set-IsHeld t k val ttl d v s held lt).1)
