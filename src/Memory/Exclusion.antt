-- ===== src/Memory/Exclusion.antt =====
-- A lock that `obtain` hands out stays with its holder until it expires, is set or is deleted.
use idempotent_proxy.Prelude.{
  ℕ, ◌<◌, ◌≡◌, String, Bool, true, false, List, [], ◌∷◌, All, ap, ok, Result,
}
use idempotent_proxy.Memory.{MemoryCacher, deadline, obtain}
use idempotent_proxy.Memory.Runs.{Event, apply, run, Spares}
use idempotent_proxy.Memory.Invariant.{IsValid, obtain-IsValid, apply-IsValid}
use idempotent_proxy.Memory.Held.{IsHeld, NoStale, obtain-IsHeld, obtain_held, apply-IsHeld}

-- The events all come before a time, and leave the entry of a key alone.
abbrev pub AreSparing : String → ℕ → List (ℕ × Event) → Type 0
AreSparing k d = All (λ (p : ℕ × Event). (p.0 < d) × Spares k p.1)

pub run-IsHeld :
    (k : String) (d : ℕ) (v : List ℕ) (events : List (ℕ × Event)) (s : MemoryCacher)
    → IsValid s
    → AreSparing k d events
    → IsHeld k d v s
    → IsHeld k d v (run events s)
unfolding run
run-IsHeld k d v [] s valid sparing held = held
run-IsHeld k d v ((now, e) ∷ events) s valid ((lt, spares), sparing) held =
    run-IsHeld k d v events (apply now e s) (apply-IsValid valid now e) sparing
      (apply-IsHeld k d v s held now e lt valid.sorted spares)

-- Mutual exclusion. On a valid cache with no stale entry of the key, once `obtain` has returned
-- true, it returns false to everybody until the lock's expiry, however the other tasks' operations
-- interleave: `obtain`s of any key, polling, cleaners, and `set`s and `del`s of other keys.
pub obtain-run-obtain :
    (t t' : ℕ) (k : String) (ttl ttl' : ℕ) (events : List (ℕ × Event)) (s : MemoryCacher)
    → IsValid s
    → NoStale k s
    → (obtain t k ttl s).1 ≡ ok true
    → AreSparing k (deadline t ttl) events
    → t' < deadline t ttl
    → (obtain t' k ttl' (run events (obtain t k ttl s).0)).1 ≡ ok false
obtain-run-obtain t t' k ttl ttl' events s valid clean won sparing lt =
    let s' = (obtain t k ttl s).0 in
    let held =
      run-IsHeld k (deadline t ttl) [] events s' (obtain-IsValid valid t k ttl) sparing
        (obtain-IsHeld t k ttl s clean won) in
    ap (λ (r : MemoryCacher × Result Bool String). r.1)
      (obtain_held k (deadline t ttl) [] (run events s') held t' ttl' lt)
