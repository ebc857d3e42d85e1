-- ===== src/Memory/Runs.antt =====
-- Interleavings of the operations of several tasks, as lists of events with their times.
use idempotent_proxy.Prelude.{ℕ, String, List, [], ◌∷◌, ◌≢◌}
use idempotent_proxy.Memory.{MemoryCacher, obtain, set, del, polling_round, run_cleaner}

-- A locked section of a task: a whole operation, a round of `polling_get`, or a spawned cleaner.
pub data Event : Type 0 where
  obtains : String → ℕ → Event
  sets : String → List ℕ → ℕ → Event
  dels : String → Event
  polls : String → Event
  cleans : Event

unfoldable pub apply : ℕ → Event → MemoryCacher → MemoryCacher
apply now (obtains key ttl) s = (obtain now key ttl s).0
apply now (sets key val ttl) s = (set now key val ttl s).0
apply now (dels key) s = (del key s).0
apply now (polls key) s = (polling_round now key s).0
apply now cleans s = run_cleaner now s

unfoldable pub run : List (ℕ × Event) → MemoryCacher → MemoryCacher
run [] s = s
run ((now, e) ∷ events) s = run events (apply now e s)

-- The event writes or deletes no entry of the key: what a task that was refused the key can do.
abbrev pub Spares : String → Event → Type 0
Spares k (obtains key ttl) = Unit
Spares k (sets key val ttl) = key ≢ k
Spares k (dels key) = key ≢ k
Spares k (polls key) = Unit
Spares k cleans = Unit
