-- ===== src/Cache/Contract.antt =====
-- What a cache of `trait Cacher` (idempotent-proxy-server/src/cache/mod.rs) promises for a key.
--
-- A key has a slot: the time until which it is held, and its value, which is empty until the
-- response is there. `spec` is what a call does to a slot that has not expired. A cache is a type
-- of states with the calls and with what it does on its own (`tidy`), and `CacheLaws` says that it
-- does as `spec` does.
use idempotent_proxy.Prelude.{
  ℕ, ◌+◌, ◌<◌, ◌≤◌, ◌≡◌, ◌≢◌, String, Bool, false, Option, none, some, List, [], ltb, if◌then◌else◌,
  is_empty, length, u64_mod,
}

abbrev pub Slot : Type 0
Slot = Option (ℕ × List ℕ)

-- The slot, unless it has expired.
abbrev pub live : ℕ → Slot → Slot
live now none = none
live now (some (expire_at, value)) = if ltb now expire_at then some (expire_at, value) else none

abbrev pub is_live : ℕ → Slot → Bool
is_live now none = false
is_live now (some (expire_at, value)) = ltb now expire_at

-- A call of the trait for one key; `polls` is a round of `polling_get`.
pub data Call : Type 0 where
  obtains : ℕ → Call
  sets : List ℕ → ℕ → Call
  dels : Call
  polls : Call

pub data Reply : Type 0 where
  granted refused stored missed deleted waiting absent failed : Reply
  found : List ℕ → Reply

unfoldable pub spec : ℕ → Call → Slot → Slot × Reply
spec now (obtains ttl) none = (some (now + ttl, []), granted)
spec now (obtains ttl) (some held) = (some held, refused)
spec now (sets val ttl) none = (none, missed)
spec now (sets val ttl) (some held) = (some (now + ttl, val), stored)
spec now dels slot = (none, deleted)
spec now polls none = (none, absent)
spec now polls (some (d, v)) = (some (d, v), if is_empty v then waiting else found v)

-- The replies that are permitted, by the one that `spec` gives. What a poll of a key that nobody
-- holds returns is left open.
abbrev pub Permits : Call → Slot → Reply → Reply → Type 0
Permits polls none expected reply = Unit
Permits polls (some held) expected reply = reply ≡ expected
Permits (obtains ttl) slot expected reply = reply ≡ expected
Permits (sets val ttl) slot expected reply = reply ≡ expected
Permits dels slot expected reply = reply ≡ expected

-- The time to live is positive and its end fits a `u64`; a value has more than one byte.
abbrev pub IsTimely : ℕ → Call → Type 0
IsTimely now (obtains ttl) = (0 < ttl) × (now + ttl < u64_mod)
IsTimely now (sets val ttl) = (1 < length val) × (0 < ttl) × (now + ttl < u64_mod)
IsTimely now dels = Unit
IsTimely now polls = Unit

-- A value is set only while the key is held.
abbrev pub IsPunctual : Call → Slot → Type 0
IsPunctual (sets val ttl) none = ⊥
IsPunctual (sets val ttl) (some held) = Unit
IsPunctual (obtains ttl) slot = Unit
IsPunctual dels slot = Unit
IsPunctual polls slot = Unit

pub record Cache (W : Type 0) : Type 1 where
  pub perform : ℕ → String → Call → W → W × Reply
  pub tidy : ℕ → W → W
  pub slot : String → W → Slot
  pub IsSound : W → Type 0

pub record CacheLaws {W : Type 0} (c : Cache W) : Type 0 where
  pub perform-IsSound :
      (now : ℕ) (k : String) (call : Call) (w : W)
      → c.IsSound w
      → IsTimely now call
      → IsPunctual call (live now (c.slot k w))
      → c.IsSound (c.perform now k call w).0
  pub slot-perform :
      (now : ℕ) (k : String) (call : Call) (w : W)
      → c.IsSound w
      → IsTimely now call
      → IsPunctual call (live now (c.slot k w))
      → live now (c.slot k (c.perform now k call w).0) ≡ (spec now call (live now (c.slot k w))).0
  pub reply-perform :
      (now : ℕ) (k : String) (call : Call) (w : W)
      → c.IsSound w
      → IsTimely now call
      → IsPunctual call (live now (c.slot k w))
      → Permits call
          (live now (c.slot k w))
          (spec now call (live now (c.slot k w))).1
          (c.perform now k call w).1
  pub slot-perform_other :
      (now : ℕ) (k j : String) (call : Call) (w : W)
      → c.IsSound w
      → IsTimely now call
      → k ≢ j
      → live now (c.slot j (c.perform now k call w).0) ≡ live now (c.slot j w)
  pub tidy-IsSound : (now : ℕ) (w : W) → c.IsSound w → c.IsSound (c.tidy now w)
  -- `tidy` may go by an older clock.
  pub slot-tidy :
      (older now : ℕ) (k : String) (w : W)
      → c.IsSound w
      → older ≤ now
      → live now (c.slot k (c.tidy older w)) ≡ live now (c.slot k w)
