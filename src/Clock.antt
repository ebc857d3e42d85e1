-- ===== src/Clock.antt =====
-- `unix_ms` of idempotent-proxy-types/src/lib.rs: the time that the cache and the tokens go by.
use idempotent_proxy.Prelude.{
  ℕ, ◌+◌, ◌*◌, ◌/◌, ◌%◌, ◌<◌, ◌≤◌, ◌≡◌, refl, ap, Option, none, some, arith, ltb, u64_mod,
}
use native.Mathlib.Nat.{mod-eq_of_lt}
use idempotent_proxy.Auth.{Token, permitted_drift, is_expired}

-- `Duration`: the nanoseconds are less than a second.
pub record Duration : Type 0 where
  pub seconds : ℕ
  pub nanos : ℕ

-- `SystemTime`, by its distance from the Unix epoch.
pub data SystemTime : Type 0 where
  since_epoch : Duration → SystemTime
  before_epoch : Duration → SystemTime

-- `SystemTime::duration_since(UNIX_EPOCH)`, without the error's distance.
abbrev pub duration_since_epoch : SystemTime → Option Duration
duration_since_epoch (since_epoch d) = some d
duration_since_epoch (before_epoch d) = none

abbrev pub as_millis : Duration → ℕ
as_millis d = d.seconds * 1000 + d.nanos / 1000000

-- At a reading of `SystemTime::now()`. The panic of `expect` is `none`, and `as u64` wraps.
unfoldable pub unix_ms : SystemTime → Option ℕ
unix_ms now = elim (duration_since_epoch now) [
  | none ↦ none
  | some ts ↦ some (as_millis ts % u64_mod)
]

module _ (d : Duration) (whole : d.nanos < 1000000000)
    (small : d.seconds * 1000 + 1000 ≤ u64_mod) where
  unix_ms-exact : unix_ms (since_epoch d) ≡ some (as_millis d)
  unfolding unix_ms
  unix_ms-exact = ap some (mod-eq_of_lt {n = as_millis d} {m = u64_mod} (omega arith))

  -- A token is held against the whole seconds of the clock.
  is_expired-unix_ms :
      (token : Token) (now_ms : ℕ)
      → unix_ms (since_epoch d) ≡ some now_ms
      → is_expired token now_ms ≡ ltb ((token.expire_at + permitted_drift) % u64_mod) d.seconds
  unfolding is_expired
  is_expired-unix_ms token now_ms h =
      let e : now_ms ≡ as_millis d = ground (arith, unix_ms-exact) in
      let s : now_ms / 1000 ≡ d.seconds = omega arith in rw s refl
