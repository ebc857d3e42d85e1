-- ===== src/Memory/Lookups.antt =====
-- What each operation leaves under every key of the map.
use idempotent_proxy.Prelude.{
  ℕ, ◌≡◌, String, true, false, List, [], arith, eq_iff, none, some, str_eq, lookup, lookup-insert,
  lookup-remove, if◌then◌else◌, ok,
}
use idempotent_proxy.Cache.Contract.{is_live}
use idempotent_proxy.Memory.{
  MemoryCacher, deadline, obtain, set, del, polling_round, clean_expired_values,
}

module _ (now : ℕ) (key : String) (ttl : ℕ) (s : MemoryCacher) where
  -- `obtain` succeeds exactly when the key has no live entry, and never fails.
  pub obtain-result :
      (obtain now key ttl s).1 ≡ (if is_live now (lookup key s.kv) then ok false else ok true)
  unfolding obtain
  obtain-result = ground arith

  pub lookup-obtain :
      (j : String)
      → lookup j (obtain now key ttl s).0.kv ≡ (
          if str_eq key j
          then (if is_live now (lookup key s.kv)
              then lookup j s.kv
              else some (deadline now ttl, []))
          else lookup j s.kv)
  unfolding obtain
  lookup-obtain j = ground (arith, eq_iff key j, lookup-insert key j (deadline now ttl, []) s.kv)

module _ (now : ℕ) (key : String) (val : List ℕ) (ttl : ℕ) (s : MemoryCacher) where
  pub lookup-set :
      (j : String)
      → lookup j (set now key val ttl s).0.kv ≡ (
          if str_eq key j
          then (if is_live now (lookup key s.kv) then some (deadline now ttl, val) else none)
          else lookup j s.kv)
  unfolding set clean_expired_values
  lookup-set j = ground (
    arith,
    eq_iff key j,
    lookup-insert key j (deadline now ttl, val) s.kv,
    lookup-remove key j s.kv,
  )

module _ (key : String) (s : MemoryCacher) where
  pub lookup-del :
      (j : String) → lookup j (del key s).0.kv ≡ (if str_eq key j then none else lookup j s.kv)
  unfolding del
  lookup-del j = ground (arith, eq_iff key j, lookup-remove key j s.kv)

  pub polling_round-kv : (now : ℕ) → (polling_round now key s).0.kv ≡ s.kv
  unfolding polling_round
  polling_round-kv now = ground arith

  pub polling_round-queue :
      (now : ℕ) → (polling_round now key s).0.priority_queue ≡ s.priority_queue
  unfolding polling_round
  polling_round-queue now = ground arith
