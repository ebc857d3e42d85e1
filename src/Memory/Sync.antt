-- ===== src/Memory/Sync.antt =====
-- What a cleaner removes.
use idempotent_proxy.Prelude.{
  ℕ, ◌≡◌, String, arith, Option-cases, Bool-cases, ltb, lookup, inl, inr, ◌∙◌,
}
use idempotent_proxy.Memory.{MemoryCacher, entry_key, run_cleaner}
use idempotent_proxy.Memory.Cleaning.{
  lookup-run_cleaner_live, lookup-run_cleaner_expired, lookup_of_run_cleaner, Member-of_run_cleaner,
}
use idempotent_proxy.Cache.Contract.{live}
use idempotent_proxy.Memory.Invariant.{IsValid}
use idempotent_proxy.Memory.Held.{NoStale}

-- On a valid cache, a cleaner removes the entry of a key with no stale entry exactly if that has
-- expired, and it leaves no stale entry of the key.
pub run_cleaner-exact :
    (now : ℕ) (k : String) (s : MemoryCacher)
    → IsValid s
    → NoStale k s
    → (lookup k (run_cleaner now s).kv ≡ live now (lookup k s.kv)) × NoStale k (run_cleaner now s)
run_cleaner-exact now k s valid clean = (exact, stale)
  where
    exact : lookup k (run_cleaner now s).kv ≡ live now (lookup k s.kv)
    exact = elim (Option-cases (lookup k s.kv)) [
      | inl vacant ↦ ground (arith, lookup_of_run_cleaner now s k)
      | inr ((e, v), found) ↦ elim (Bool-cases (ltb now e)) [
        | inl fresh ↦
            lookup-run_cleaner_live now s k (λ q m h. ground (arith, clean q m h)) ∙ ground arith
        | inr expired ↦ ground (
          arith,
          valid.covered k e v,
          lookup-run_cleaner_expired now s (entry_key e k) valid.sorted,
        )
      ]
    ]

    stale : NoStale k (run_cleaner now s)
    stale q m h =
        let (m', fresh) = Member-of_run_cleaner now s q valid.sorted m in
        let (v, found) = clean q m' h in (v, exact ∙ ground arith)
