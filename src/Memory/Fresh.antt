-- ===== src/Memory/Fresh.antt =====
-- No operation but a late `set` leaves a stale entry in the queue.
use idempotent_proxy.Prelude.{
  ℕ, ◌≡◌, inl, inr, String, false, List, [], arith, eq_iff, some, Option-cases, Bool-cases, str_eq,
  ltb, leb, lookup, insert, lookup-insert, lookup-remove, Member, ap, sym, ◌∙◌,
}
use idempotent_proxy.Memory.{
  PriorityKey, MemoryCacher, entry_key, deadline, obtain, set, del, polling_round,
  clean_expired_values, queue_insert, queue_remove,
}
use idempotent_proxy.Memory.Queue.{Member-of_queue_insert, Member-of_queue_remove}
use idempotent_proxy.Memory.Lookups.{polling_round-kv, polling_round-queue}
use idempotent_proxy.Memory.Held.{NoStale, replaced-alone, inserted-alone}

module _ (k j : String) (s : MemoryCacher) (clean : NoStale k s) (others : NoStale j s) where
  -- A new entry of `k` over a queue that has lost entries of `k` at most.
  entered-NoStale :
      (d : ℕ) (v : List ℕ) (n : ℕ) (rest : List PriorityKey)
      → ((q : PriorityKey) → Member q rest → Member q s.priority_queue)
      → ((q : PriorityKey)
          → Member q (queue_insert (entry_key d k) rest)
          → q.key ≡ k
          → q.expire_at ≡ d)
      → NoStale j (record {
        priority_queue = queue_insert (entry_key d k) rest;
        kv = insert k (d, v) s.kv;
        cleaners = n;
      })
  entered-NoStale d v n rest old alone q m h = elim (Bool-cases (str_eq k j)) [
    | inl same ↦
        let e : k ≡ j = (eq_iff k j).0 same in
        (v, ground (arith, lookup-insert k j (d, v) s.kv, alone q m (h ∙ sym e)))
    | inr other ↦ elim (Member-of_queue_insert (entry_key d k) q rest m) [
      | inl new ↦ absurd (ground (arith, eq_iff k j, ap (λ (p : PriorityKey). p.key) new))
      | inr m' ↦
          let (w, found) = others q (old q m') h in
          (w, ground (arith, lookup-insert k j (d, v) s.kv))
    ]
  ]

  replaced-NoStale :
      (old d : ℕ) (w v : List ℕ) (n : ℕ)
      → lookup k s.kv ≡ some (old, w)
      → NoStale j (record {
        priority_queue =
            queue_insert (entry_key d k) (queue_remove (entry_key old k) s.priority_queue);
        kv = insert k (d, v) s.kv;
        cleaners = n;
      })
  replaced-NoStale old d w v n found =
      entered-NoStale d v n _ (λ q m. (Member-of_queue_remove (entry_key old k) q _ m).1)
        (replaced-alone k s old d w clean found)

  pub obtain-NoStale : (now ttl : ℕ) → NoStale j (obtain now k ttl s).0
  unfolding obtain
  obtain-NoStale now ttl = elim (Option-cases (lookup k s.kv)) [
    | inl vacant ↦
        rw (vacant, obtain)
          (entered-NoStale (deadline now ttl) [] s.cleaners s.priority_queue (λ q m. m)
            (inserted-alone k s (deadline now ttl) clean vacant))
    | inr ((e, v), found) ↦ elim (Bool-cases (ltb now e)) [
      | inl busy ↦ rw (found, obtain) (rw busy others)
      | inr expired ↦
          rw (found, obtain)
            (rw expired (replaced-NoStale e (deadline now ttl) v [] s.cleaners found))
    ]
  ]

  -- A `set` of a live key.
  pub set-NoStale :
      (now : ℕ) (val : List ℕ) (ttl d : ℕ) (v : List ℕ)
      → lookup k s.kv ≡ some (d, v)
      → leb d now ≡ false
      → NoStale j (set now k val ttl s).0
  unfolding set
  set-NoStale now val ttl d v found fresh =
      rw (found, set) (rw fresh (replaced-NoStale d (deadline now ttl) v val s.cleaners found))

  pub del-NoStale : NoStale j (del k s).0
  unfolding del clean_expired_values
  del-NoStale = elim (Option-cases (lookup k s.kv)) [
    | inl vacant ↦ rw (vacant, del) others
    | inr ((e, v), found) ↦
        rw (found, del)
          (λ q m h.
            let (ne, m') = Member-of_queue_remove (entry_key e k) q s.priority_queue m in
            let (w, found') = others q m' h in
            elim (Bool-cases (str_eq k j)) [
              | inl same ↦
                  let same_key : k ≡ j = (eq_iff k j).0 same in
                  let same_expiry : q.expire_at ≡ e =
                    ground (arith, found', found, ap (λ (i : String). lookup i s.kv) same_key) in
                  absurd
                    (ne (λ i. record { expire_at = same_expiry i; key = (h ∙ sym same_key) i }))
              | inr other ↦ (w, ground (arith, lookup-remove k j s.kv))
            ])
  ]

  pub polling_round-NoStale : (now : ℕ) → NoStale j (polling_round now k s).0
  polling_round-NoStale now =
      rw (polling_round-kv k s now) (rw (polling_round-queue k s now) others)
