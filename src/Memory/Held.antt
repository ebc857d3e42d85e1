-- ===== src/Memory/Held.antt =====
-- The key that is held: what each operation makes of it.
use idempotent_proxy.Prelude.{
  ℕ, ◌<◌, ◌≡◌, ◌≢◌, inl, inr, String, true, false, List, [], arith, eq_iff, eq_refl, none, some,
  Option-cases, Bool-cases, str_eq, ltb, leb, lookup, lookup-insert, Member, ap, sym, ok, ◌∙◌,
}
use idempotent_proxy.Memory.{
  PriorityKey, MemoryCacher, entry_key, deadline, obtain, set, del, clean_expired_values,
  queue_insert, queue_remove,
}
use idempotent_proxy.Memory.Queue.{IsSorted, Member-of_queue_insert, Member-of_queue_remove}
use idempotent_proxy.Memory.Cleaning.{lookup-run_cleaner_live, Member-of_run_cleaner}
use idempotent_proxy.Memory.Lookups.{
  lookup-obtain, lookup-set, lookup-del, polling_round-kv, polling_round-queue,
}
use idempotent_proxy.Memory.Runs.{Event, obtains, sets, dels, polls, cleans, apply, Spares}

-- The key's entries in the queue all belong to its entry in the map: no stale one is left.
abbrev pub NoStale : String → MemoryCacher → Type 0
NoStale k s =
    (q : PriorityKey)
    → Member q s.priority_queue
    → q.key ≡ k
    → (v : List ℕ) × (lookup k s.kv ≡ some (q.expire_at, v))

-- The key is held until `d`, with a value, and the queue knows no other expiry of it.
pub record IsHeld (k : String) (d : ℕ) (v : List ℕ) (s : MemoryCacher) : Type 0 where
  pub entry : lookup k s.kv ≡ some (d, v)
  pub alone : (q : PriorityKey) → Member q s.priority_queue → q.key ≡ k → q.expire_at ≡ d

entry_key-ne :
    (q : PriorityKey) (e : ℕ) (k : String) → q ≢ entry_key e k → q.key ≡ k → q.expire_at ≡ e → ⊥
entry_key-ne q e k ne h h' = ne (λ i. record { expire_at = h' i; key = h i })

IsHeld-NoStale : (k : String) (d : ℕ) (v : List ℕ) (s : MemoryCacher) → IsHeld k d v s → NoStale k s
IsHeld-NoStale k d v s held q m h = (v, ground (arith, held.entry, held.alone q m h))

-- The queue after an entry of the key is replaced.
pub replaced-alone :
    (k : String) (s : MemoryCacher) (old d : ℕ) (v : List ℕ)
    → NoStale k s
    → lookup k s.kv ≡ some (old, v)
    → (q : PriorityKey)
    → Member q (queue_insert (entry_key d k) (queue_remove (entry_key old k) s.priority_queue))
    → q.key ≡ k
    → q.expire_at ≡ d
replaced-alone k s old d v clean found q m h =
    let rest = queue_remove (entry_key old k) s.priority_queue in
    elim (Member-of_queue_insert (entry_key d k) q rest m) [
      | inl e ↦ ap (λ (p : PriorityKey). p.expire_at) e
      | inr m' ↦
          let (ne, m'') = Member-of_queue_remove (entry_key old k) q s.priority_queue m' in
          absurd (entry_key-ne q old k ne h (ground (arith, clean q m'' h)))
    ]

pub inserted-alone :
    (k : String) (s : MemoryCacher) (d : ℕ)
    → NoStale k s
    → lookup k s.kv ≡ none
    → (q : PriorityKey) → Member q (queue_insert (entry_key d k) s.priority_queue)
    → q.key ≡ k
    → q.expire_at ≡ d
inserted-alone k s d clean vacant q m h =
    elim (Member-of_queue_insert (entry_key d k) q s.priority_queue m) [
      | inl e ↦ ap (λ (p : PriorityKey). p.expire_at) e
      | inr m' ↦ absurd (ground (arith, clean q m' h))
    ]

pub obtain-IsHeld :
    (now : ℕ) (k : String) (ttl : ℕ) (s : MemoryCacher)
    → NoStale k s
    → (obtain now k ttl s).1 ≡ ok true
    → IsHeld k (deadline now ttl) [] (obtain now k ttl s).0
unfolding obtain
obtain-IsHeld now k ttl s clean won = elim (Option-cases (lookup k s.kv)) [
  | inl vacant ↦
      rw (vacant, obtain)
        (record {
          entry = rw (lookup-insert k k _ s.kv) (rw (eq_refl k));
          alone = inserted-alone k s _ clean vacant;
        })
  | inr ((e, v), found) ↦ elim (Bool-cases (ltb now e)) [
    | inl busy ↦ absurd (ground arith)
    | inr expired ↦
        rw (found, obtain)
          (rw expired (record {
            entry = rw (lookup-insert k k _ s.kv) (rw (eq_refl k));
            alone = replaced-alone k s e _ v clean found;
          }))
  ]
]

pub set-IsHeld :
    (now : ℕ) (k : String) (val : List ℕ) (ttl : ℕ) (d : ℕ) (v : List ℕ) (s : MemoryCacher)
    → IsHeld k d v s
    → now < d
    → ((set now k val ttl s).1 ≡ ok true) × IsHeld k (deadline now ttl) val (set now k val ttl s).0
unfolding set
set-IsHeld now k val ttl d v s held lt = (
  ground (arith, held.entry),
  record {
    entry = ground (arith, held.entry, lookup-set now k val ttl s k, eq_iff k k);
    alone =
        let late : leb d now ≡ false = ground arith in
        rw (held.entry, set)
          (rw late (replaced-alone k s d _ v (IsHeld-NoStale k d v s held) held.entry));
  },
)

module _ (k : String) (d : ℕ) (v : List ℕ) (s : MemoryCacher) (held : IsHeld k d v s) where
  other_insert :
      (key : String) (e : ℕ) (pq : List PriorityKey)
      → key ≢ k
      → ((q : PriorityKey) → Member q pq → q.key ≡ k → q.expire_at ≡ d)
      → (q : PriorityKey) → Member q (queue_insert (entry_key e key) pq)
      → q.key ≡ k
      → q.expire_at ≡ d
  other_insert key e pq ne h q m hk = elim (Member-of_queue_insert (entry_key e key) q pq m) [
    | inl new ↦ absurd (ne (sym (ap (λ (p : PriorityKey). p.key) new) ∙ hk))
    | inr old ↦ h q old hk
  ]

  other_remove :
      (key : String) (e : ℕ) (q : PriorityKey)
      → Member q (queue_remove (entry_key e key) s.priority_queue)
      → q.key ≡ k
      → q.expire_at ≡ d
  other_remove key e q m = held.alone q (Member-of_queue_remove (entry_key e key) q _ m).1

  obtain_other-alone :
      (now : ℕ) (key : String) (ttl : ℕ)
      → key ≢ k
      → (q : PriorityKey) → Member q (obtain now key ttl s).0.priority_queue
      → q.key ≡ k
      → q.expire_at ≡ d
  unfolding obtain
  obtain_other-alone now key ttl ne q m h = elim (Option-cases (lookup key s.kv)) [
    | inl vacant ↦ other_insert key _ s.priority_queue ne held.alone q (rw (vacant, obtain) at m) h
    | inr ((e, w), found) ↦ elim (Bool-cases (ltb now e)) [
      | inl busy ↦ held.alone q (rw busy at (rw (found, obtain) at m)) h
      | inr expired ↦
          other_insert key _ _ ne (other_remove key e) q (rw expired at (rw (found, obtain) at m)) h
    ]
  ]

  set_other-alone :
      (now : ℕ) (key : String) (val : List ℕ) (ttl : ℕ)
      → key ≢ k
      → (q : PriorityKey) → Member q (set now key val ttl s).0.priority_queue
      → q.key ≡ k
      → q.expire_at ≡ d
  unfolding set clean_expired_values
  set_other-alone now key val ttl ne q m h = elim (Option-cases (lookup key s.kv)) [
    | inl vacant ↦ held.alone q (rw (vacant, set) at m) h
    | inr ((e, w), found) ↦ elim (Bool-cases (leb e now)) [
      | inl expired ↦ held.alone q (rw expired at (rw (found, set) at m)) h
      | inr fresh ↦
          other_insert key _ _ ne (other_remove key e) q (rw fresh at (rw (found, set) at m)) h
    ]
  ]

  del-alone :
      (key : String) (q : PriorityKey)
      → Member q (del key s).0.priority_queue
      → q.key ≡ k
      → q.expire_at ≡ d
  unfolding del clean_expired_values
  del-alone key q m h = elim (Option-cases (lookup key s.kv)) [
    | inl vacant ↦ held.alone q (rw (vacant, del) at m) h
    | inr ((e, w), found) ↦ other_remove key e q (rw (found, del) at m) h
  ]

  pub obtain_held : (now ttl : ℕ) → now < d → obtain now k ttl s ≡ (s, ok false)
  unfolding obtain
  obtain_held now ttl lt = ground (arith, held.entry)

  obtain_any-IsHeld :
      (now : ℕ) (key : String) (ttl : ℕ) → now < d → IsHeld k d v (obtain now key ttl s).0
  obtain_any-IsHeld now key ttl lt = elim (Bool-cases (str_eq key k)) [
    | inl same ↦ let e : key ≡ k = (eq_iff key k).0 same in rw e (rw (obtain_held now ttl lt) held)
    | inr other ↦
        let ne : key ≢ k = ground (arith, eq_iff key k) in
        record {
          entry = ground (arith, lookup-obtain now key ttl s k, held.entry);
          alone = obtain_other-alone now key ttl ne;
        }
  ]

  pub apply-IsHeld :
      (now : ℕ) (e : Event)
      → now < d
      → IsSorted s.priority_queue
      → Spares k e
      → IsHeld k d v (apply now e s)
  unfolding apply
  apply-IsHeld now (obtains key ttl) lt sorted spares = obtain_any-IsHeld now key ttl lt
  apply-IsHeld now (sets key val ttl) lt sorted ne = record {
    entry = ground (arith, eq_iff key k, lookup-set now key val ttl s k, held.entry);
    alone = set_other-alone now key val ttl ne;
  }
  apply-IsHeld now (dels key) lt sorted ne = record {
    entry = ground (arith, eq_iff key k, lookup-del key s k, held.entry);
    alone = del-alone key;
  }
  apply-IsHeld now (polls key) lt sorted spares = record {
    entry = rw (polling_round-kv key s now) held.entry;
    alone = rw (polling_round-queue key s now) held.alone;
  }
  apply-IsHeld now cleans lt sorted spares = record {
    entry =
        lookup-run_cleaner_live now s k (λ q m h. ground (arith, held.alone q m h)) ∙ held.entry;
    alone = λ q m h. held.alone q (Member-of_run_cleaner now s q sorted m).0 h;
  }
