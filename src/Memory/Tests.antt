-- ===== src/Memory/Tests.antt =====
-- The test of memory.rs, and the theorems at concrete inputs.
use idempotent_proxy.Prelude.{
  ℕ, ◌≡◌, refl, ◌+◌, String, true, false, List, [], ◌∷◌, lookup, insert, remove, ok, err, arith,
  Member, inl, inr, eq_iff, ◌≢◌,
}
use idempotent_proxy.Memory.{
  MemoryCacher, PriorityKey, empty_cacher, deadline, queue_insert, queue_remove, clean_loop,
  run_cleaner, obtain, set, del, polling_round, polling_get,
}
use idempotent_proxy.Cache.Contract.{live}
use idempotent_proxy.Memory.Runs.{Event, obtains, sets, dels, polls, cleans, apply, run}
use idempotent_proxy.Memory.Invariant.{IsValid, run-IsValid}
use idempotent_proxy.Memory.Polling.{polling_get-handoff}
use idempotent_proxy.Memory.Held.{NoStale, IsHeld, set-IsHeld}
use idempotent_proxy.Memory.Exclusion.{obtain-run-obtain}
use idempotent_proxy.Memory.Sync.{run_cleaner-exact}
use idempotent_proxy.Prelude.{◌<◌, ◌==◌, if◌then◌else◌}
use idempotent_proxy.Memory.Locks.{
  fresh, set_live, cleaner, poll, del_missing, crossed, Reaches, IsStuck, crossed-IsStuck,
}
use idempotent_proxy.Memory.LateSet.{late_set-obtain-obtain}

program : Unit {0}
unfolding lookup insert remove deadline queue_insert queue_remove clean_loop run_cleaner obtain set
    del polling_round polling_get run apply
program = tt

-- `key1` is obtained at 1000 for 100 ms.
abbrev obtained : MemoryCacher
obtained = record {
  priority_queue = record { expire_at = 1100; key = "key1" } ∷ [];
  kv = ("key1", (1100, [])) ∷ [];
  cleaners = 0;
}

obtain_first : obtain 1000 "key1" 100 empty_cacher ≡ (obtained, ok true)
unfolding program
obtain_first = refl

obtain_second : obtain 1001 "key1" 100 obtained ≡ (obtained, ok false)
unfolding program
obtain_second = refl

abbrev no_sleep : ℕ → ℕ → MemoryCacher → MemoryCacher
no_sleep interval counter s = s

poll_empty :
    (polling_get (λ c. 1002) no_sleep "key1" 10 2 obtained).1 ≡ err "polling get cache timeout"
unfolding program
poll_empty = refl

set_unknown : (set 1003 "key" (1 ∷ 2 ∷ []) 100 obtained).1 ≡ err "not obtained"
unfolding program
set_unknown = refl

set_then_poll :
    (polling_get (λ c. 1005) no_sleep "key1" 10 2 (set 1004 "key1" (1 ∷ 2 ∷ []) 100 obtained).0).1
    ≡ ok (1 ∷ 2 ∷ [])
unfolding program
set_then_poll = refl

cleaned : run ((1200, cleans) ∷ []) obtained ≡ record empty_cacher { cleaners = 0 }
unfolding program
cleaned = refl

empty-IsValid : IsValid empty_cacher
unfolding lookup
empty-IsValid = record { sorted = tt; covered = λ k e v h. cc }

obtained-IsValid : IsValid obtained
unfolding lookup
obtained-IsValid = record {
  sorted = (tt, tt);
  covered = λ k e v h. ground (arith, eq_iff "key1" k);
}

obtained-NoStale : NoStale "key1" obtained
unfolding lookup
obtained-NoStale q (inl e) h = ([], ground arith)
obtained-NoStale q (inr m) h = absurd m

empty-NoStale : NoStale "key1" empty_cacher
empty-NoStale q m h = absurd m

obtained-IsHeld : IsHeld "key1" 1100 [] obtained
unfolding lookup
obtained-IsHeld = record { entry = refl; alone = only }
  where
    only :
        (q : PriorityKey) → Member q obtained.priority_queue → q.key ≡ "key1" → q.expire_at ≡ 1100
    only q (inl e) h = ground arith
    only q (inr m) h = absurd m

-- Another key is obtained, set and deleted, the first is polled and refused, and a cleaner runs.
abbrev others : List (ℕ × Event)
others =
    (1010, obtains "key2" 100)
    ∷ (1020, obtains "key1" 100)
    ∷ (1030, sets "key2" (9 ∷ []) 5)
    ∷ (1040, polls "key1")
    ∷ (1050, cleans)
    ∷ (1060, dels "key2")
    ∷ []

key2_ne : ◌≢◌ {A = String} "key2" "key1"
key2_ne = ground (arith, eq_iff "key2" "key1")

run-IsValid_example : IsValid (run others obtained)
run-IsValid_example = run-IsValid others obtained obtained-IsValid

obtain-run-obtain_example :
    (obtain 1099 "key1" 100 (run others (obtain 1000 "key1" 100 empty_cacher).0)).1 ≡ ok false
unfolding obtain deadline lookup
obtain-run-obtain_example =
    obtain-run-obtain 1000 1099 "key1" 100 100 others empty_cacher empty-IsValid empty-NoStale refl
      (
        (omega arith, tt),
        (
          (omega arith, tt),
          (
            (omega arith, key2_ne),
            ((omega arith, tt), ((omega arith, tt), ((omega arith, key2_ne), tt))),
          ),
        ),
      )
      (omega arith)

run_cleaner-exact_example :
    (lookup "key1" (run_cleaner 1200 obtained).kv ≡ live 1200 (lookup "key1" obtained.kv))
    × NoStale "key1" (run_cleaner 1200 obtained)
run_cleaner-exact_example = run_cleaner-exact 1200 "key1" obtained obtained-IsValid obtained-NoStale

late_set-obtain-obtain_example :
    ((set 1200 "key1" (7 ∷ []) 100 obtained).1 ≡ err "value expired")
    × ((set 1200 "key1" (7 ∷ []) 100 obtained).0.cleaners ≡ obtained.cleaners + 1)
    × ((obtain 1201 "key1" 100 (set 1200 "key1" (7 ∷ []) 100 obtained).0).1 ≡ ok true)
    × ((obtain 1203 "key1" 100
          (run_cleaner 1202 (obtain 1201 "key1" 100 (set 1200 "key1" (7 ∷ []) 100 obtained).0).0)).1
        ≡ ok true)
unfolding lookup
late_set-obtain-obtain_example =
    late_set-obtain-obtain 1200 1201 1202 1203 "key1" (7 ∷ []) 100 1100 [] obtained obtained-IsValid
      refl (omega arith) (omega arith)

-- The holder sets its response during the sleep that leaves two rounds.
abbrev response_arrives : ℕ → ℕ → MemoryCacher → MemoryCacher
response_arrives interval counter s =
    if counter == 2 then (set 1050 "key1" (4 ∷ 2 ∷ []) 100 s).0 else s

nothing_arrives :
    (c : ℕ) (u : MemoryCacher)
    → 2 < c
    → IsHeld "key1" 1100 [] u
    → IsHeld "key1" 1100 [] (response_arrives 10 c u)
nothing_arrives c u lt held = let e : (c == 2) ≡ false = ground arith in rw e held

polling_get-handoff_example :
    (polling_get (λ c. 1040) response_arrives "key1" 10 5 obtained).1 ≡ ok (4 ∷ 2 ∷ [])
polling_get-handoff_example =
    polling_get-handoff (λ c. 1040) response_arrives "key1" 10 1 5 1100 (deadline 1050 100)
      (4 ∷ 2 ∷ []) obtained (λ e. cc) obtained-IsHeld nothing_arrives
      (λ u held. (set-IsHeld 1050 "key1" (4 ∷ 2 ∷ []) 100 1100 [] u held (omega arith)).1)
      (omega arith)

crossed-IsStuck_example :
    Reaches
      (fresh set_live ∷ fresh cleaner ∷ fresh (poll (true ∷ false ∷ [])) ∷ fresh del_missing ∷ [])
      (crossed set_live (poll (true ∷ false ∷ []) ∷ del_missing ∷ []))
    × IsStuck (crossed set_live (poll (true ∷ false ∷ []) ∷ del_missing ∷ []))
crossed-IsStuck_example = crossed-IsStuck set_live (poll (true ∷ false ∷ []) ∷ del_missing ∷ []) tt
