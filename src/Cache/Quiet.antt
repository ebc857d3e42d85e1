-- ===== src/Cache/Quiet.antt =====
-- Histories that leave a key alone, over any cache that keeps the contract.
use idempotent_proxy.Prelude.{
  ℕ, ◌≡◌, ◌≤◌, ◌<◌, refl, ap, sym, ◌∙◌, String, none, some, List, [], ◌∷◌, str_eq, eq_iff,
  Bool-cases, inl, inr, arith,
}
use mathlib.Core.Path.{subst}
use idempotent_proxy.Cache.Contract.{
  Slot, live, Call, obtains, sets, dels, polls, spec, IsTimely, IsPunctual, Cache, CacheLaws,
}
use idempotent_proxy.Cache.Histories.{Event, calls, tidies, History, after, AreOrderly}

-- Calls that do not end a hold of the key: nobody sets or deletes it.
abbrev pub Spares : String → Event → Type 0
Spares k (calls j (obtains ttl)) = Unit
Spares k (calls j polls) = Unit
Spares k (calls j (sets val ttl)) = j ≡ k → ⊥
Spares k (calls j dels) = j ≡ k → ⊥
Spares k (tidies older) = Unit

abbrev pub AreSparing : String → ℕ → History → Type 0
AreSparing k end [] = Unit
AreSparing k end ((now, e) ∷ history) = (now ≤ end) × Spares k e × AreSparing k end history

live_then :
    (t now d : ℕ) (v : List ℕ) (a : Slot)
    → t ≤ now
    → now < d
    → live t a ≡ some (d, v)
    → live now a ≡ some (d, v)
live_then t now d v none le lt h = absurd (ground (arith, h))
live_then t now d v (some (e, u)) le lt h = ground (arith, h)

spec-held :
    (k : String) (now d : ℕ) (v : List ℕ) (call : Call)
    → Spares k (calls k call)
    → (spec now call (some (d, v))).0 ≡ some (d, v)
unfolding spec
spec-held k now d v (obtains ttl) spares = refl
spec-held k now d v (sets val ttl) spares = absurd (spares refl)
spec-held k now d v dels spares = absurd (spares refl)
spec-held k now d v polls spares = refl

module _ {W : Type 0} (c : Cache W) where
  -- The cache after a history.
  unfoldable pub run_history : History → W → W
  run_history [] w = w
  run_history ((now, e) ∷ history) w = run_history history (after c now e w)

module _ {W : Type 0} (c : Cache W) (laws : CacheLaws c) where
  slot-held_same :
      (k : String) (now d : ℕ) (v : List ℕ) (call : Call) (w : W)
      → c.IsSound w
      → IsTimely now call
      → IsPunctual call (live now (c.slot k w))
      → Spares k (calls k call)
      → live now (c.slot k w) ≡ some (d, v)
      → live now (c.slot k (c.perform now k call w).0) ≡ some (d, v)
  slot-held_same k now d v call w sound timely punctual spares held =
      laws.slot-perform now k call w sound timely punctual
      ∙ ap (λ (s : Slot). (spec now call s).0) held
      ∙ spec-held k now d v call spares

  slot-held :
      (k : String) (now d : ℕ) (v : List ℕ) (j : String) (call : Call) (w : W)
      → c.IsSound w
      → IsTimely now call
      → IsPunctual call (live now (c.slot j w))
      → Spares k (calls j call)
      → now < d
      → live now (c.slot k w) ≡ some (d, v)
      → live now (c.slot k (c.perform now j call w).0) ≡ some (d, v)
  slot-held k now d v j call w sound timely punctual spares lt held =
      elim (Bool-cases (str_eq j k)) [
        | inl e ↦
            let same : k ≡ j = sym ((eq_iff j k).0 e) in
            slot-held_other j same timely punctual spares
        | inr e ↦
            laws.slot-perform_other now j k call w sound timely (ground (arith, eq_iff j k)) ∙ held
      ]
    where
      slot-held_other :
          (i : String)
          → k ≡ i
          → IsTimely now call
          → IsPunctual call (live now (c.slot i w))
          → Spares k (calls i call)
          → live now (c.slot k (c.perform now i call w).0) ≡ some (d, v)
      slot-held_other i same timely' punctual' spares' = rw (← same) (
          slot-held_same k now d v call w sound timely' (rw same punctual')
            (subst (λ (i' : String). Spares k (calls i' call)) (sym same) spares') held)

  pub run_history-held :
      (k : String) (d end : ℕ) (v : List ℕ) (history : History) (t : ℕ) (w : W)
      → c.IsSound w
      → AreOrderly c t history w
      → AreSparing k end history
      → t ≤ end
      → end < d
      → live t (c.slot k w) ≡ some (d, v)
      → c.IsSound (run_history c history w)
        × (live end (c.slot k (run_history c history w)) ≡ some (d, v))
  unfolding run_history after
  run_history-held k d end v [] t w sound orderly sparing le lt held =
      (sound, live_then t end d v (c.slot k w) le lt held)
  run_history-held k d end v ((now, calls j call) ∷ history) t w sound
        (le', (timely, punctual), orderly) (early, spares, sparing) le lt held =
      let held' = live_then t now d v (c.slot k w) le' (ground arith) held in
      run_history-held k d end v history now (c.perform now j call w).0
        (laws.perform-IsSound now j call w sound timely punctual) orderly sparing early lt
        (slot-held k now d v j call w sound timely punctual spares (ground arith) held')
  run_history-held k d end v ((now, tidies older) ∷ history) t w sound (le', old, orderly)
        (early, spares, sparing) le lt held =
      run_history-held k d end v history now (c.tidy older w) (laws.tidy-IsSound older w sound)
        orderly sparing early lt
        (laws.slot-tidy older now k w sound old
          ∙ live_then t now d v (c.slot k w) le' (ground arith) held)
