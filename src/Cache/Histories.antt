-- ===== src/Cache/Histories.antt =====
-- A cache under any sequence of calls, as its users see it.
use idempotent_proxy.Prelude.{
  ℕ, ◌≤◌, ◌≡◌, refl, sym, ap, ◌∙◌, inl, inr, String, none, some, List, [], ◌∷◌, str_eq, eq_iff,
  Bool-cases, if◌then◌else◌, arith,
}
use idempotent_proxy.Cache.Contract.{
  Slot, live, Call, spec, Permits, IsTimely, IsPunctual, Cache, CacheLaws,
}

-- An event, at its time: a call of some task for some key, or what the cache does on its own, by
-- a clock that may be older.
pub data Event : Type 0 where
  calls : String → Call → Event
  tidies : ℕ → Event

abbrev pub History : Type 0
History = List (ℕ × Event)

-- The slot of the key `k` after a call for `j`, by the contract.
abbrev pub advance : String → ℕ → String → Call → Slot → Slot
advance k now j call slot = if str_eq j k then (spec now call (live now slot)).0 else slot

module _ {W : Type 0} (c : Cache W) where
  unfoldable pub after : ℕ → Event → W → W
  after now (calls k call) w = (c.perform now k call w).0
  after now (tidies older) w = c.tidy older w

  -- What an event's caller has to see to.
  abbrev pub IsOrderly : ℕ → Event → W → Type 0
  IsOrderly now (calls k call) w = IsTimely now call × IsPunctual call (live now (c.slot k w))
  IsOrderly now (tidies older) w = older ≤ now

  -- The clock does not go back, and every event is orderly.
  abbrev pub AreOrderly : ℕ → History → W → Type 0
  AreOrderly t [] w = Unit
  AreOrderly t ((now, e) ∷ history) w =
      (t ≤ now) × IsOrderly now e w × AreOrderly now history (after now e w)

  -- The replies for the key `k` are permitted by the contract, call for call, from a slot on; and
  -- in the end the slot is the contract's.
  abbrev pub Follows : String → ℕ → History → Slot → W → Type 0
  Follows k t [] slot w = live t (c.slot k w) ≡ live t slot
  Follows k t ((now, calls j call) ∷ history) slot w =
      (j ≡ k
        → Permits call (live now slot) (spec now call (live now slot)).1 (c.perform now j call w).1)
      × Follows k now history (advance k now j call slot) (after now (calls j call) w)
  Follows k t ((now, tidies older) ∷ history) slot w =
      Follows k now history slot (after now (tidies older) w)

-- A slot seen the same at a time is seen the same later.
live_later : (t now : ℕ) (a b : Slot) → t ≤ now → live t a ≡ live t b → live now a ≡ live now b
live_later t now none none h e = refl
live_later t now none (some (d, v)) h e = ground arith
live_later t now (some (d, v)) none h e = ground arith
live_later t now (some (d, v)) (some (d', v')) h e = ground arith

live_idem : (now : ℕ) (a b : Slot) → live now a ≡ b → live now a ≡ live now b
live_idem now none b h = rw (← h) refl
live_idem now (some (d, v)) b h = ground arith

module _ {W : Type 0} (c : Cache W) (laws : CacheLaws c) where
  slot-after :
      (k : String) (now : ℕ) (j : String) (call : Call) (slot : Slot) (w : W)
      → c.IsSound w
      → IsTimely now call
      → IsPunctual call (live now (c.slot j w))
      → live now (c.slot k w) ≡ live now slot
      → live now (c.slot k (c.perform now j call w).0) ≡ live now (advance k now j call slot)
  slot-after k now j call slot w sound timely punctual same = elim (Bool-cases (str_eq j k)) [
    | inl e ↦
        let same_key : k ≡ j = sym ((eq_iff j k).0 e) in
        rw e (
          ap (λ (i : String). live now (c.slot i (c.perform now j call w).0)) same_key
          ∙ live_idem now _ _ (laws.slot-perform now j call w sound timely punctual)
          ∙ ap (λ (v : Slot). live now (spec now call v).0)
              (sym (ap (λ (i : String). live now (c.slot i w)) same_key) ∙ same))
    | inr e ↦
        rw e
          (laws.slot-perform_other now j k call w sound timely (ground (arith, eq_iff j k)) ∙ same)
  ]

  permitted-after :
      (k : String) (now : ℕ) (j : String) (call : Call) (slot : Slot) (w : W)
      → c.IsSound w
      → IsTimely now call
      → IsPunctual call (live now (c.slot j w))
      → live now (c.slot k w) ≡ live now slot
      → j ≡ k
      → Permits call (live now slot) (spec now call (live now slot)).1 (c.perform now j call w).1
  permitted-after k now j call slot w sound timely punctual same e =
      rw (← same) (rw (← e) (laws.reply-perform now j call w sound timely punctual))

  -- Refinement. Whatever the history of calls, of any keys by any tasks, and of the cache's own
  -- steps, if the clock does not go back, each call has a timely time to live, and values are set
  -- only for keys that are held: then for every key a cache that keeps the laws replies as the
  -- contract permits, call for call, starting from the slot that the key has, and ends with the
  -- slot that the contract gives.
  pub run-Follows :
      (k : String) (history : History) (t : ℕ) (slot : Slot) (w : W)
      → c.IsSound w
      → AreOrderly c t history w
      → live t (c.slot k w) ≡ live t slot
      → Follows c k t history slot w
  unfolding after
  run-Follows k [] t slot w sound orderly same = same
  run-Follows k ((now, calls j call) ∷ history) t slot w sound (le, (timely, punctual), orderly)
        same =
      let same' = live_later t now (c.slot k w) slot le same in
      (
        permitted-after k now j call slot w sound timely punctual same',
        run-Follows k history now (advance k now j call slot) (c.perform now j call w).0
            (laws.perform-IsSound now j call w sound timely punctual) orderly
            (slot-after k now j call slot w sound timely punctual same'),
      )
  run-Follows k ((now, tidies older) ∷ history) t slot w sound (le, old, orderly) same =
      run-Follows k history now slot (c.tidy older w) (laws.tidy-IsSound older w sound) orderly
        (laws.slot-tidy older now k w sound old ∙ live_later t now (c.slot k w) slot le same)
