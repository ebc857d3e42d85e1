-- ===== src/Canister/Store/Loading.antt =====
-- The migration of the deprecated list of callers.
use idempotent_proxy.Prelude.{
  ℕ, ◌≡◌, refl, Bool, true, false, Option, none, some, List, [], ◌∷◌, any, is_empty, empty_nil,
  arith, str_eq, lookup, insert, lookup-insert, eq_iff, Option-cases, inl, inr, Bool-cases,
}
use idempotent_proxy.Canister.Types.{Principal, State}
use idempotent_proxy.Canister.Store.{or_insert_all, load}

-- What `or_insert` leaves under a key: the old value, or zeros if the key is listed.
abbrev pub or_zeros : Bool → Option (ℕ × ℕ) → Option (ℕ × ℕ)
or_zeros listed (some v) = some v
or_zeros true none = some (0, 0)
or_zeros false none = none

pub lookup-or_insert_all :
    (ps : List Principal) (callers : List (Principal × (ℕ × ℕ))) (q : Principal)
    → lookup q (or_insert_all ps callers) ≡ or_zeros (any (λ p. str_eq p q) ps) (lookup q callers)
unfolding or_insert_all
lookup-or_insert_all [] callers q = ground arith
lookup-or_insert_all (p ∷ ps) callers q = elim (Option-cases (lookup p callers)) [
  | inl absent ↦
      rw (absent, or_insert_all)
        (ground (
          arith,
          eq_iff p q,
          lookup-insert p q (0, 0) callers,
          lookup-or_insert_all ps (insert p (0, 0) callers) q,
        ))
  | inr (v, present) ↦
      rw (present, or_insert_all) (ground (arith, eq_iff p q, lookup-or_insert_all ps callers q))
]

pub or_zeros_id : (o : Option (ℕ × ℕ)) → o ≡ or_zeros false o
or_zeros_id none = refl
or_zeros_id (some v) = refl

-- After an upgrade from the deprecated list, a principal is a caller exactly if it was one, with
-- its counters, or was on the list, with counters at zero; and the list is empty.
pub lookup-load :
    (s : State) (q : Principal)
    → (lookup q (load s).callers
        ≡ or_zeros (any (λ p. str_eq p q) s.allowed_callers) (lookup q s.callers))
      × ((load s).allowed_callers ≡ [])
unfolding load
lookup-load s q = elim (Bool-cases (is_empty s.allowed_callers)) [
  | inl none_left ↦
      let e : s.allowed_callers ≡ [] = empty_nil s.allowed_callers none_left in
      rw (none_left, load) (rw e (or_zeros_id (lookup q s.callers), refl))
  | inr some_left ↦ rw (some_left, load) (lookup-or_insert_all s.allowed_callers s.callers q, refl)
]
