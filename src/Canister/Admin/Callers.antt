-- ===== src/Canister/Admin/Callers.antt =====
-- Who is a caller after an administrator's call.
use idempotent_proxy.Prelude.{
  ℕ, ◌≡◌, String, Bool, true, false, not, ◌||◌, ◌&&◌, none, some, List, [], ◌∷◌, refl, any,
  if◌then◌else◌, str_eq, lookup, remove, lookup-insert, lookup-remove, Result, ok, err, arith,
  eq_iff,
}
use idempotent_proxy.Canister.Types.{Principal, State}
use idempotent_proxy.Canister.Store.{is_manager}
use idempotent_proxy.Canister.Store.Loading.{or_zeros, lookup-or_insert_all}
use idempotent_proxy.Canister.Admin.{
  anonymous, remove_all, admin_add_caller, admin_add_callers, admin_remove_callers,
}

pub lookup-remove_all :
    (ps : List Principal) (callers : List (Principal × (ℕ × ℕ))) (q : Principal)
    → lookup q (remove_all ps callers)
      ≡ (if any (λ p. str_eq p q) ps then none else lookup q callers)
unfolding remove_all
lookup-remove_all [] callers q = refl
lookup-remove_all (p ∷ ps) callers q =
    ground (arith, lookup-remove p q callers, lookup-remove_all ps (remove p callers) q)

module _ (validate_principals : List Principal → Result (Unit {0}) String) (controller : Bool)
    (caller : Principal) (s : State) where
  -- `admin_add_caller` is refused without the right to it and for the anonymous principal. It
  -- answers whether the principal is new; a new one starts with counters at zero, and all the other
  -- callers and the counters of a present one stay.
  pub admin_add_caller_lem :
      (id q : Principal)
      → ((admin_add_caller validate_principals controller caller id s).1 ≡ (
          if controller || is_manager caller s
          then (if str_eq id anonymous
              then err "anonymous caller cannot be added"
              else elim (lookup id s.callers) [ none ↦ ok true | some v ↦ ok false ])
          else err "user is not a controller or manager"))
        × (lookup q (admin_add_caller validate_principals controller caller id s).0.callers
            ≡ or_zeros
                ((controller || is_manager caller s) && (not (str_eq id anonymous) && str_eq id q))
                (lookup q s.callers))
  unfolding admin_add_caller
  admin_add_caller_lem id q =
      (ground arith, ground (arith, eq_iff id q, lookup-insert id q (0, 0) s.callers))

  -- After `admin_remove_callers` the listed principals are no callers, and every other caller
  -- keeps its counters; after `admin_add_callers` the listed principals are callers, with their
  -- old counters or zeros. Either call changes no caller if it returns an error.
  pub admin_callers_lem :
      (args : List Principal) (q : Principal)
      → (lookup q (admin_remove_callers validate_principals controller caller args s).0.callers
          ≡ elim ((admin_remove_callers validate_principals controller caller args s).1) [
            | ok _ ↦ if any (λ p. str_eq p q) args then none else lookup q s.callers
            | err e ↦ lookup q s.callers
          ])
        × (lookup q (admin_add_callers validate_principals controller caller args s).0.callers
            ≡ elim ((admin_add_callers validate_principals controller caller args s).1) [
              | ok _ ↦ or_zeros (any (λ p. str_eq p q) args) (lookup q s.callers)
              | err e ↦ lookup q s.callers
            ])
  unfolding admin_remove_callers admin_add_callers
  admin_callers_lem args q = (
    ground (arith, lookup-remove_all args s.callers q),
    ground (arith, lookup-or_insert_all args s.callers q),
  )
