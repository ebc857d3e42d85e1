-- ===== src/Canister/Api/Combinators.antt =====
-- The combinators of `futures`, as functions on the answers in the order of their futures.
use idempotent_proxy.Canister.Api.Parallel.{Answer}
use idempotent_proxy.Canister.Api.Outcomes.{JoinLaws, SelectLaws, oks}
use idempotent_proxy.Prelude.{
  ◌≡◌, refl, false, List, [], ◌∷◌, is_empty, Result, ok, err, arith, inl, inr, ap, All, Member,
  Result-cases,
}
use idempotent_proxy.Canister.Types.{HttpResponse}

abbrev pub try_join_all : List Answer → Result (List HttpResponse) HttpResponse
try_join_all [] = ok []
try_join_all (err e ∷ l) = err e
try_join_all (ok r ∷ l) =
    let rest = try_join_all l in elim rest [ ok rs ↦ ok (r ∷ rs) | err e ↦ err e ]

pub try_join_all-JoinLaws : JoinLaws try_join_all
try_join_all-JoinLaws = record { all_ok = joined; one_err = failed }
  where
    joined : (l : List Answer) (rs : List HttpResponse) → try_join_all l ≡ ok rs → l ≡ oks rs
    joined [] [] h = refl
    joined [] (r ∷ rs) h = absurd (ground arith)
    joined (err e ∷ l) rs h = absurd (ground arith)
    joined (ok r ∷ l) rs h = elim (Result-cases (try_join_all l)) [
      | inr (e, bad) ↦ absurd (ground arith)
      | inl (rest, good) ↦
          let same : r ∷ rest ≡ rs = ground arith in
          rw (← same) (ap (◌∷◌ (ok r)) (joined l rest good))
    ]

    failed :
        (l : List Answer) (e : HttpResponse)
        → try_join_all l ≡ err e
        → Member {A = Answer} (err e) l
    failed [] e h = ground arith
    failed (err e' ∷ l) e h = inl (ground arith)
    failed (ok r ∷ l) e h = elim (Result-cases (try_join_all l)) [
      | inr (e', bad) ↦ inr (failed l e (ground arith))
      | inl (rest, good) ↦ absurd (ground arith)
    ]

abbrev pub select_ok : List Answer → Answer
select_ok [] = err (record { status = 503; headers = []; body = [] })
select_ok (ok r ∷ l) = ok r
select_ok (err e ∷ []) = err e
select_ok (err e ∷ a ∷ l) = select_ok (a ∷ l)

select_ok-SelectLaws : SelectLaws select_ok
select_ok-SelectLaws = record { one_ok = one; all_err = all }
  where
    one :
        (l : List Answer) (r : HttpResponse)
        → is_empty l ≡ false
        → select_ok l ≡ ok r
        → Member {A = Answer} (ok r) l
    one [] r n h = absurd (ground arith)
    one (ok r' ∷ l) r n h = inl (ground arith)
    one (err e ∷ []) r n h = absurd (ground arith)
    one (err e ∷ a ∷ l) r n h = inr (one (a ∷ l) r refl h)

    all :
        (l : List Answer) (e : HttpResponse)
        → is_empty l ≡ false
        → select_ok l ≡ err e
        → Member {A = Answer} (err e) l × All (λ (a : Answer). (r : HttpResponse) × (a ≡ err r)) l
    all [] e n h = absurd (ground arith)
    all (ok r' ∷ l) e n h = absurd (ground arith)
    all (err e' ∷ []) e n h = (inl (ground arith), ((e', refl), tt))
    all (err e' ∷ a ∷ l) e n h =
        let (one, each) = all (a ∷ l) e refl h in (inr one, ((e', refl), each))
