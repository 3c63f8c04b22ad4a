-- ===== src/Runner/Reports/Totals.antt =====
-- The totals of `run_once` (src/runner.rs): the chains run at once and end in any order.
use ormpindexer.Base.{
  ℕ, ◌≡◌, refl, ap, ◌++◌, List, [], ◌∷◌, ◌∙◌, Result, ok, err, Error, arith, wrapping_add, map,
}
use mathlib.Core.Logic.{∥∥₁_elim}
use mathlib.Core.List.{Perm, Permᴰ}
use ormpindexer.Runner.Pass.{ChainRunReport}
use ormpindexer.Runner.Reports.{RunnerReport, no_totals, add_chain_report, collect_reports}

wrapping_add_swap :
    (a b c : ℕ) → wrapping_add (wrapping_add a b) c ≡ wrapping_add (wrapping_add a c) b
wrapping_add_swap a b c = omega arith

add_swap :
    (r : RunnerReport) (a b : ChainRunReport)
    → add_chain_report (add_chain_report r a) b ≡ add_chain_report (add_chain_report r b) a
unfolding add_chain_report
add_swap r a b i = record {
  chains_processed = wrapping_add_swap r.chains_processed a.chains_processed b.chains_processed i;
  ranges_queried = wrapping_add_swap r.ranges_queried a.ranges_queried b.ranges_queried i;
  records_read = wrapping_add_swap r.records_read a.records_read b.records_read i;
  records_decoded = wrapping_add_swap r.records_decoded a.records_decoded b.records_decoded i;
  records_written = wrapping_add_swap r.records_written a.records_written b.records_written i;
  checkpoints_advanced =
      wrapping_add_swap r.checkpoints_advanced a.checkpoints_advanced b.checkpoints_advanced i;
}

-- The totals of chains that have all succeeded.
total : RunnerReport → List ChainRunReport → RunnerReport
total r [] = r
total r (a ∷ reports) = total (add_chain_report r a) reports

total_permuted :
    (r : RunnerReport) (xs ys : List ChainRunReport) → Permᴰ xs ys → total r xs ≡ total r ys
unfolding total
total_permuted r xs ys Permᴰ.nil = refl
total_permuted r xs ys (Permᴰ.cons {a = a} {b = b} {l₁ = l} {l₂ = k} e p) =
    rw e (total_permuted (add_chain_report r b) l k p)
total_permuted r xs ys (Permᴰ.swap {a = a} {b = b} {a' = a'} {b' = b'} {l = l} e e') =
    rw (e, e') (ap (λ r'. total r' l) (add_swap r b' a'))
total_permuted r xs ys (Permᴰ.trans {l₂ = l} p q) =
    total_permuted r xs l p ∙ total_permuted r l ys q

report_set : IsSet RunnerReport
report_set = hlevel

any_order : (r : RunnerReport) (xs ys : List ChainRunReport) → Perm xs ys → total r xs ≡ total r ys
any_order r xs ys p = ∥∥₁_elim p (report_set _ _) (total_permuted r xs ys)

collect_reports_ok :
    (r : RunnerReport) (xs : List ChainRunReport) → collect_reports r (map ok xs) ≡ ok (total r xs)
unfolding collect_reports total
collect_reports_ok r [] = refl
collect_reports_ok r (x ∷ xs) = collect_reports_ok (add_chain_report r x) xs

collect_reports_err :
    (r : RunnerReport) (xs : List ChainRunReport) (e : Error) (rest : List (Result ChainRunReport))
    → collect_reports r (map ok xs ++ err e ∷ rest) ≡ err e
unfolding collect_reports
collect_reports_err r [] e rest = refl
collect_reports_err r (x ∷ xs) e rest = collect_reports_err (add_chain_report r x) xs e rest

-- Where all chains succeed, `run_once` succeeds, with totals that do not depend on the order in which
-- the chains end, also where a counter wraps; where one fails, it fails with the first failure in
-- the order in which the chains end.
pub collect_reports_lem :
    (xs ys : List ChainRunReport)
    → Perm xs ys
    → ((totals : RunnerReport) × (collect_reports no_totals (map ok xs) ≡ ok totals)
        × (collect_reports no_totals (map ok ys) ≡ ok totals))
      × ((e : Error) (rest : List (Result ChainRunReport))
          → collect_reports no_totals (map ok xs ++ err e ∷ rest) ≡ err e)
collect_reports_lem xs ys p = (
  (
    total no_totals xs,
    collect_reports_ok no_totals xs,
    rw (any_order no_totals xs ys p) (collect_reports_ok no_totals ys),
  ),
  collect_reports_err no_totals xs,
)
