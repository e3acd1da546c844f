-- ===== src/Evals/Reports/Comparison.antt =====
-- packages/evals/src/evals/reports.py: what a comparison counts.
use governed_agent_platform.Prelude.{
  ℕ, suc, ◌+◌, ◌≤◌, ◌≡◌, refl, ap, ◌∙◌, String, false, Option, some, List, [], ◌∷◌, length,
  if◌then◌else◌, ◌==◌, string_eq, All, arith,
}
use governed_agent_platform.Prelude.Dict.{Dict, lookup, insert, lookup-insert, lookup-insert_self}
use governed_agent_platform.Evals.Scoring.{total_score}
use governed_agent_platform.Evals.Reports.{
  EvalResult, count_passed, build_report, scores_into, Changes, no_changes, count_change,
  count_changes, compare_reports,
}

module _ {F : Type 0} where
  -- No two results are of one case.
  abbrev pub IsByCase : List (EvalResult F) → Type 0
  IsByCase [] = Unit
  IsByCase (r ∷ results) = All (λ x. (x.case_key == r.case_key) ≡ false) results × IsByCase results

  untouched_lem :
      (d : Dict String ℕ) (results : List (EvalResult F)) (k : String)
      → All (λ x. (x.case_key == k) ≡ false) results
      → lookup k (scores_into d results) ≡ lookup k d
  unfolding scores_into
  untouched_lem d [] k h = refl
  untouched_lem d (r ∷ results) k h =
      untouched_lem (insert r.case_key (total_score r.scorecard) d) results k h.1
      ∙ lookup-insert r.case_key k (total_score r.scorecard) d
      ∙ ap (λ b. if b then some (total_score r.scorecard) else lookup k d) h.0

  -- The result of a case has the score that the dictionary has for the case.
  abbrev IsScored : Dict String ℕ → EvalResult F → Type 0
  IsScored d r = lookup r.case_key d ≡ some (total_score r.scorecard)

  scored_lem :
      (d : Dict String ℕ) (results : List (EvalResult F))
      → IsByCase results
      → All (IsScored (scores_into d results)) results
  unfolding scores_into
  scored_lem d [] h = tt
  scored_lem d (r ∷ results) h = (
    untouched_lem (insert r.case_key (total_score r.scorecard) d) results r.case_key h.0
        ∙ lookup-insert_self r.case_key (total_score r.scorecard) d,
    scored_lem (insert r.case_key (total_score r.scorecard) d) results h.1,
  )

  unchanged_lem :
      (d : Dict String ℕ) (results : List (EvalResult F)) (c : Changes)
      → All (IsScored d) results
      → count_changes d results c
        ≡ record c { unchanged_cases = c.unchanged_cases + length results }
  unfolding count_changes count_change
  unchanged_lem d [] c h = ground arith
  unchanged_lem d (r ∷ results) c h = ground (
    arith,
    h.0,
    unchanged_lem d results (record c { unchanged_cases = suc c.unchanged_cases }) h.1,
  )

  count_passed-le : (results : List (EvalResult F)) → count_passed results ≤ length results
  unfolding count_passed
  count_passed-le [] = omega arith
  count_passed-le (r ∷ results) = ground (arith, count_passed-le results)

  -- A report compared with itself counts each result as unchanged, where no two are of one case; and
  -- its passed and failed cases add up to its results.
  pub compare_reports_self :
      (run_name : String) (model_name : Option String) (results : List (EvalResult F))
      → IsByCase results
      → let report = build_report run_name model_name results in
        (compare_reports report report
          ≡ record { improved_cases = 0; regressed_cases = 0; unchanged_cases = length results })
        × (report.passed_cases + report.failed_cases ≡ length results)
  unfolding build_report compare_reports
  compare_reports_self run_name model_name results h =
      let none_added : 0 + length results ≡ length results = omega arith in
      (
        unchanged_lem (scores_into [] results) results no_changes (scored_lem [] results h)
            ∙ ap (λ n. record no_changes { unchanged_cases = n }) none_added,
        omega (arith, count_passed-le results),
      )
