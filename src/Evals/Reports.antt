-- ===== src/Evals/Reports.antt =====
-- packages/evals/src/evals/reports.py: the report of a run and its comparison with another one. A
-- total is in eighths; an average is the sum of the totals beside the number of the results.
pub mod Comparison
use governed_agent_platform.Prelude.{
  ℕ, zero, suc, ◌+◌, ◌-◌, String, Bool, true, false, Option, none, some, List, [], ◌∷◌, length, ltb,
  if◌then◌else◌, string_eq,
}
use governed_agent_platform.Prelude.Dict.{Dict, lookup, insert}
use governed_agent_platform.Evals.Scoring.{ScoreCard, total_score}

pub record EvalResult (F : Type 0) : Type 0 where
  pub case_key : String
  pub passed : Bool
  pub summary : String
  pub scorecard : ScoreCard
  pub response_text : String
  pub tool_name : Option String
  pub requires_approval : Bool
  pub citation_count : ℕ
  pub latency_ms : ℕ
  pub estimated_cost_usd : Option F

-- `sum / count`, or 0.0 where there is nothing.
pub record Average : Type 0 where
  pub sum : ℕ
  pub count : ℕ

pub record EvalRun (F : Type 0) : Type 0 where
  pub run_name : String
  pub model_name : Option String
  pub total_cases : ℕ
  pub passed_cases : ℕ
  pub failed_cases : ℕ
  pub average_score : Average
  pub dimension_averages : Dict String Average
  pub results : List (EvalResult F)

module _ {F : Type 0} where
  unfoldable pub count_passed : List (EvalResult F) → ℕ
  count_passed [] = 0
  count_passed (r ∷ results) =
      let rest = count_passed results in if r.passed then suc rest else rest

  unfoldable pub sum_of : (ScoreCard → ℕ) → List (EvalResult F) → ℕ
  sum_of f [] = 0
  sum_of f (r ∷ results) = f r.scorecard + sum_of f results

  -- `_dimension_averages`
  unfoldable pub dimension_averages_of : List (EvalResult F) → Dict String Average
  unfolding sum_of
  dimension_averages_of [] = []
  dimension_averages_of (r ∷ rs) =
      let average : (ScoreCard → ℕ) → Average =
        λ f. record { sum = sum_of f (r ∷ rs); count = length (r ∷ rs) } in
      ("groundedness", average (λ c. c.groundedness))
      ∷ ("tool_choice", average (λ c. c.tool_choice))
      ∷ ("approval_trigger", average (λ c. c.approval_trigger))
      ∷ ("response_usefulness", average (λ c. c.response_usefulness))
      ∷ ("format_correctness", average (λ c. c.format_correctness))
      ∷ ("citation_presence", average (λ c. c.citation_presence))
      ∷ ("latency_signal", average (λ c. c.latency_signal))
      ∷ ("cost_signal", average (λ c. c.cost_signal))
      ∷ []

  unfoldable pub build_report : String → Option String → List (EvalResult F) → EvalRun F
  unfolding count_passed sum_of dimension_averages_of
  build_report run_name model_name results = record {
    run_name = run_name;
    model_name = model_name;
    total_cases = length results;
    passed_cases = count_passed results;
    failed_cases = length results - count_passed results;
    average_score = record { sum = sum_of total_score results; count = length results };
    dimension_averages = dimension_averages_of results;
    results = results;
  }

  -- `{result.case_key: result.scorecard.total_score for result in results}`, into a dictionary.
  unfoldable pub scores_into : Dict String ℕ → List (EvalResult F) → Dict String ℕ
  scores_into d [] = d
  scores_into d (r ∷ results) = scores_into (insert r.case_key (total_score r.scorecard) d) results

-- The counts of the loop of `compare_reports`.
pub record Changes : Type 0 where
  pub improved_cases : ℕ
  pub regressed_cases : ℕ
  pub unchanged_cases : ℕ

abbrev pub no_changes : Changes
no_changes = record { improved_cases = 0; regressed_cases = 0; unchanged_cases = 0 }

-- One round of the loop, with the score of the baseline.
unfoldable pub count_change : ℕ → Option ℕ → Changes → Changes
count_change score none c = c
count_change score (some baseline) c =
    if ltb baseline score
    then record c { improved_cases = suc c.improved_cases }
    else if ltb score baseline
    then record c { regressed_cases = suc c.regressed_cases }
    else record c { unchanged_cases = suc c.unchanged_cases }

module _ {F : Type 0} where
  unfoldable pub count_changes : Dict String ℕ → List (EvalResult F) → Changes → Changes
  unfolding count_change
  count_changes baseline [] c = c
  count_changes baseline (r ∷ results) c =
      count_changes baseline results
        (count_change (total_score r.scorecard) (lookup r.case_key baseline) c)

  -- The counts of `compare_reports`.
  unfoldable pub compare_reports : EvalRun F → EvalRun F → Changes
  unfolding count_changes scores_into
  compare_reports current baseline =
      count_changes (scores_into [] baseline.results) current.results no_changes
