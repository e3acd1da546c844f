-- ===== src/App/Reports/Reading.antt =====
-- apps/api/app/demo.py: the report of a run, read back from the rows the runner stores.
use governed_agent_platform.Prelude.{
  String, Bool, true, false, Option, none, some, List, [], ◌∷◌, find, ◌≡◌, refl, Value, Uuid,
}
use governed_agent_platform.Prelude.Dict.{lookup}
use governed_agent_platform.Prelude.Exec.{ok}
use governed_agent_platform.Evals.Scoring.{ScoreCard}
use governed_agent_platform.Evals.Reports.{EvalResult, build_report}
use governed_agent_platform.Evals.Runner.{RunnerLibrary, details_of, optional_value, status_of}
use governed_agent_platform.Db.Evals.{
  EvalRunRow, EvalCaseRow, EvalResultRow, EvalSession, is_pass, is_case, get_eval_run,
  list_eval_results,
}
use governed_agent_platform.App.Reports.{
  ReadingLibrary, read_details, read_results, get_eval_report, as_optional_text,
}

is_pass-status_of : (b : Bool) → is_pass (status_of b) ≡ b
is_pass-status_of true = refl
is_pass-status_of false = refl

as_optional_text-optional_value :
    (o : Option String) → as_optional_text (optional_value Value.str o) ≡ ok o
as_optional_text-optional_value none = refl
as_optional_text-optional_value (some s) = refl

-- The row that `store_eval_result` adds for a result.
abbrev pub row_for :
    {W F : Type 0}
    → RunnerLibrary W F
    → EvalSession W
    → EvalResult F
    → EvalResultRow
    → EvalResultRow
row_for l s r row = record row {
  status = status_of r.passed;
  summary = some r.summary;
  details = some (details_of l s r);
}

-- The documented behaviour of the validation: what is dumped is read back.
pub record ReadsBack {W F : Type 0} (l : RunnerLibrary W F) (read : ReadingLibrary F) : Type 0 where
  pub scorecard_back : (c : ScoreCard) → read.validate_scorecard (l.scorecard_value c) ≡ ok c
  pub cost_back : (o : Option F) → read.validate_cost (optional_value l.float_value o) ≡ ok o

-- The rows of results, each with the id of a case that has the key of the result.
pub data Stored {W F : Type 0} (l : RunnerLibrary W F) (s : EvalSession W)
    (cases : List EvalCaseRow) : List (EvalResult F) → List EvalResultRow → Type 0 where
  nothing_stored : Stored l s cases [] []
  next_stored :
      {results : List (EvalResult F)} {rows : List EvalResultRow} (c : EvalCaseRow)
      (r : EvalResult F) (row : EvalResultRow)
      → find (is_case row.eval_case_id) cases ≡ some c
      → c.key ≡ r.case_key
      → Stored l s cases results rows
      → Stored l s cases (r ∷ results) (row_for l s r row ∷ rows)

module _ {W F : Type 0} (l : RunnerLibrary W F) (s : EvalSession W) (read : ReadingLibrary F)
    (laws : ReadsBack l read) where
  read_details-details_of :
      (r : EvalResult F) (row : EvalResultRow)
      → read_details read r.case_key (row_for l s r row) (details_of l s r) ≡ ok r
  unfolding read_details lookup
  read_details-details_of r row = rw (
    laws.scorecard_back r.scorecard,
    as_optional_text-optional_value r.tool_name,
    laws.cost_back r.estimated_cost_usd,
    is_pass-status_of r.passed,
  )

  read_results-Stored :
      {cases : List EvalCaseRow} {results : List (EvalResult F)} {rows : List EvalResultRow}
      → Stored l s cases results rows
      → read_results read cases rows ≡ ok results
  unfolding read_results
  read_results-Stored nothing_stored = refl
  read_results-Stored (next_stored c r row found key rest) =
      rw (found, key, read_details-details_of r row, read_results-Stored rest)

  -- Where the validation reads scores and costs back as they are dumped, and the rows of a run are
  -- those the runner stores for some results, the report of the run is the report of these results,
  -- with the id of the run.
  pub get_eval_report-Stored :
      (id : Uuid) (w : W) (run : EvalRunRow) (results : List (EvalResult F))
      → get_eval_run s id w ≡ some run
      → Stored l s (s.tables w).eval_cases results (list_eval_results s id w)
      → get_eval_report read s id w ≡ ok (build_report run.name run.model_name results, run.id)
  unfolding get_eval_report
  get_eval_report-Stored id w run results found stored = rw (found, read_results-Stored stored)
