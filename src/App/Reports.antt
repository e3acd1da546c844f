-- ===== src/App/Reports.antt =====
-- apps/api/app/demo.py: the report of a run of the evals, read back from the database. The validation
-- of scores and costs, `int` and `bool` of a value that is no number or flag are parameters.
pub mod Reading
use governed_agent_platform.Prelude.{
  ℕ, String, Bool, Option, none, some, List, [], ◌∷◌, find, id_eq, false, Value, Fields, Payload,
  Uuid, string_eq,
}
use governed_agent_platform.Prelude.Dict.{lookup}
use governed_agent_platform.Prelude.Exec.{Result, ok, raised}
use governed_agent_platform.Evals.Scoring.{ScoreCard}
use governed_agent_platform.Evals.Reports.{EvalResult, EvalRun, build_report}
use governed_agent_platform.Db.Evals.{
  is_pass, EvalRunRow, EvalCaseRow, EvalResultRow, EvalError, other_error, EvalSession, is_case,
  get_eval_run, list_eval_results,
}

-- The bind of code that may raise.
infixl 5 ◌>>=◌
abbrev pub ◌>>=◌ :
    {A B : Type 0} → Result EvalError A → (A → Result EvalError B) → Result EvalError B
ok a >>= f = f a
raised e >>= f = raised e

-- `ScoreCard.model_validate`, the validation of an optional cost and of a text, and `int` and `bool` of
-- the values that are no number or flag.
pub record ReadingLibrary (F : Type 0) : Type 0 where
  pub validate_scorecard : Value → Result EvalError ScoreCard
  pub validate_cost : Value → Result EvalError (Option F)
  pub int_of : Value → Result EvalError ℕ
  pub bool_of : Value → Bool

abbrev pub value_or : Value → Option Value → Value
value_or default none = default
value_or default (some v) = v

-- `details.get(key, default)`
abbrev pub detail : String → Value → Payload → Value
detail key default details = value_or default (lookup key details)

abbrev pub as_text : Value → Result EvalError String
as_text (Value.str s) = ok s
as_text v = raised (other_error "ValidationError")

abbrev pub as_optional_text : Value → Result EvalError (Option String)
as_optional_text Value.null = ok none
as_optional_text (Value.str s) = ok (some s)
as_optional_text v = raised (other_error "ValidationError")

-- `result.summary or ""`
abbrev pub summary_of : Option String → String
summary_of none = ""
summary_of (some s) = s

module _ {F : Type 0} (l : ReadingLibrary F) where
  -- `int(value)`
  abbrev pub as_int : Value → Result EvalError ℕ
  as_int (Value.int n) = ok n
  as_int v = l.int_of v

  -- `bool(value)`
  abbrev pub as_bool : Value → Bool
  as_bool (Value.bool b) = b
  as_bool v = l.bool_of v

  -- A result from its row, the key of its case and its details.
  unfoldable pub read_details : String → EvalResultRow → Payload → Result EvalError (EvalResult F)
  read_details case_key row details = do
    scorecard ← l.validate_scorecard (detail "scorecard" (Value.dict Fields.end) details)
    citation_count ← as_int (detail "citation_count" (Value.int 0) details)
    latency_ms ← as_int (detail "latency_ms" (Value.int 0) details)
    response_text ← as_text (detail "response_text" (Value.str "") details)
    tool_name ← as_optional_text (detail "tool_name" Value.null details)
    estimated_cost_usd ← l.validate_cost (detail "estimated_cost_usd" Value.null details)
    ok (record {
      case_key = case_key;
      passed = is_pass row.status;
      summary = summary_of row.summary;
      scorecard = scorecard;
      response_text = response_text;
      tool_name = tool_name;
      requires_approval = as_bool (detail "requires_approval" (Value.bool false) details);
      citation_count = citation_count;
      latency_ms = latency_ms;
      estimated_cost_usd = estimated_cost_usd;
    })

  abbrev pub read_row :
      Option EvalCaseRow → EvalResultRow → Option Payload → Result EvalError (EvalResult F)
  read_row none row details = raised (other_error "AttributeError")
  read_row (some c) row none = raised (other_error "AttributeError")
  read_row (some c) row (some details) = read_details c.key row details

  -- The results of the comprehension, with the cases of the rows.
  unfoldable pub read_results :
      List EvalCaseRow → List EvalResultRow → Result EvalError (List (EvalResult F))
  unfolding read_details
  read_results cases [] = ok []
  read_results cases (row ∷ rows) = do
    r ← read_row (find (is_case row.eval_case_id) cases) row row.details
    rest ← read_results cases rows
    ok (r ∷ rest)

  module _ {W : Type 0} (s : EvalSession W) where
    abbrev pub report_of : Uuid → Option EvalRunRow → W → Result EvalError (EvalRun F × Uuid)
    report_of eval_run_id none w = raised (other_error "Eval run not found.")
    report_of eval_run_id (some run) w = do
      results ← read_results (s.tables w).eval_cases (list_eval_results s eval_run_id w)
      ok (build_report run.name run.model_name results, run.id)

    -- `get_eval_report`, with the id of the run
    unfoldable pub get_eval_report : Uuid → W → Result EvalError (EvalRun F × Uuid)
    unfolding read_results
    get_eval_report eval_run_id w = report_of eval_run_id (get_eval_run s eval_run_id w) w
