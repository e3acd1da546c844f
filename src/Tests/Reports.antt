-- ===== src/Tests/Reports.antt =====
-- The report of apps/api/app/demo.py on a stored result, and the witness of its theorem.
use governed_agent_platform.Prelude.{
  ℕ, ◌≡◌, refl, true, Option, none, some, List, [], ◌∷◌, Value, Fields, keep,
}
use governed_agent_platform.Prelude.Exec.{Result, ok, raised}
use governed_agent_platform.Evals.Scoring.{ScoreCard}
use governed_agent_platform.Prelude.Sorting.{sort}
use governed_agent_platform.Evals.Reports.{build_report}
use governed_agent_platform.Evals.Runner.{RunnerLibrary, optional_value}
use governed_agent_platform.Db.Evals.{
  EvalRunStatus, EvalResultStatus, EvalRunRow, EvalCaseRow, EvalResultRow, EvalTables, EvalError,
  other_error, get_eval_run, list_eval_results,
}
use governed_agent_platform.App.Reports.{ReadingLibrary, get_eval_report}
use governed_agent_platform.App.Reports.Reading.{
  ReadsBack, nothing_stored, next_stored, row_for, get_eval_report-Stored,
}
use governed_agent_platform.Tests.Evals.{runner, session, result}

abbrev number_field : ℕ → Fields → Fields
number_field n rest = Fields.field "" (Value.int n) rest

abbrev scorecard_value : ScoreCard → Value
scorecard_value c = Value.dict (
    number_field c.groundedness (
      number_field c.tool_choice (
        number_field c.approval_trigger (
          number_field c.response_usefulness (
            number_field c.format_correctness (
              number_field c.citation_presence
                (number_field c.latency_signal (number_field c.cost_signal Fields.end))))))))

abbrev numbers : Fields → List ℕ
numbers Fields.end = []
numbers (Fields.field key (Value.int n) rest) = n ∷ numbers rest
numbers (Fields.field key value rest) = numbers rest

abbrev scorecard_of : List ℕ → Result EvalError ScoreCard
scorecard_of (a ∷ b ∷ c ∷ d ∷ e ∷ f ∷ g ∷ h ∷ []) = ok (record {
  groundedness = a;
  tool_choice = b;
  approval_trigger = c;
  response_usefulness = d;
  format_correctness = e;
  citation_presence = f;
  latency_signal = g;
  cost_signal = h;
})
scorecard_of _ = raised (other_error "ValidationError")

abbrev validate_scorecard : Value → Result EvalError ScoreCard
validate_scorecard (Value.dict fields) = scorecard_of (numbers fields)
validate_scorecard _ = raised (other_error "ValidationError")

abbrev validate_cost : Value → Result EvalError (Option ℕ)
validate_cost Value.null = ok none
validate_cost (Value.int n) = ok (some n)
validate_cost _ = raised (other_error "ValidationError")

abbrev reading : ReadingLibrary ℕ
reading = record {
  validate_scorecard = validate_scorecard;
  validate_cost = validate_cost;
  int_of = λ v. raised (other_error "TypeError");
  bool_of = λ v. true;
}

abbrev dumping : RunnerLibrary EvalTables ℕ
dumping = record runner { scorecard_value = scorecard_value }

cost_back : (o : Option ℕ) → validate_cost (optional_value Value.int o) ≡ ok o
cost_back none = refl
cost_back (some n) = refl

reading-ReadsBack : ReadsBack dumping reading
reading-ReadsBack = record { scorecard_back = λ c. refl; cost_back = cost_back }

abbrev run : EvalRunRow
run = record {
  id = 7;
  name = "smoke";
  status = EvalRunStatus.completed;
  model_name = some "v1-deterministic";
  started_at = some 1;
  completed_at = some 2;
  created_at = 1;
}

abbrev ticket_case : EvalCaseRow
ticket_case = record {
  id = 3;
  key = "ticket-lookup:1";
  input_text = "ticket";
  description = none;
  expected_behavior = none;
  tags = none;
  is_active = true;
}

abbrev stored_row : EvalResultRow
stored_row = row_for dumping session (result "ticket-lookup:1" 1) (record {
  id = 5;
  eval_run_id = 7;
  eval_case_id = 3;
  status = EvalResultStatus.error;
  score = none;
  summary = none;
  details = none;
  created_at = 1;
})

abbrev one_row : EvalTables
one_row = record {
  eval_runs = run ∷ [];
  eval_cases = ticket_case ∷ [];
  eval_results = stored_row ∷ [];
}

get_eval_report-Stored_example :
    get_eval_report reading session 7 one_row
    ≡ ok (build_report "smoke" (some "v1-deterministic") (result "ticket-lookup:1" 1 ∷ []), 7)
unfolding get_eval_run list_eval_results sort keep
get_eval_report-Stored_example =
    get_eval_report-Stored dumping session reading reading-ReadsBack 7 one_row run
      (result "ticket-lookup:1" 1 ∷ []) refl
      (next_stored ticket_case (result "ticket-lookup:1" 1) stored_row refl refl nothing_stored)
