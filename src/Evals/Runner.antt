-- ===== src/Evals/Runner.antt =====
-- packages/evals/src/evals/runner.py: `OfflineEvalRunner`, over the repository of the evals. The
-- cases, the executor of tools, the clock and the libraries are parameters.
pub mod Outcome
pub mod Baseline
use governed_agent_platform.Prelude.{
  ℕ, String, Bool, true, false, Option, none, some, List, [], ◌∷◌, ◌++◌, if◌then◌else◌, length,
  Value, Payload, as_dict, Uuid,
}
use governed_agent_platform.Prelude.Exec.{Result, ok, raised, Exec, pure, lift, ◌>>=◌, ◌>>◌}
use governed_agent_platform.Tools.Schemas.{ToolError, ToolCall, ToolResult}
use governed_agent_platform.Evals.Scoring.{
  EvalCase, PlatformEvalOutput, ScoreCard, ScoringLibrary, persisted_key, total_score, is_passed,
  score_case,
}
use governed_agent_platform.Evals.Cases.{
  ToolName, tool_name_value, select_tool, tool_arguments_for_case,
}
use governed_agent_platform.Evals.Reports.{
  EvalResult, EvalRun, Changes, build_report, compare_reports,
}
use governed_agent_platform.Evals.Responses.{build_response, build_case_summary, or_empty}
use governed_agent_platform.Db.Evals.{
  EvalRunStatus, in_progress, completed, EvalResultStatus, EvalRunRow, EvalCaseRow, EvalResultRow,
  EvalError, tool_error, name_error, EvalSession, create_eval_run, update_eval_run_status,
  get_or_create_eval_case, store_eval_result, list_eval_results, get_latest_completed_run,
}

-- What the runner uses besides the repository: `execute` of the tool executor, the clock with
-- `int((end - start) * 1000)`, the text of the expectation, a score with two digits, the scores
-- as a JSON value, the cost 0.0, the text of a value that is no text, and of a number.
pub record RunnerLibrary (W F : Type 0) : Type 0 where
  pub scoring : ScoringLibrary F
  pub execute : ToolCall → Exec W ToolError ToolResult
  pub perf_counter : W → F × W
  pub milliseconds : F → F → ℕ
  pub expectation_text : EvalCase F → String
  pub two_digits : ℕ → String
  pub scorecard_value : ScoreCard → Value
  pub float_value : F → Value
  pub no_cost : F
  pub repr : Value → String
  pub show : ℕ → String

abbrev pub from_tools : {A : Type 0} → Result ToolError A → Result EvalError A
from_tools (ok a) = ok a
from_tools (raised e) = raised (tool_error e)

abbrev pub status_of : Bool → EvalResultStatus
status_of passed = if passed then EvalResultStatus.passed else EvalResultStatus.failed

abbrev pub optional_value : {A : Type 0} → (A → Value) → Option A → Value
optional_value f none = Value.null
optional_value f (some a) = f a

-- The report that `run` returns, with the id of the run and the comparison.
pub record RunReport (F : Type 0) : Type 0 where
  pub report : EvalRun F
  pub eval_run_id : Uuid
  pub regression : Option Changes

module _ {W F : Type 0} (l : RunnerLibrary W F) (s : EvalSession W) where
  abbrev pub counted : Exec W EvalError F
  counted w = let (t, w') = l.perf_counter w in (ok t, w')

  abbrev pub run_tool : ToolCall → Exec W EvalError ToolResult
  run_tool call w = let (r, w') = l.execute call w in (from_tools r, w')

  -- `_execute_case`
  unfoldable pub execute_case : EvalCase F → Exec W EvalError (PlatformEvalOutput F)
  execute_case case = do
    started ← counted
    let tool : ToolName = select_tool l.scoring case
    arguments ← lift (from_tools (tool_arguments_for_case case tool))
    result ←
        run_tool
          (record { name = tool_name_value tool; arguments = arguments; requested_by = none })
    ended ← counted
    (response_text, citations) ←
        lift
          (from_tools (build_response l.repr tool (or_empty result.output) result.preview_payload))
    pure (record {
      response_text = response_text;
      tool_name = some (tool_name_value tool);
      requires_approval = result.requires_approval;
      citations = citations;
      latency_ms = l.milliseconds started ended;
      estimated_cost_usd = some l.no_cost;
    })

  -- The result of a case.
  abbrev pub result_of : EvalCase F → PlatformEvalOutput F → EvalResult F
  result_of case output =
      let scorecard : ScoreCard = score_case l.scoring case output in
      record {
        case_key = persisted_key case;
        passed = is_passed scorecard;
        summary = build_case_summary l.show case output (is_passed scorecard);
        scorecard = scorecard;
        response_text = output.response_text;
        tool_name = output.tool_name;
        requires_approval = output.requires_approval;
        citation_count = length output.citations;
        latency_ms = output.latency_ms;
        estimated_cost_usd = output.estimated_cost_usd;
      }

  abbrev pub details_of : EvalResult F → Payload
  details_of r =
      ("scorecard", l.scorecard_value r.scorecard)
      ∷ ("response_text", Value.str r.response_text)
      ∷ ("tool_name", optional_value Value.str r.tool_name)
      ∷ ("requires_approval", Value.bool r.requires_approval)
      ∷ ("citation_count", Value.int r.citation_count)
      ∷ ("latency_ms", Value.int r.latency_ms)
      ∷ ("estimated_cost_usd", optional_value l.float_value r.estimated_cost_usd)
      ∷ []

  -- The call of `store_eval_result` for a result.
  abbrev pub store_result : Uuid → EvalCaseRow → EvalResult F → Exec W EvalError EvalResultRow
  store_result run_id persisted_case r =
      store_eval_result s run_id persisted_case.id (status_of r.passed)
        (some (l.two_digits (total_score r.scorecard))) (some r.summary) (some (details_of r))

  -- One round of the loop of `run`.
  unfoldable pub run_case : Uuid → EvalCase F → Exec W EvalError (EvalResult F)
  run_case run_id case = do
    persisted_case ←
        get_or_create_eval_case s (persisted_key case) case.input_text (some case.description)
          (some (l.expectation_text case)) (some case.tags)
    output ← execute_case case
    store_result run_id persisted_case (result_of case output)
    pure (result_of case output)

  -- The loop of `run`, with the results so far.
  unfoldable pub run_cases :
      Uuid → List (EvalCase F) → List (EvalResult F) → Exec W EvalError (List (EvalResult F))
  run_cases run_id [] results = pure results
  run_cases run_id (case ∷ cases) results =
      run_case run_id case >>= λ r. run_cases run_id cases (results ++ r ∷ [])

  -- The body of the `try`.
  unfoldable pub try_cases : Uuid → List (EvalCase F) → Exec W EvalError (List (EvalResult F))
  try_cases run_id cases = do
    results ← run_cases run_id cases []
    update_eval_run_status s run_id completed
    pure results

  -- `except Exception`: the status is set, and the exception raised again.
  unfoldable pub except_failed :
      Uuid → Result EvalError (List (EvalResult F)) → Exec W EvalError (List (EvalResult F))
  except_failed run_id (ok results) = pure results
  except_failed run_id (raised e) =
      update_eval_run_status s run_id EvalRunStatus.failed >> lift (raised e)

  unfoldable pub guarded_cases : Uuid → List (EvalCase F) → Exec W EvalError (List (EvalResult F))
  guarded_cases run_id cases w = let (r, w') = try_cases run_id cases w in except_failed run_id r w'

  -- The results of a baseline: the name `ScoreCard` is not bound in the module, so that the first
  -- result raises.
  abbrev pub baseline_results : List EvalResultRow → Result EvalError (List (EvalResult F))
  baseline_results [] = ok []
  baseline_results (r ∷ rs) = raised (name_error "ScoreCard")

  abbrev pub baseline_of : Option EvalRunRow → W → Result EvalError (Option (EvalRun F))
  baseline_of none w = ok none
  baseline_of (some latest) w = elim (baseline_results (list_eval_results s latest.id w)) [
    | raised e ↦ raised e
    | ok results ↦ ok (some (build_report latest.name latest.model_name results))
  ]

  -- `_load_baseline`
  unfoldable pub load_baseline : String → Exec W EvalError (Option (EvalRun F))
  load_baseline run_name w = (baseline_of (get_latest_completed_run s run_name w) w, w)

  abbrev pub compared : Option (EvalRun F) → EvalRun F → Option Changes
  compared none report = none
  compared (some baseline) report = some (compare_reports report baseline)

  -- `run` from the baseline on
  unfoldable pub run_with :
      String → String → List (EvalCase F) → Option (EvalRun F) → Exec W EvalError (RunReport F)
  run_with run_name model_name cases baseline = do
    persisted_run ← create_eval_run s run_name (some model_name) in_progress
    results ← guarded_cases persisted_run.id cases
    let report : EvalRun F = build_report run_name (some model_name) results
    pure (record {
      report = report;
      eval_run_id = persisted_run.id;
      regression = compared baseline report;
    })

  -- `run`, with the cases that `load_eval_cases` gave
  unfoldable pub run : String → String → List (EvalCase F) → Bool → Exec W EvalError (RunReport F)
  run run_name model_name cases compare_to_latest =
      (if compare_to_latest then load_baseline run_name else pure none)
      >>= run_with run_name model_name cases
