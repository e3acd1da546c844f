-- ===== src/Evals/Runner/Baseline.antt =====
-- packages/evals/src/evals/runner.py: how `run` ends, with the baseline that it loads first.
use governed_agent_platform.Prelude.{
  ℕ, String, Bool, true, false, ◌≡◌, ◌≢◌, refl, ◌⊎◌, inl, inr, Option, none, some, List, [], ◌∷◌,
  length, find, arith,
}
use governed_agent_platform.Prelude.Exec.{Result, ok, raised}
use governed_agent_platform.Tools.Schemas.{ToolCall}
use governed_agent_platform.Evals.Scoring.{EvalCase}
use governed_agent_platform.Evals.Reports.{EvalRun, build_report}
use governed_agent_platform.Evals.Runner.{RunnerLibrary, RunReport, baseline_of, load_baseline, run}
use governed_agent_platform.Evals.Runner.Outcome.{Settled, run_with-Settled}
use governed_agent_platform.Db.Evals.{
  EvalRunRow, EvalResultRow, EvalError, name_error, EvalSession, IsEvalSession, is_eval_run,
  list_eval_results, get_latest_completed_run,
}

module _ {W F : Type 0} (l : RunnerLibrary W F) (s : EvalSession W) where
  abbrev pub rows_of : Option EvalRunRow → W → List EvalResultRow
  rows_of none w = []
  rows_of (some latest) w = list_eval_results s latest.id w

  -- The run is compared, with a latest completed run of its name that has results.
  abbrev pub Compares : Bool → String → W → Type 0
  Compares false run_name w = ⊥
  Compares true run_name w = rows_of (get_latest_completed_run s run_name w) w ≢ []

  results_lem :
      (o : Option EvalRunRow) (w : W) (rows : List EvalResultRow)
      → rows_of o w ≡ rows
      → ((b : Option (EvalRun F)) × ((baseline_of l s o w ≡ ok b) × (rows_of o w ≡ [])))
        ⊎ ((baseline_of l s o w ≡ raised (name_error "ScoreCard")) × (rows_of o w ≢ []))
  results_lem none w rows h = inl (none, (refl, refl))
  results_lem (some latest) w [] h =
      inl (some (build_report latest.name latest.model_name []), (rw (h, baseline_of) refl, h))
  results_lem (some latest) w (r ∷ rs) h =
      inr (rw (h, baseline_of) refl, rw h (λ e. absurd (ground arith)))

  module _ (laws : IsEvalSession s)
      (runs_tool : (call : ToolCall) (w : W) → s.tables (l.execute call w).1 ≡ s.tables w)
      (reads_clock : (w : W) → s.tables (l.perf_counter w).1 ≡ s.tables w) where
    -- How a run ends, from the world where it began.
    abbrev pub Ends : Bool → String → ℕ → W → Result EvalError (RunReport F) × W → Type 0
    Ends compare run_name n w (ok r, v) =
        Settled l s laws runs_tool reads_clock n w (ok r, v) × (¬ Compares compare run_name w)
    Ends compare run_name n w (raised e, v) =
        (Settled l s laws runs_tool reads_clock n w (raised e, v) × (¬ Compares compare run_name w))
        ⊎ ((v ≡ w) × ((e ≡ name_error "ScoreCard") × Compares compare run_name w))

    Settled-Ends :
        (compare : Bool) (run_name : String) (n : ℕ) (w : W)
        (m : Result EvalError (RunReport F) × W)
        → ¬ Compares compare run_name w
        → Settled l s laws runs_tool reads_clock n w m
        → Ends compare run_name n w m
    Settled-Ends compare run_name n w (ok r, v) free h = (h, free)
    Settled-Ends compare run_name n w (raised e, v) free h = inl (h, free)

    -- A run of the evals is compared to a baseline where it is asked to be and a completed run of its
    -- name has results. Such a run creates nothing: it raises the NameError of `ScoreCard` and leaves
    -- the world as it was. Any other run that returns leaves the run that it created completed, with
    -- a result in the report and one in the database for each case, and one that raises leaves its
    -- run failed. The session is as documented, the tools and the clock leave the tables of the
    -- evals alone, and the id of the new run is a new one.
    pub run-Ends :
        (run_name model_name : String) (cases : List (EvalCase F)) (compare_to_latest : Bool)
        (w : W)
        → find (is_eval_run (s.uuid4 w)) (s.tables w).eval_runs ≡ none
        → Ends compare_to_latest run_name
            (length cases)
            w
            (run l s run_name model_name cases compare_to_latest w)
    unfolding run load_baseline
    run-Ends run_name model_name cases false w fresh =
        Settled-Ends false run_name (length cases) w _ (λ h. h)
          (run_with-Settled l s laws runs_tool reads_clock run_name model_name cases none w fresh)
    run-Ends run_name model_name cases true w fresh =
        elim (results_lem (get_latest_completed_run s run_name w) w _ refl) [
          | inl (b, (loaded, nothing)) ↦ rw loaded (
              Settled-Ends true run_name (length cases) w _ (λ h. h nothing)
                (run_with-Settled l s laws runs_tool reads_clock run_name model_name cases b w
                  fresh))
          | inr (failing, there) ↦ rw failing (inr (refl, (refl, there)))
        ]
