-- ===== src/Evals/Runner/Outcome.antt =====
-- packages/evals/src/evals/runner.py: how a run of the evals ends, and what it leaves in the
-- database.
use governed_agent_platform.Prelude.{
  ℕ, suc, ◌+◌, String, ◌≡◌, refl, ap, ◌∙◌, Option, none, some, List, [], ◌∷◌, ◌++◌, length, find,
  update, changed, eq_self, id_eq, Uuid, arith, find_update_lem, find_append_lem, length_last,
}
use governed_agent_platform.Prelude.Exec.{Result, ok, raised, pure, ◌>>=◌, ◌>>◌, continue}
use governed_agent_platform.Tools.Schemas.{ToolCall}
use governed_agent_platform.Evals.Scoring.{EvalCase, PlatformEvalOutput, persisted_key}
use governed_agent_platform.Evals.Reports.{EvalResult, EvalRun, build_report}
use governed_agent_platform.Evals.Runner.{
  RunnerLibrary, RunReport, execute_case, result_of, store_result, run_case, run_cases, try_cases,
  except_failed, guarded_cases, run_with, compared,
}
use governed_agent_platform.Db.Evals.{
  EvalRunStatus, in_progress, completed, EvalRunRow, EvalCaseRow, EvalResultRow, EvalTables,
  EvalError, EvalSession, IsEvalSession, is_eval_run, with_eval_status, create_eval_run,
  update_eval_run_status, get_or_create_eval_case, store_eval_result, case_found,
}

abbrev pub status_of_run : Option EvalRunRow → Option EvalRunStatus
status_of_run none = none
status_of_run (some r) = some r.status

module _ {W F : Type 0} (l : RunnerLibrary W F) (s : EvalSession W) (laws : IsEvalSession s) where
  abbrev pub runs_of : W → List EvalRunRow
  runs_of w = (s.tables w).eval_runs

  -- The number of the results that are stored.
  abbrev pub stored : W → ℕ
  stored w = length (s.tables w).eval_results

  -- The status of a run.
  abbrev pub status_at : Uuid → W → Option EvalRunStatus
  status_at id w = status_of_run (find (is_eval_run id) (runs_of w))

  flush_lem : {A : Type 0} (x : A) (w : W) → (s.flush >> pure x) w ≡ (ok x, (s.flush w).1)
  flush_lem x w = rw (laws.flush_returns w) refl

  -- A change that is flushed is seen.
  flushed :
      {A X : Type 0} (g : EvalTables → X) (change : EvalTables → EvalTables) (x : A) (w : W)
      → g (s.tables ((s.flush >> pure x) (s.write change w)).1) ≡ g (change (s.tables w))
  flushed g change x w =
      ap (λ r. g (s.tables r.1)) (flush_lem x (s.write change w)) ∙ ap g (laws.writes change w)

  -- A call that leaves the runs and the number of the results alone.
  abbrev counted : W → List EvalRunRow × ℕ
  counted w = (runs_of w, stored w)

  case_found-counted :
      (o : Option EvalCaseRow) (key input : String) (d e : Option String)
      (tags : Option (List String)) (w : W)
      → counted (case_found s o key input d e tags w).1 ≡ counted w
  case_found-counted none key input d e tags w =
      flushed (λ t. (t.eval_runs, length t.eval_results)) _ _ w
  case_found-counted (some c) key input d e tags w =
      flushed (λ t. (t.eval_runs, length t.eval_results)) _ _ w

  get_or_create-counted :
      (key input : String) (d e : Option String) (tags : Option (List String)) (w : W)
      → counted (get_or_create_eval_case s key input d e tags w).1 ≡ counted w
  unfolding get_or_create_eval_case
  get_or_create-counted key input d e tags w = case_found-counted _ key input d e tags w

  -- A result is stored, and the runs are left alone.
  stored_one :
      (run_id : Uuid) (c : EvalCaseRow) (r : EvalResult F) (w : W)
      → (runs_of (store_result l s run_id c r w).1 ≡ runs_of w)
        × (stored (store_result l s run_id c r w).1 ≡ suc (stored w))
  unfolding store_eval_result
  stored_one run_id c r w = (
    flushed (λ t. t.eval_runs) _ _ w,
    flushed (λ t. length t.eval_results) _ _ w ∙ length_last (s.tables w).eval_results _,
  )

  -- The tools and the clock leave the tables of the evals alone.
  module _ (runs_tool : (call : ToolCall) (w : W) → s.tables (l.execute call w).1 ≡ s.tables w)
      (reads_clock : (w : W) → s.tables (l.perf_counter w).1 ≡ s.tables w) where
    execute_case_keeps :
        (case : EvalCase F) (w : W) → s.tables (execute_case l s case w).1 ≡ s.tables w
    unfolding execute_case
    execute_case_keeps case w = grind (arith, runs_tool, reads_clock)

    -- How a round ends: the runs are as before, and a returned result is stored.
    abbrev Round : W → Result EvalError (EvalResult F) × W → Type 0
    Round w (ok r, v) = (runs_of v ≡ runs_of w) × (stored v ≡ suc (stored w))
    Round w (raised e, v) = runs_of v ≡ runs_of w

    run_case-Round :
        (run_id : Uuid) (case : EvalCase F) (w : W) → Round w (run_case l s run_id case w)
    unfolding run_case
    run_case-Round run_id case w =
        made
          (get_or_create_eval_case s (persisted_key case) case.input_text (some case.description)
            (some (l.expectation_text case)) (some case.tags) w)
          (get_or_create-counted _ _ _ _ _ w)
      where
        kept :
            (c : EvalCaseRow) (o : PlatformEvalOutput F) (v : W)
            → counted v ≡ counted w
            → (r : Result EvalError EvalResultRow) (u : W)
            → (runs_of u ≡ runs_of v) × (stored u ≡ suc (stored v))
            → Round w (continue r (λ _. pure (result_of l s case o)) u)
        kept c o v h (ok row) u k = (k.0 ∙ ap (λ x. x.0) h, k.1 ∙ ap (λ x. suc x.1) h)
        kept c o v h (raised e) u k = k.0 ∙ ap (λ x. x.0) h

        scored :
            (c : EvalCaseRow) (r : Result EvalError (PlatformEvalOutput F)) (v : W)
            → counted v ≡ counted w
            → Round w (
                continue r
                  (λ o.
                    store_result l s run_id c (result_of l s case o) >> pure (result_of l s case o))
                  v)
        scored c (raised e) v h = ap (λ x. x.0) h
        scored c (ok o) v h =
            kept c o v h (store_result l s run_id c (result_of l s case o) v).0 _
              (stored_one run_id c (result_of l s case o) v)

        made :
            (m : Result EvalError EvalCaseRow × W)
            → counted m.1 ≡ counted w
            → Round w (
                continue m.0
                  (λ c. execute_case l s case >>= λ o.
                    store_result l s run_id c (result_of l s case o) >> pure (result_of l s case o))
                  m.1)
        made (raised e, v) h = ap (λ x. x.0) h
        made (ok c, v) h =
            scored c (execute_case l s case v).0 (execute_case l s case v).1
              (ap (λ t. (t.eval_runs, length t.eval_results)) (execute_case_keeps case v) ∙ h)

    -- How the loop ends, from a number of results on.
    abbrev Looped : ℕ → ℕ → W → Result EvalError (List (EvalResult F)) × W → Type 0
    Looped n m w (ok results, v) =
        (runs_of v ≡ runs_of w) × ((length results ≡ n + m) × (stored v ≡ stored w + m))
    Looped n m w (raised e, v) = runs_of v ≡ runs_of w

    run_cases-Looped :
        (run_id : Uuid) (cases : List (EvalCase F)) (results : List (EvalResult F)) (w : W)
        → Looped (length results) (length cases) w (run_cases l s run_id cases results w)
    unfolding run_cases
    run_cases-Looped run_id [] results w = (refl, (omega arith, omega arith))
    run_cases-Looped run_id (case ∷ cases) results w =
        step (λ r v. run_cases-Looped run_id cases (results ++ r ∷ []) v)
          (run_case l s run_id case w) (run_case-Round run_id case w)
      where
        later :
            (r : EvalResult F) (v : W) (x : Result EvalError (List (EvalResult F))) (u : W)
            → (runs_of v ≡ runs_of w) × (stored v ≡ suc (stored w))
            → Looped (length (results ++ r ∷ [])) (length cases) v (x, u)
            → Looped (length results) (suc (length cases)) w (x, u)
        later r v (raised e) u h k = k ∙ h.0
        later r v (ok all) u h k = (k.0 ∙ h.0, omega (arith, k, h, length_last results r))

        step :
            ((r : EvalResult F) (v : W)
              → Looped
                  (length (results ++ r ∷ []))
                  (length cases)
                  v
                  (run_cases l s run_id cases (results ++ r ∷ []) v))
            → (m : Result EvalError (EvalResult F) × W) → Round w m
            → Looped
                (length results)
                (suc (length cases))
                w
                (continue m.0 (λ r. run_cases l s run_id cases (results ++ r ∷ [])) m.1)
        step rest (raised e, v) h = h
        step rest (ok r, v) h =
            later r v (run_cases l s run_id cases (results ++ r ∷ []) v).0 _ h (rest r v)

    -- The update of the run's status, where the run is there.
    module _ (run_id : Uuid) (run : EvalRunRow) (is_its : run.id ≡ run_id) where
      updated :
          (status : EvalRunStatus) (w : W)
          → find (is_eval_run run_id) (runs_of w) ≡ some run
          → ((update_eval_run_status s run_id status w).0
              ≡ ok (some (with_eval_status status (s.now w) run)))
            × ((find (is_eval_run run_id) (runs_of (update_eval_run_status s run_id status w).1)
                  ≡ some (with_eval_status status (s.now w) run))
                × (stored (update_eval_run_status s run_id status w).1 ≡ stored w))
      unfolding update_eval_run_status with_eval_status
      updated status w found =
          let change = with_eval_status status (s.now w) in
          rw found (
            ap (λ r. r.0) (flush_lem (some (change run)) _),
            (
              flushed (λ t. find (is_eval_run run_id) t.eval_runs) _ (some (change run)) w
                  ∙ ap
                      (λ id. find (is_eval_run run_id) (update (is_eval_run id) change (runs_of w)))
                      is_its
                  ∙ find_update_lem (is_eval_run run_id) change (λ x h. h) (runs_of w)
                  ∙ ap (changed change) found,
              flushed (λ t. length t.eval_results) _ (some (change run)) w,
            ),
          )

      -- How the guarded loop ends, from the world where the run was created.
      abbrev Guarded : ℕ → W → Result EvalError (List (EvalResult F)) × W → Type 0
      Guarded n w (ok results, v) =
          (status_at run_id v ≡ some completed) × ((length results ≡ n) × (stored v ≡ stored w + n))
      Guarded n w (raised e, v) = status_at run_id v ≡ some EvalRunStatus.failed

      guarded_cases-Guarded :
          (cases : List (EvalCase F)) (w : W)
          → find (is_eval_run run_id) (runs_of w) ≡ some run
          → Guarded (length cases) w (guarded_cases l s run_id cases w)
      unfolding guarded_cases try_cases except_failed with_eval_status
      guarded_cases-Guarded cases w found =
          looped (run_cases l s run_id cases [] w) (run_cases-Looped run_id cases [] w)
        where
          failing :
              (e : EvalError) (v : W)
              → runs_of v ≡ runs_of w
              → Guarded (length cases) w (except_failed l s run_id (raised e) v)
          failing e v h =
              let u = updated EvalRunStatus.failed v (ap (find (is_eval_run run_id)) h ∙ found) in
              rw (u.0) (ap status_of_run u.1.0)

          looped :
              (m : Result EvalError (List (EvalResult F)) × W)
              → Looped 0 (length cases) w m
              → Guarded (length cases) w (
                  let (r, v) =
                    continue m.0
                      (λ results. update_eval_run_status s run_id completed >> pure results)
                      m.1 in
                  except_failed l s run_id r v)
          looped (raised e, v) h = failing e v h
          looped (ok results, v) h =
              let u = updated completed v (ap (find (is_eval_run run_id)) h.0 ∙ found) in
              rw (u.0) (ap status_of_run u.1.0, (omega (arith, h.1.0), u.1.1 ∙ h.1.1))

    -- The run that is created.
    new_run : String → String → W → EvalRunRow
    new_run run_name model_name w = record {
      id = s.uuid4 w;
      name = run_name;
      status = in_progress;
      model_name = some model_name;
      started_at = some (s.now w);
      completed_at = none;
      created_at = s.now w;
    }

    created :
        (run_name model_name : String) (w : W)
        → find (is_eval_run (s.uuid4 w)) (runs_of w) ≡ none
        → (v : W) × ((create_eval_run s run_name (some model_name) in_progress w
              ≡ (ok (new_run run_name model_name w), v))
            × ((find (is_eval_run (s.uuid4 w)) (runs_of v) ≡ some (new_run run_name model_name w))
                × (stored v ≡ stored w)))
    unfolding create_eval_run new_run
    created run_name model_name w fresh =
        let run : EvalRunRow = new_run run_name model_name w in
        let change : EvalTables → EvalTables =
          λ t. record t { eval_runs = t.eval_runs ++ run ∷ [] } in
        (
          (s.flush (s.write change w)).1,
          (
            flush_lem run (s.write change w),
            (
              ap (λ t. find (is_eval_run (s.uuid4 w)) t.eval_runs) (laws.writes change w)
                  ∙ find_append_lem (is_eval_run (s.uuid4 w)) (runs_of w) run fresh
                      (eq_self (s.uuid4 w)),
              ap (λ t. length t.eval_results) (laws.writes change w),
            ),
          ),
        )

    -- How a run ends, from the world where it began: the run that it creates has the status.
    abbrev pub Settled : ℕ → W → Result EvalError (RunReport F) × W → Type 0
    Settled n w (ok r, v) =
        (status_at r.eval_run_id v ≡ some completed)
        × ((r.report.total_cases ≡ n) × (stored v ≡ stored w + n))
    Settled n w (raised e, v) = status_at (s.uuid4 w) v ≡ some EvalRunStatus.failed

    -- A run of the evals that returns leaves the run that it created completed, with a result in the
    -- report and one in the database for each case; one that raises leaves its run failed. The
    -- session is as documented, the tools and the clock leave the tables of the evals alone, and the
    -- id of the new run is a new one.
    pub run_with-Settled :
        (run_name model_name : String) (cases : List (EvalCase F)) (baseline : Option (EvalRun F))
        (w : W)
        → find (is_eval_run (s.uuid4 w)) (s.tables w).eval_runs ≡ none
        → Settled (length cases) w (run_with l s run_name model_name cases baseline w)
    unfolding run_with build_report new_run
    run_with-Settled run_name model_name cases baseline w fresh =
        let (v, (made, (found, same))) = created run_name model_name w fresh in
        rw made (
          reported v (guarded_cases l s (s.uuid4 w) cases v)
            (guarded_cases-Guarded (s.uuid4 w) (new_run run_name model_name w) refl cases v found)
            same)
      where
        reported :
            (v : W) (m : Result EvalError (List (EvalResult F)) × W)
            → Guarded (s.uuid4 w) (new_run run_name model_name w) refl (length cases) v m
            → stored v ≡ stored w
            → Settled (length cases) w (
                continue m.0
                  (λ results. pure (record {
                    report = build_report run_name (some model_name) results;
                    eval_run_id = s.uuid4 w;
                    regression =
                        compared l s baseline (build_report run_name (some model_name) results);
                  }))
                  m.1)
        reported v (raised e, u) h same = h
        reported v (ok results, u) h same = (h.0, (h.1.0, h.1.1 ∙ ap (λ n. n + length cases) same))
