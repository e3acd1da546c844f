-- ===== src/Db/Evals.antt =====
-- packages/db/src/db/repositories/eval_repository.py: `EvalRepository`, over the rows of
-- models/eval_run.py, eval_case.py and eval_result.py, without the columns that the program does not
-- read.
pub mod Cases
use governed_agent_platform.Prelude.{
  ℕ, String, Bool, true, false, Option, none, some, List, [], ◌∷◌, ◌++◌, ◌≡◌, refl, ◌==◌, ◌&&◌,
  ◌||◌, if◌then◌else◌, ltb, id_eq, string_eq, Eq, enum_eq, find, update, keep, Uuid, Payload,
}
use governed_agent_platform.Prelude.Exec.{Result, ok, raised, Exec, pure, ◌>>=◌, ◌>>◌}
use governed_agent_platform.Prelude.Sorting.{sort}
use governed_agent_platform.Tools.Schemas.{ToolError}

pub data EvalRunStatus : Type 0 where
  pending in_progress completed failed : EvalRunStatus

pub data EvalResultStatus : Type 0 where
  passed failed error : EvalResultStatus

abbrev pub eval_run_status_value : EvalRunStatus → String
eval_run_status_value pending = "PENDING"
eval_run_status_value in_progress = "IN_PROGRESS"
eval_run_status_value completed = "COMPLETED"
eval_run_status_value EvalRunStatus.failed = "FAILED"

-- `status == EvalRunStatus.IN_PROGRESS`
abbrev pub is_in_progress : EvalRunStatus → Bool
is_in_progress in_progress = true
is_in_progress _ = false

-- `status in {EvalRunStatus.COMPLETED, EvalRunStatus.FAILED}`
abbrev pub is_over : EvalRunStatus → Bool
is_over completed = true
is_over EvalRunStatus.failed = true
is_over _ = false

abbrev pub is_completed : EvalRunStatus → Bool
is_completed completed = true
is_completed _ = false

-- `status is EvalResultStatus.PASSED`
abbrev pub is_pass : EvalResultStatus → Bool
is_pass passed = true
is_pass _ = false

pub record EvalRunRow : Type 0 where
  pub id : Uuid
  pub name : String
  pub status : EvalRunStatus
  pub model_name : Option String
  pub started_at : Option ℕ
  pub completed_at : Option ℕ
  pub created_at : ℕ

pub record EvalCaseRow : Type 0 where
  pub id : Uuid
  pub key : String
  pub input_text : String
  pub description : Option String
  pub expected_behavior : Option String
  pub tags : Option (List String)
  pub is_active : Bool

-- `score` is the text of the decimal.
pub record EvalResultRow : Type 0 where
  pub id : Uuid
  pub eval_run_id : Uuid
  pub eval_case_id : Uuid
  pub status : EvalResultStatus
  pub score : Option String
  pub summary : Option String
  pub details : Option Payload
  pub created_at : ℕ

pub record EvalTables : Type 0 where
  pub eval_runs : List EvalRunRow
  pub eval_cases : List EvalCaseRow
  pub eval_results : List EvalResultRow

-- The exceptions of the evals: those of the tools, `NameError`, and any other one.
pub data EvalError : Type 0 where
  tool_error : ToolError → EvalError
  name_error : String → EvalError
  other_error : String → EvalError

-- What the repository uses of a session in a world `W`, as Session of Db/Session; `newer` is the
-- database's descending order of times that may be missing.
pub record EvalSession (W : Type 0) : Type 0 where
  pub tables : W → EvalTables
  pub write : (EvalTables → EvalTables) → W → W
  pub flush : Exec W EvalError Unit
  pub now : W → ℕ
  pub uuid4 : W → Uuid
  pub newer : Option ℕ → Option ℕ → Bool

-- The documented effect of a session, where nothing of the database fails.
pub record IsEvalSession {W : Type 0} (s : EvalSession W) : Type 0 where
  pub writes :
      (g : EvalTables → EvalTables) (w : W) → s.tables (s.flush (s.write g w)).1 ≡ g (s.tables w)
  pub flush_returns : (w : W) → (s.flush w).0 ≡ ok tt

abbrev pub is_eval_run : Uuid → EvalRunRow → Bool
is_eval_run id r = r.id == id

abbrev pub has_key : String → EvalCaseRow → Bool
has_key key c = c.key == key

abbrev pub is_case : Uuid → EvalCaseRow → Bool
is_case id c = c.id == id

abbrev pub is_result_of : Uuid → EvalResultRow → Bool
is_result_of id r = r.eval_run_id == id

abbrev pub time_or : ℕ → Option ℕ → Option ℕ
time_or now none = some now
time_or now (some t) = some t

-- The assignments of `update_eval_run_status`, at a time.
unfoldable pub with_eval_status : EvalRunStatus → ℕ → EvalRunRow → EvalRunRow
with_eval_status status now run = record run {
  status = status;
  started_at = if is_in_progress status then time_or now run.started_at else run.started_at;
  completed_at = if is_over status then some now else run.completed_at;
}

-- The assignments of `get_or_create_eval_case` to a case that is there.
abbrev pub with_case :
    String → Option String → Option String → Option (List String) → EvalCaseRow → EvalCaseRow
with_case input_text description expected_behavior tags c = record c {
  input_text = input_text;
  description = description;
  expected_behavior = expected_behavior;
  tags = tags;
}

abbrev pub created_earlier : EvalResultRow → EvalResultRow → Bool
created_earlier a b = ltb a.created_at b.created_at

module _ {W : Type 0} (s : EvalSession W) where
  unfoldable pub create_eval_run :
      String → Option String → EvalRunStatus → Exec W EvalError EvalRunRow
  create_eval_run name model_name status w =
      let run : EvalRunRow = record {
        id = s.uuid4 w;
        name = name;
        status = status;
        model_name = model_name;
        started_at = if is_in_progress status then some (s.now w) else none;
        completed_at = none;
        created_at = s.now w;
      } in
      (s.flush >> pure run) (s.write (λ t. record t { eval_runs = t.eval_runs ++ run ∷ [] }) w)

  -- `session.get(EvalRun, id)`
  unfoldable pub get_eval_run : Uuid → W → Option EvalRunRow
  get_eval_run id w = find (is_eval_run id) (s.tables w).eval_runs

  abbrev pub update_found_run :
      Option EvalRunRow → EvalRunStatus → Exec W EvalError (Option EvalRunRow)
  update_found_run none status w = (ok none, w)
  update_found_run (some run) status w =
      let change = with_eval_status status (s.now w) in
      (s.flush >> pure (some (change run)))
        (s.write (λ t. record t { eval_runs = update (is_eval_run run.id) change t.eval_runs }) w)

  unfoldable pub update_eval_run_status :
      Uuid → EvalRunStatus → Exec W EvalError (Option EvalRunRow)
  unfolding get_eval_run with_eval_status
  update_eval_run_status id status w = update_found_run (get_eval_run id w) status w

  -- A new case.
  abbrev pub add_case :
      String
      → String
      → Option String
      → Option String
      → Option (List String)
      → Exec W EvalError EvalCaseRow
  add_case key input_text description expected_behavior tags w =
      let c : EvalCaseRow = record {
        id = s.uuid4 w;
        key = key;
        input_text = input_text;
        description = description;
        expected_behavior = expected_behavior;
        tags = tags;
        is_active = true;
      } in
      (s.flush >> pure c) (s.write (λ t. record t { eval_cases = t.eval_cases ++ c ∷ [] }) w)

  -- The rest of `get_or_create_eval_case`, with what the query found.
  abbrev pub case_found :
      Option EvalCaseRow
      → String
      → String
      → Option String
      → Option String
      → Option (List String)
      → Exec W EvalError EvalCaseRow
  case_found none key input_text description expected_behavior tags w =
      add_case key input_text description expected_behavior tags w
  case_found (some existing) key input_text description expected_behavior tags w =
      let change = with_case input_text description expected_behavior tags in
      (s.flush >> pure (change existing)) (
        s.write (λ t. record t { eval_cases = update (is_case existing.id) change t.eval_cases }) w)

  unfoldable pub get_or_create_eval_case :
      String
      → String
      → Option String
      → Option String
      → Option (List String)
      → Exec W EvalError EvalCaseRow
  get_or_create_eval_case key input_text description expected_behavior tags w =
      case_found (find (has_key key) (s.tables w).eval_cases) key input_text description
        expected_behavior tags w

  unfoldable pub store_eval_result :
      Uuid
      → Uuid
      → EvalResultStatus
      → Option String
      → Option String
      → Option Payload
      → Exec W EvalError EvalResultRow
  store_eval_result eval_run_id eval_case_id status score summary details w =
      let r : EvalResultRow = record {
        id = s.uuid4 w;
        eval_run_id = eval_run_id;
        eval_case_id = eval_case_id;
        status = status;
        score = score;
        summary = summary;
        details = details;
        created_at = s.now w;
      } in
      (s.flush >> pure r) (s.write (λ t. record t { eval_results = t.eval_results ++ r ∷ [] }) w)

  unfoldable pub list_eval_results : Uuid → W → List EvalResultRow
  list_eval_results id w = sort created_earlier (keep (is_result_of id) (s.tables w).eval_results)

  -- The order of `get_latest_completed_run`.
  abbrev pub is_later : EvalRunRow → EvalRunRow → Bool
  is_later a b =
      if s.newer a.completed_at b.completed_at
      then true
      else if s.newer b.completed_at a.completed_at
      then false
      else ltb b.created_at a.created_at

  abbrev pub first_run : List EvalRunRow → Option EvalRunRow
  first_run [] = none
  first_run (r ∷ rs) = some r

  unfoldable pub get_latest_completed_run : String → W → Option EvalRunRow
  get_latest_completed_run name w =
      first_run
        (sort is_later (keep (λ r. r.name == name && is_completed r.status) (s.tables w).eval_runs))
