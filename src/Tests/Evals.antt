-- ===== src/Tests/Evals.antt =====
-- A case and a result of packages/evals, and the witnesses of its theorems.
use governed_agent_platform.Prelude.{
  ℕ, String, true, false, none, some, List, [], ◌∷◌, leb, string_eq, ◌==◌, Value,
}
use governed_agent_platform.Evals.Scoring.{EvalCase, ScoringLibrary}
use governed_agent_platform.Evals.Reports.{EvalResult}
use governed_agent_platform.Prelude.{refl, Fields}
use governed_agent_platform.Prelude.Exec.{ok}
use governed_agent_platform.Tools.Schemas.{low, ToolCall, ToolResult}
use governed_agent_platform.Tools.Schemas
use governed_agent_platform.Db.Evals.{EvalTables, EvalSession, IsEvalSession}
use governed_agent_platform.Evals.Runner.{RunnerLibrary, run}
use governed_agent_platform.Evals.Runner.Baseline.{Ends, run-Ends}
use governed_agent_platform.Db.Evals.{get_or_create_eval_case}
use governed_agent_platform.Db.Evals.Cases.{Kept, get_or_create_eval_case-Kept}

-- Only equal texts contain each other.
abbrev library : ScoringLibrary ℕ
library = record { lower = λ s. s; contains = λ needle text. needle == text; le = leb }

abbrev case_of_ticket : EvalCase ℕ
case_of_ticket = record {
  key = "ticket-lookup";
  version = "1";
  description = "Looks up a ticket.";
  input_text = "ticket";
  tenant_id = "tenant-a";
  context = ("ticket_id", Value.str "T-100") ∷ [];
  expectation = record {
    tool_name = some "get_ticket";
    requires_approval = some false;
    min_citations = 0;
    response_contains = [];
    response_format = none;
    max_latency_ms = 1000;
    max_cost_usd = none;
  };
  tags = [];
}

abbrev pub result : String → ℕ → EvalResult ℕ
result key useful = record {
  case_key = key;
  passed = true;
  summary = "passed";
  scorecard = record {
    groundedness = 1;
    tool_choice = 1;
    approval_trigger = 1;
    response_usefulness = useful;
    format_correctness = 1;
    citation_presence = 1;
    latency_signal = 1;
    cost_signal = 1;
  };
  response_text = "Ticket T-100: Double charge (open).";
  tool_name = some "get_ticket";
  requires_approval = false;
  citation_count = 0;
  latency_ms = 3;
  estimated_cost_usd = some 0;
}

abbrev results : List (EvalResult ℕ)
results = result "ticket-lookup:1" 1 ∷ result "refund-draft:1" 0 ∷ []

abbrev no_rows : EvalTables
no_rows = record { eval_runs = []; eval_cases = []; eval_results = [] }

-- A session whose world is the tables.
abbrev pub session : EvalSession EvalTables
session = record {
  tables = λ t. t;
  write = λ change t. change t;
  flush = λ t. (ok tt, t);
  now = λ t. 9;
  uuid4 = λ t. 7;
  newer = λ a b. false;
}

session-IsEvalSession : IsEvalSession session
session-IsEvalSession = record { writes = λ g w. refl; flush_returns = λ w. refl }

abbrev ticket_result : ToolResult
ticket_result = record {
  tool_name = "get_ticket";
  status = Schemas.ToolStatus.succeeded;
  output =
      some (("ticket", Value.dict (Fields.field "ticket_id" (Value.str "T-100") Fields.end)) ∷ []);
  error = none;
  requires_approval = false;
  preview_payload = none;
  metadata = record {
    tool_name = "get_ticket";
    risk_level = low;
    requires_approval = false;
    tenant_id = some "tenant-a";
    attempts = 1;
    timeout_ms = 250;
    started_at = 1;
    completed_at = 2;
    duration_ms = 1;
    retried = false;
  };
}

abbrev pub runner : RunnerLibrary EvalTables ℕ
runner = record {
  scoring = library;
  execute = λ call t. (ok ticket_result, t);
  perf_counter = λ t. (0, t);
  milliseconds = λ a b. 3;
  expectation_text = λ case. "{}";
  two_digits = λ n. "1.00";
  scorecard_value = λ c. Value.null;
  float_value = Value.int;
  no_cost = 0;
  repr = λ v. "None";
  show = λ n. "0";
}

run-Ends_example :
    Ends runner session session-IsEvalSession
      (λ call w. refl)
      (λ w. refl)
      true
      "smoke"
      1
      no_rows
      (run runner session "smoke" "v1-deterministic" (case_of_ticket ∷ []) true no_rows)
run-Ends_example =
    run-Ends runner session session-IsEvalSession (λ call w. refl) (λ w. refl) "smoke"
      "v1-deterministic" (case_of_ticket ∷ []) true no_rows refl

get_or_create_eval_case-Kept_example :
    Kept session session-IsEvalSession "ticket-lookup:1" "ticket" none none none
      (get_or_create_eval_case session "ticket-lookup:1" "ticket" none none none no_rows)
get_or_create_eval_case-Kept_example =
    get_or_create_eval_case-Kept session session-IsEvalSession "ticket-lookup:1" "ticket" none none
      none no_rows tt
