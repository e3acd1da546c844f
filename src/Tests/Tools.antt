-- ===== src/Tests/Tools.antt =====
-- Calls of packages/tools/src/tools on concrete tools, and the witnesses of the executor's theorems.
-- The world counts the runs of a handler.
use governed_agent_platform.Prelude.{
  ℕ, zero, suc, arith, ◌≡◌, refl, String, Bool, true, false, Option, none, some, [], ◌∷◌, string_eq,
  Value, Payload,
}
use governed_agent_platform.Prelude.Dict.{Dict, lookup}
use governed_agent_platform.Prelude.Exec.{Result, ok, raised}
use governed_agent_platform.Tools.Schemas.{
  high, low, ToolStatus, succeeded, approval_required, ToolCall, ToolResult, ToolError,
  retryable_tool_error, validation_error, ToolInput, Handled, ToolDefinition,
  can_execute_without_approval, get,
}
use governed_agent_platform.Tools.Executor.{
  Clock, build_metadata, run_with_timeout, finish, try_handler, on_error, caught, attempt, loop,
  invalid, validated, begin, run_definition, looked_up, execute,
}
use governed_agent_platform.Tools.Reports.{Reported, execute-Reported}
use governed_agent_platform.Tools.Returns.{Returns, execute-Returns}

abbrev pub clock : Clock ℕ
clock = record {
  utc_now = λ w. (ok 1000, w);
  perf_counter = λ w. (ok 0, w);
  milliseconds_since = λ n w. (ok 3, w);
}

abbrev pub show : ℕ → String
show n = "250"

-- A schema that wants a text under `tenant_id`.
abbrev schema : Payload → Result String ToolInput
schema ((name, Value.str s) ∷ fields) = ok (record { tenant_id = some s; fields = fields })
schema _ = raised "tenant_id"

-- A preview that needs approval.
abbrev draft : ToolDefinition ℕ
draft = record {
  name = "draft";
  description = "Drafts a refund.";
  input_schema = schema;
  risk_level = high;
  requires_approval = true;
  timeout_ms = 250;
  retry_count = 0;
  handler = λ i w. (
    record {
      elapsed_ms = 4;
      result = ok (record { output = none; preview_payload = some i.fields });
    },
    suc w,
  );
}

-- A tool that is busy at its first run.
abbrev busy_once : ToolInput → ℕ → Handled × ℕ
busy_once i zero = (record { elapsed_ms = 4; result = raised (retryable_tool_error "busy") }, 1)
busy_once i (suc w) = (
  record {
    elapsed_ms = 4;
    result = ok (record { output = some i.fields; preview_payload = none });
  },
  suc (suc w),
)

abbrev fetch : ToolDefinition ℕ
fetch = record {
  name = "fetch";
  description = "Loads a ticket.";
  input_schema = schema;
  risk_level = low;
  requires_approval = false;
  timeout_ms = 250;
  retry_count = 1;
  handler = busy_once;
}

abbrev registry : Dict String (ToolDefinition ℕ)
registry = ("draft", draft) ∷ ("fetch", fetch) ∷ []

abbrev call_of : String → Value → ToolCall
call_of name tenant = record {
  name = name;
  arguments = ("tenant_id", tenant) ∷ [];
  requested_by = none;
}

abbrev summary :
    Option (Result ToolError ToolResult × ℕ) → Option (Result ToolError (ToolStatus × ℕ × Bool) × ℕ)
summary none = none
summary (some (ok r, w)) = some (ok (r.status, r.metadata.attempts, r.metadata.retried), w)
summary (some (raised e, w)) = some (raised e, w)

-- The draft asks for approval after its handler ran.
draft_run :
    summary (execute clock show registry (call_of "draft" (Value.str "t")) 0)
    ≡ some (ok (approval_required, 1, false), 1)
unfolding execute looked_up run_definition begin validated loop attempt try_handler run_with_timeout
    finish build_metadata caught can_execute_without_approval get lookup
draft_run = refl

fetch_run :
    summary (execute clock show registry (call_of "fetch" (Value.str "t")) 0)
    ≡ some (ok (succeeded, 2, true), 2)
unfolding execute looked_up run_definition begin validated loop attempt try_handler run_with_timeout
    finish build_metadata caught on_error can_execute_without_approval get lookup
fetch_run = refl

-- Arguments whose tenant is no text are refused by the schema, and by the metadata of the refusal.
tenant_run :
    summary (execute clock show registry (call_of "fetch" (Value.int 7)) 0)
    ≡ some (raised (validation_error "tenant_id: Input should be a valid string"), 0)
unfolding execute looked_up run_definition begin validated invalid build_metadata get lookup
tenant_run = refl

execute-Reported_example :
    Reported
      (get "fetch" registry)
      (execute clock show registry (call_of "fetch" (Value.str "t")) 0)
execute-Reported_example = execute-Reported clock show registry (call_of "fetch" (Value.str "t")) 0

execute-Returns_example : Returns (execute clock show registry (call_of "fetch" (Value.str "t")) 0)
unfolding get lookup
execute-Returns_example =
    execute-Returns clock show (λ w. tt) (λ w. tt) (λ n w. tt) fetch (omega arith) registry
      (call_of "fetch" (Value.str "t")) 0 refl tt
