-- ===== src/Tools/Returns.antt =====
-- packages/tools/src/tools/executor.py: a tool call does not raise.
use governed_agent_platform.Prelude.{
  ℕ, zero, suc, ◌+◌, ◌≤◌, ◌≡◌, String, Bool, true, false, Option, none, some, arith, string_eq,
}
use governed_agent_platform.Prelude.Dict.{Dict, lookup}
use governed_agent_platform.Prelude.Exec.{Result, ok, raised}
use governed_agent_platform.Tools.Schemas.{
  ToolCall, ToolResult, ToolError, ToolInput, ToolDefinition, get,
}
use governed_agent_platform.Tools.Reports.{attempt-Rounded}
use governed_agent_platform.Tools.Executor.{
  Clock, Start, tenant_field, failure_text, build_metadata, finish, try_handler, give_up, on_error,
  caught, attempt, loop, invalid, validated, run_definition, begin, looked_up, execute,
}

-- A value, not an exception.
abbrev pub Works : {A : Type 0} → Result ToolError A → Type 0
Works (ok a) = Unit
Works (raised e) = ⊥

abbrev pub Returns : {W : Type 0} → Option (Result ToolError ToolResult × W) → Type 0
Returns none = ⊥
Returns (some (r, w)) = Works r

module _ {W : Type 0} (clock : Clock W) (show : ℕ → String)
    (now : (w : W) → Works (clock.utc_now w).0) (counter : (w : W) → Works (clock.perf_counter w).0)
    (since : (n : ℕ) (w : W) → Works (clock.milliseconds_since n w).0)
    (definition : ToolDefinition W) (positive : 1 ≤ definition.timeout_ms) where
  built-Works :
      (t : Option String) (n s k d : ℕ) (b : Bool)
      → Works (build_metadata clock show definition t (suc n) s k d b)
  unfolding build_metadata
  built-Works t n s k d b = ground arith

  finish-Works :
      (t : Option String) (n : ℕ) (start : Start) (b : Bool) (w : W)
      → Works (finish clock show definition t (suc n) start b w).0
  unfolding finish
  finish-Works t n start b w = grind (arith, now, since, built-Works)

  give_up-Works :
      (t : Option String) (n : ℕ) (start : Start) (b : Bool) (e : String) (w : W)
      → Works (give_up clock show definition t (suc n) start b e w).0
  unfolding give_up
  give_up-Works t n start b e w = ground (arith, finish-Works t n start b w)

  on_error-Works :
      (i : ToolInput) (n : ℕ) (start : Start) (b : Bool) (e : ToolError) (w : W)
      → Works (on_error clock show definition i (suc n) start b e w).0
  unfolding on_error
  on_error-Works i n start b e w =
      ground (arith, give_up-Works i.tenant_id n start b (failure_text e) w)

  caught-Works :
      (i : ToolInput) (n : ℕ) (start : Start) (b : Bool) (r : Result ToolError ToolResult) (w : W)
      → Works (caught clock show definition i (suc n) start b r w).0
  unfolding caught
  caught-Works i n start b (ok r) w = tt
  caught-Works i n start b (raised e) w = on_error-Works i n start b e w

  attempt-Works :
      (i : ToolInput) (n : ℕ) (start : Start) (b : Bool) (w : W)
      → Works (attempt clock show definition i (suc n) start b w).0
  unfolding attempt
  attempt-Works i n start b w =
      caught-Works i n start b (try_handler clock show definition i (suc n) start b w).0
        (try_handler clock show definition i (suc n) start b w).1

  loop-Returns :
      (fuel : ℕ) (i : ToolInput) (n : ℕ) (start : Start) (b : Bool) (w : W)
      → n ≤ definition.retry_count
      → n + fuel ≡ suc definition.retry_count
      → Returns (loop clock show fuel definition i n start b w)
  unfolding loop
  loop-Returns zero i n start b w le enough = ground arith
  loop-Returns (suc fuel) i n start b w le enough = ground (
    arith,
    attempt-Works i n start b w,
    attempt-Rounded clock show definition i (suc n) start b w,
    loop-Returns fuel i (suc n) start true (attempt clock show definition i (suc n) start b w).1,
  )

  invalid-Works :
      (call : ToolCall) (start : Start) (text : String) (w : W)
      → Works (tenant_field (lookup "tenant_id" call.arguments))
      → Works (invalid clock show definition call start text w).0
  unfolding invalid
  invalid-Works call start text w h = grind (arith, now, since, built-Works)

  validated-Returns :
      (call : ToolCall) (start : Start) (r : Result String ToolInput) (w : W)
      → Works (tenant_field (lookup "tenant_id" call.arguments))
      → Returns (validated clock show definition call start r w)
  unfolding validated
  validated-Returns call start (raised text) w h = invalid-Works call start text w h
  validated-Returns call start (ok i) w h =
      loop-Returns (suc definition.retry_count) i 0 start false w (omega arith) (omega arith)

  run_definition-Returns :
      (call : ToolCall) (w : W)
      → Works (tenant_field (lookup "tenant_id" call.arguments))
      → Returns (run_definition clock show definition call w)
  unfolding run_definition begin
  run_definition-Returns call w h = grind (arith, now, counter, validated-Returns)

  -- Whatever the handler and the schema of a known tool do, a call of it returns a result, where the
  -- clock does not raise, the tool's timeout is at least one millisecond and the `tenant_id` of the
  -- arguments is a text, null or missing.
  pub execute-Returns :
      (definitions : Dict String (ToolDefinition W)) (call : ToolCall) (w : W)
      → get call.name definitions ≡ ok definition
      → Works (tenant_field (lookup "tenant_id" call.arguments))
      → Returns (execute clock show definitions call w)
  unfolding execute looked_up
  execute-Returns definitions call w found h =
      ground (arith, found, run_definition-Returns call w h)
