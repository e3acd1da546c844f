-- ===== src/Tools/Executor.antt =====
-- packages/tools/src/tools/executor.py: `ToolExecutor.execute`. The clock and the text that names a
-- number are parameters. A handler runs to its end even when it is late, since the pool of
-- `_run_with_timeout` waits for it, so a late handler has changed the world all the same.
use governed_agent_platform.Prelude.{
  ℕ, zero, suc, ◌&&◌, String, ◌<>◌, Bool, true, false, Option, none, some, [], ◌∷◌, if◌then◌else◌,
  leb, ltb, string_eq, id_eq, Value, Payload,
}
use governed_agent_platform.Prelude.Dict.{Dict, lookup}
use governed_agent_platform.Prelude.Exec.{Result, ok, raised, Exec, pure, lift, ◌>>=◌}
use governed_agent_platform.Tools.Schemas.{
  succeeded, failed, approval_required, ToolCall, ToolExecutionMetadata, ToolResult,
  ToolExecutionOutput, ToolError, key_error, other, retryable_tool_error, timeout_error,
  validation_error, message, ToolInput, ToolDefinition, can_execute_without_approval, get,
}

-- `utc_now()`, and `int((perf_counter() - started_clock) * 1000)` from a reading on.
pub record Clock (W : Type 0) : Type 0 where
  pub utc_now : Exec W ToolError ℕ
  pub perf_counter : Exec W ToolError ℕ
  pub milliseconds_since : ℕ → Exec W ToolError ℕ

-- What one call keeps from its start: the two readings.
pub record Start : Type 0 where
  pub started_at : ℕ
  pub started_clock : ℕ

-- `output.preview_payload or output.output`
abbrev pub or_output : Option Payload → Option Payload → Option Payload
or_output none output = output
or_output (some []) output = output
or_output (some (f ∷ fs)) output = some (f ∷ fs)

-- `call.arguments.get("tenant_id")` as the field `tenant_id: str | None`.
abbrev pub tenant_field : Option Value → Result ToolError (Option String)
tenant_field none = ok none
tenant_field (some Value.null) = ok none
tenant_field (some (Value.str s)) = ok (some s)
tenant_field (some v) = raised (validation_error "tenant_id: Input should be a valid string")

-- `future.result(...)` of a handler that is not late: its own `TimeoutError` is the pool's.
abbrev pub own_result :
    ToolError → Result ToolError ToolExecutionOutput → Result ToolError ToolExecutionOutput
own_result late (raised (timeout_error m)) = raised late
own_result late r = r

-- The text of `error` for an exception that ends the call.
abbrev pub failure_text : ToolError → String
failure_text (validation_error m) = "Tool execution failed: " <> m
failure_text (key_error m) = "Tool execution failed: " <> m
failure_text (other m) = "Tool execution failed: " <> m
failure_text e = message e

-- `except (RetryableToolError, TimeoutError)`
abbrev pub is_retryable : ToolError → Bool
is_retryable (retryable_tool_error m) = true
is_retryable (timeout_error m) = true
is_retryable _ = false

-- The end of an attempt: a result to return, or another round with `retried` set.
pub data Attempt : Type 0 where
  returned : ToolResult → Attempt
  retry : Attempt

module _ {W : Type 0} (clock : Clock W) (show : ℕ → String) where
  -- `_build_metadata`, with the bounds of the fields.
  unfoldable pub build_metadata :
      ToolDefinition W
      → Option String
      → ℕ
      → ℕ
      → ℕ
      → ℕ
      → Bool
      → Result ToolError ToolExecutionMetadata
  build_metadata definition tenant_id attempts started_at completed_at duration_ms retried =
      if leb 1 attempts && leb 1 definition.timeout_ms
      then ok (record {
        tool_name = definition.name;
        risk_level = definition.risk_level;
        requires_approval = definition.requires_approval;
        tenant_id = tenant_id;
        attempts = attempts;
        timeout_ms = definition.timeout_ms;
        started_at = started_at;
        completed_at = completed_at;
        duration_ms = duration_ms;
        retried = retried;
      })
      else raised (validation_error "Input should be greater than or equal to 1")

  -- `_run_with_timeout`: a late handler, and one that raises `TimeoutError`, time out.
  unfoldable pub run_with_timeout :
      ToolDefinition W → ToolInput → Exec W ToolError ToolExecutionOutput
  run_with_timeout definition validated_input w =
      let (h, w') = definition.handler validated_input w in
      let late : ToolError = timeout_error (
        "Tool '"
        <> definition.name
        <> "' timed out after "
        <> show definition.timeout_ms
        <> " ms.") in
      (if ltb definition.timeout_ms h.elapsed_ms then raised late else own_result late h.result, w')

  -- The metadata at the end of a call: the two readings, and the record.
  unfoldable pub finish :
      ToolDefinition W → Option String → ℕ → Start → Bool → Exec W ToolError ToolExecutionMetadata
  unfolding build_metadata
  finish definition tenant_id attempts start retried = do
    completed_at ← clock.utc_now
    duration_ms ← clock.milliseconds_since start.started_clock
    lift (
        build_metadata definition tenant_id attempts start.started_at completed_at duration_ms
          retried)

  -- The two results of an attempt whose handler gave an output.
  abbrev pub output_result :
      ToolDefinition W → ToolExecutionOutput → ToolExecutionMetadata → Bool → ToolResult
  output_result definition output metadata false = record {
    tool_name = definition.name;
    status = approval_required;
    output = none;
    error = none;
    requires_approval = true;
    preview_payload = or_output output.preview_payload output.output;
    metadata = metadata;
  }
  output_result definition output metadata true = record {
    tool_name = definition.name;
    status = succeeded;
    output = output.output;
    error = none;
    requires_approval = false;
    preview_payload = none;
    metadata = metadata;
  }

  abbrev pub failed_result : String → String → ToolExecutionMetadata → ToolResult
  failed_result tool_name error metadata = record {
    tool_name = tool_name;
    status = failed;
    output = none;
    error = some error;
    requires_approval = false;
    preview_payload = none;
    metadata = metadata;
  }

  -- The body of the `try` block.
  unfoldable pub try_handler :
      ToolDefinition W → ToolInput → ℕ → Start → Bool → Exec W ToolError ToolResult
  unfolding run_with_timeout finish
  try_handler definition validated_input attempts start retried = do
    output ← run_with_timeout definition validated_input
    metadata ← finish definition validated_input.tenant_id attempts start retried
    pure (output_result definition output metadata (can_execute_without_approval definition))

  -- The result of a call that failed with the text.
  unfoldable pub give_up :
      ToolDefinition W → Option String → ℕ → Start → Bool → String → Exec W ToolError ToolResult
  unfolding finish
  give_up definition tenant_id attempts start retried error = do
    metadata ← finish definition tenant_id attempts start retried
    pure (failed_result definition.name error metadata)

  -- The `except` clauses.
  unfoldable pub on_error :
      ToolDefinition W → ToolInput → ℕ → Start → Bool → ToolError → Exec W ToolError Attempt
  unfolding give_up
  on_error definition validated_input attempts start retried e =
      if is_retryable e && leb attempts definition.retry_count
      then pure retry
      else give_up definition validated_input.tenant_id attempts start retried (failure_text e)
        >>= λ result. pure (returned result)

  -- One round of the loop: the `try` block and what catches its exceptions.
  unfoldable pub caught :
      ToolDefinition W
      → ToolInput
      → ℕ
      → Start
      → Bool
      → Result ToolError ToolResult
      → Exec W ToolError Attempt
  unfolding on_error
  caught definition validated_input attempts start retried (ok result) = pure (returned result)
  caught definition validated_input attempts start retried (raised e) =
      on_error definition validated_input attempts start retried e

  unfoldable pub attempt :
      ToolDefinition W → ToolInput → ℕ → Start → Bool → Exec W ToolError Attempt
  unfolding try_handler caught
  attempt definition validated_input attempts start retried w =
      let (r, w') = try_handler definition validated_input attempts start retried w in
      caught definition validated_input attempts start retried r w'

  -- The `while` loop and what follows it. `none` when the fuel was too little.
  unfoldable pub loop :
      ℕ
      → ToolDefinition W
      → ToolInput
      → ℕ
      → Start
      → Bool
      → W
      → Option (Result ToolError ToolResult × W)
  unfolding attempt give_up
  loop zero definition validated_input attempts start retried w = none
  loop (suc fuel) definition validated_input attempts start retried w =
      let (r, w') = attempt definition validated_input (suc attempts) start retried w in
      let again = loop fuel definition validated_input (suc attempts) start true w' in
      if leb attempts definition.retry_count
      then elim r [
        | raised e ↦ some (raised e, w')
        | ok a ↦ elim a [ returned result ↦ some (ok result, w') | retry ↦ again ]
      ]
      else some (
          give_up definition validated_input.tenant_id attempts start retried
            "Tool execution exhausted retries." w)

  -- `except ValidationError` around the schema.
  unfoldable pub invalid :
      ToolDefinition W → ToolCall → Start → String → Exec W ToolError ToolResult
  unfolding finish
  invalid definition tool_call start text = do
    completed_at ← clock.utc_now
    duration_ms ← clock.milliseconds_since start.started_clock
    tenant_id ← lift (tenant_field (lookup "tenant_id" tool_call.arguments))
    metadata ←
        lift (build_metadata definition tenant_id 1 start.started_at completed_at duration_ms false)
    pure (failed_result tool_call.name ("Invalid tool arguments: " <> text) metadata)

  -- From the validation on.
  unfoldable pub validated :
      ToolDefinition W
      → ToolCall
      → Start
      → Result String ToolInput
      → W
      → Option (Result ToolError ToolResult × W)
  unfolding invalid loop
  validated definition tool_call start (raised text) w =
      some (invalid definition tool_call start text w)
  validated definition tool_call start (ok validated_input) w =
      loop (suc definition.retry_count) definition validated_input 0 start false w

  -- The two readings at the start.
  unfoldable pub begin : Exec W ToolError Start
  begin = do
    started_at ← clock.utc_now
    started_clock ← clock.perf_counter
    pure (record { started_at = started_at; started_clock = started_clock })

  unfoldable pub run_definition :
      ToolDefinition W → ToolCall → W → Option (Result ToolError ToolResult × W)
  unfolding begin validated
  run_definition definition tool_call w =
      let (r, w') = begin w in
      elim r [
        | raised e ↦ some (raised e, w')
        | ok start ↦
            validated definition tool_call start (definition.input_schema tool_call.arguments) w'
      ]

  -- The call of the definition that was found, or the `KeyError`.
  unfoldable pub looked_up :
      Result ToolError (ToolDefinition W) → ToolCall → W → Option (Result ToolError ToolResult × W)
  unfolding run_definition
  looked_up (raised e) tool_call w = some (raised e, w)
  looked_up (ok definition) tool_call w = run_definition definition tool_call w

  -- `execute`
  unfoldable pub execute :
      Dict String (ToolDefinition W) → ToolCall → W → Option (Result ToolError ToolResult × W)
  unfolding looked_up
  execute definitions tool_call w = looked_up (get tool_call.name definitions) tool_call w
