-- ===== src/Tools/Reports.antt =====
-- packages/tools/src/tools/executor.py: what the result of a tool call reports, and that there is one.
use governed_agent_platform.Prelude.{
  ℕ, zero, suc, ◌+◌, ◌≤◌, ◌≡◌, refl, String, Bool, true, false, Option, none, some, ltb, string_eq,
  arith,
}
use governed_agent_platform.Prelude.Dict.{Dict}
use governed_agent_platform.Prelude.Exec.{Result, ok, raised}
use governed_agent_platform.Tools.Schemas.{
  ToolStatus, succeeded, ToolCall, ToolExecutionMetadata, ToolResult, ToolExecutionOutput,
  ToolError, ToolInput, ToolDefinition, can_execute_without_approval, get,
}
use governed_agent_platform.Tools.Executor.{
  Clock, Start, Attempt, returned, retry, failure_text, output_result, failed_result,
  build_metadata, finish, try_handler, give_up, on_error, caught, attempt, loop, invalid, validated,
  run_definition, looked_up, execute,
}

abbrev pub is_succeeded : ToolStatus → Bool
is_succeeded succeeded = true
is_succeeded _ = false

-- A tool that may not run without approval gives no output and does not succeed; another one does
-- not ask for approval.
abbrev pub Guarded : Bool → ToolResult → Type 0
Guarded true r = r.requires_approval ≡ false
Guarded false r = (r.output ≡ none) × (is_succeeded r.status ≡ false)

-- The attempts are counted from one up to the retries and one more, `retried` says whether there
-- was a second one, and the guard held.
abbrev pub IsReport : {W : Type 0} → ToolDefinition W → ToolResult → Type 0
IsReport definition r =
    (1 ≤ r.metadata.attempts)
    × ((r.metadata.attempts ≤ suc definition.retry_count)
        × ((r.metadata.retried ≡ ltb 1 r.metadata.attempts)
            × Guarded (can_execute_without_approval definition) r))

abbrev pub Reported :
    {W : Type 0}
    → Result ToolError (ToolDefinition W)
    → Option (Result ToolError ToolResult × W)
    → Type 0
Reported q none = ⊥
Reported q (some (raised e, w)) = Unit
Reported (ok definition) (some (ok r, w)) = IsReport definition r
Reported (raised e) (some (ok r, w)) = ⊥

module _ {W : Type 0} (clock : Clock W) (show : ℕ → String) (definition : ToolDefinition W) where
  -- The metadata that the call writes.
  abbrev Written : ℕ → Bool → Result ToolError ToolExecutionMetadata → Type 0
  Written n b (ok m) = (m.attempts ≡ n) × (m.retried ≡ b)
  Written n b (raised e) = Unit

  abbrev pub Told : ℕ → Bool → Result ToolError ToolResult → Type 0
  Told n b (ok r) =
      (r.metadata.attempts ≡ n)
      × ((r.metadata.retried ≡ b) × Guarded (can_execute_without_approval definition) r)
  Told n b (raised e) = Unit

  built :
      (t : Option String) (n s k d : ℕ) (b : Bool)
      → Written n b (build_metadata clock show definition t n s k d b)
  unfolding build_metadata
  built t n s k d b = ground arith

  finish-Written :
      (t : Option String) (n : ℕ) (start : Start) (b : Bool) (w : W)
      → Written n b (finish clock show definition t n start b w).0
  unfolding finish
  finish-Written t n start b w = grind (arith, built)

  output-Guarded :
      (o : ToolExecutionOutput) (m : ToolExecutionMetadata) (g : Bool)
      → Guarded g (output_result clock show definition o m g)
  output-Guarded o m true = refl
  output-Guarded o m false = (refl, refl)

  failed-Guarded :
      (n e : String) (m : ToolExecutionMetadata) (g : Bool)
      → Guarded g (failed_result clock show n e m)
  failed-Guarded n e m true = refl
  failed-Guarded n e m false = (refl, refl)

  give_up-Told :
      (t : Option String) (n : ℕ) (start : Start) (b : Bool) (e : String) (w : W)
      → Told n b (give_up clock show definition t n start b e w).0
  unfolding give_up
  give_up-Told t n start b e w = grind (arith, finish-Written, failed-Guarded)

  try_handler-Told :
      (i : ToolInput) (n : ℕ) (start : Start) (b : Bool) (w : W)
      → Told n b (try_handler clock show definition i n start b w).0
  unfolding try_handler
  try_handler-Told i n start b w = grind (arith, finish-Written, output-Guarded)

  -- The end of a round: a result that was told, or another round where one is left.
  abbrev pub Rounded : ℕ → Bool → Result ToolError Attempt → Type 0
  Rounded n b (ok (returned r)) = Told n b (ok r)
  Rounded n b (ok retry) = n ≤ definition.retry_count
  Rounded n b (raised e) = Unit

  on_error-Rounded :
      (i : ToolInput) (n : ℕ) (start : Start) (b : Bool) (e : ToolError) (w : W)
      → Rounded n b (on_error clock show definition i n start b e w).0
  unfolding on_error
  on_error-Rounded i n start b e w =
      ground (arith, give_up-Told i.tenant_id n start b (failure_text e) w)

  caught-Rounded :
      (i : ToolInput) (n : ℕ) (start : Start) (b : Bool) (r : Result ToolError ToolResult) (w : W)
      → Told n b r
      → Rounded n b (caught clock show definition i n start b r w).0
  unfolding caught
  caught-Rounded i n start b (ok r) w h = h
  caught-Rounded i n start b (raised e) w h = on_error-Rounded i n start b e w

  pub attempt-Rounded :
      (i : ToolInput) (n : ℕ) (start : Start) (b : Bool) (w : W)
      → Rounded n b (attempt clock show definition i n start b w).0
  unfolding attempt
  attempt-Rounded i n start b w =
      caught-Rounded i n start b (try_handler clock show definition i n start b w).0
        (try_handler clock show definition i n start b w).1 (try_handler-Told i n start b w)

  loop-Reported :
      (fuel : ℕ) (i : ToolInput) (n : ℕ) (start : Start) (b : Bool) (w : W)
      → n ≤ definition.retry_count
      → n + fuel ≡ suc definition.retry_count
      → b ≡ ltb 1 (suc n)
      → Reported (ok definition) (loop clock show fuel definition i n start b w)
  unfolding loop
  loop-Reported zero i n start b w le enough h = ground arith
  loop-Reported (suc fuel) i n start b w le enough h = ground (
    arith,
    attempt-Rounded i (suc n) start b w,
    loop-Reported fuel i (suc n) start true (attempt clock show definition i (suc n) start b w).1,
  )

  invalid-Reported :
      (call : ToolCall) (start : Start) (text : String) (w : W)
      → Reported (ok definition) (some (invalid clock show definition call start text w))
  unfolding invalid
  invalid-Reported call start text w = grind (arith, built, failed-Guarded)

  validated-Reported :
      (call : ToolCall) (start : Start) (r : Result String ToolInput) (w : W)
      → Reported (ok definition) (validated clock show definition call start r w)
  unfolding validated
  validated-Reported call start (raised text) w = invalid-Reported call start text w
  validated-Reported call start (ok i) w =
      loop-Reported (suc definition.retry_count) i 0 start false w (omega arith) (omega arith) refl

  run_definition-Reported :
      (call : ToolCall) (w : W)
      → Reported (ok definition) (run_definition clock show definition call w)
  unfolding run_definition
  run_definition-Reported call w = grind (arith, validated-Reported)

looked_up-Reported :
    {W : Type 0} (clock : Clock W) (show : ℕ → String) (r : Result ToolError (ToolDefinition W))
    (call : ToolCall) (w : W)
    → Reported r (looked_up clock show r call w)
unfolding looked_up
looked_up-Reported clock show (ok definition) call w =
    run_definition-Reported clock show definition call w
looked_up-Reported clock show (raised e) call w = tt

-- A call of a tool ends, and its result reports between one attempt and one more than the retries;
-- `retried` says whether there was a second one; a tool that may not execute without approval gives
-- no output and does not succeed, and another one does not ask for approval. A call of an unknown
-- tool has no result.
pub execute-Reported :
    {W : Type 0} (clock : Clock W) (show : ℕ → String)
    (definitions : Dict String (ToolDefinition W)) (call : ToolCall) (w : W)
    → Reported (get call.name definitions) (execute clock show definitions call w)
unfolding execute
execute-Reported clock show definitions call w =
    looked_up-Reported clock show (get call.name definitions) call w
