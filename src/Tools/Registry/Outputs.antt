-- ===== src/Tools/Registry/Outputs.antt =====
-- packages/tools/src/tools/executor.py: the output of a result is one of the handler's.
use governed_agent_platform.Prelude.{
  ℕ, zero, suc, ◌≡◌, String, Bool, true, false, Option, none, some, Payload, arith,
}
use governed_agent_platform.Prelude.Dict.{Dict}
use governed_agent_platform.Prelude.Exec.{Result, ok, raised, continue, pure, ◌>>=◌}
use governed_agent_platform.Tools.Schemas.{
  ToolCall, ToolExecutionMetadata, ToolResult, ToolExecutionOutput, ToolError, timeout_error,
  ToolInput, ToolDefinition, can_execute_without_approval, get,
}
use governed_agent_platform.Tools.Executor.{
  Clock, Start, Attempt, returned, retry, failure_text, own_result, output_result, run_with_timeout,
  finish, try_handler, give_up, on_error, caught, attempt, loop, invalid, validated, run_definition,
  looked_up, execute,
}

-- What holds of an output, if there is one.
abbrev pub IfSome : (Payload → Type 0) → Option Payload → Type 0
IfSome P none = Unit
IfSome P (some o) = P o

-- What holds of the output of a handler, or of a result, if there is one.
abbrev pub Gives : (Payload → Type 0) → Result ToolError ToolExecutionOutput → Type 0
Gives P (ok o) = IfSome P o.output
Gives P (raised e) = Unit

pub weaken_lem :
    (P Q : Payload → Type 0) (r : Result ToolError ToolExecutionOutput)
    → ((o : Payload) → P o → Q o)
    → Gives P r
    → Gives Q r
weaken_lem P Q (raised e) g h = tt
weaken_lem P Q (ok x) g h = go x.output h
  where
    go : (o : Option Payload) → IfSome P o → IfSome Q o
    go none k = tt
    go (some o) k = g o k

abbrev pub Shows : (Payload → Type 0) → Result ToolError ToolResult → Type 0
Shows P (ok r) = IfSome P r.output
Shows P (raised e) = Unit

-- The same of the result of a call, if it ended.
abbrev pub ShowsAll :
    {W : Type 0} → (Payload → Type 0) → Option (Result ToolError ToolResult × W) → Type 0
ShowsAll P none = Unit
ShowsAll P (some (r, w)) = Shows P r

module _ {W : Type 0} (clock : Clock W) (show : ℕ → String) (definition : ToolDefinition W)
    (P : Payload → Type 0) where
  own_result-Gives :
      (late : ToolError) (r : Result ToolError ToolExecutionOutput)
      → Gives P r
      → Gives P (own_result late r)
  own_result-Gives late (ok o) h = h
  own_result-Gives late (raised (timeout_error m)) h = tt
  own_result-Gives late (raised _) h = tt

  run_with_timeout-Gives :
      (i : ToolInput) (w : W)
      → Gives P (definition.handler i w).0.result
      → Gives P (run_with_timeout clock show definition i w).0
  unfolding run_with_timeout
  run_with_timeout-Gives i w h =
      ground (arith, own_result-Gives _ (definition.handler i w).0.result h)

  output_result-Shows :
      (o : ToolExecutionOutput) (m : ToolExecutionMetadata) (g : Bool)
      → IfSome P o.output
      → IfSome P (output_result clock show definition o m g).output
  output_result-Shows o m true h = h
  output_result-Shows o m false h = tt

  give_up-Shows :
      (t : Option String) (n : ℕ) (start : Start) (b : Bool) (e : String) (w : W)
      → Shows P (give_up clock show definition t n start b e w).0
  unfolding give_up
  give_up-Shows t n start b e w = ground arith

  try_handler-Shows :
      (i : ToolInput) (n : ℕ) (start : Start) (b : Bool) (w : W)
      → Gives P (definition.handler i w).0.result
      → Shows P (try_handler clock show definition i n start b w).0
  unfolding try_handler
  try_handler-Shows i n start b w h =
      finished (run_with_timeout clock show definition i w).0
        (run_with_timeout clock show definition i w).1 (run_with_timeout-Gives i w h)
    where
      written :
          (o : ToolExecutionOutput) (r : Result ToolError ToolExecutionMetadata) (v : W)
          → IfSome P o.output
          → Shows P
              (continue r
                (λ m. pure (
                  output_result clock show definition o m
                    (can_execute_without_approval definition)))
                v).0
      written o (ok m) v k = output_result-Shows o m (can_execute_without_approval definition) k
      written o (raised e) v k = tt

      finished :
          (r : Result ToolError ToolExecutionOutput) (v : W)
          → Gives P r
          → Shows P
              (continue r
                (λ o. finish clock show definition i.tenant_id n start b >>= λ m. pure (
                  output_result clock show definition o m
                    (can_execute_without_approval definition)))
                v).0
      finished (ok o) v k =
          written o (finish clock show definition i.tenant_id n start b v).0
            (finish clock show definition i.tenant_id n start b v).1 k
      finished (raised e) v k = tt

  -- The end of a round: a result with such an output, or another round.
  abbrev Ended : Result ToolError Attempt → Type 0
  Ended (ok (returned r)) = IfSome P r.output
  Ended (ok retry) = Unit
  Ended (raised e) = Unit

  on_error-Ended :
      (i : ToolInput) (n : ℕ) (start : Start) (b : Bool) (e : ToolError) (w : W)
      → Ended (on_error clock show definition i n start b e w).0
  unfolding on_error
  on_error-Ended i n start b e w =
      ground (arith, give_up-Shows i.tenant_id n start b (failure_text e) w)

  caught-Ended :
      (i : ToolInput) (n : ℕ) (start : Start) (b : Bool) (r : Result ToolError ToolResult) (w : W)
      → Shows P r
      → Ended (caught clock show definition i n start b r w).0
  unfolding caught
  caught-Ended i n start b (ok r) w h = h
  caught-Ended i n start b (raised e) w h = on_error-Ended i n start b e w

  attempt-Ended :
      (i : ToolInput) (n : ℕ) (start : Start) (b : Bool) (w : W)
      → Gives P (definition.handler i w).0.result
      → Ended (attempt clock show definition i n start b w).0
  unfolding attempt
  attempt-Ended i n start b w h =
      caught-Ended i n start b (try_handler clock show definition i n start b w).0
        (try_handler clock show definition i n start b w).1 (try_handler-Shows i n start b w h)

  loop-ShowsAll :
      (i : ToolInput)
      → ((v : W) → Gives P (definition.handler i v).0.result)
      → (fuel n : ℕ) (start : Start) (b : Bool) (w : W)
      → ShowsAll P (loop clock show fuel definition i n start b w)
  unfolding loop
  loop-ShowsAll i h zero n start b w = tt
  loop-ShowsAll i h (suc fuel) n start b w = ground (
    arith,
    attempt-Ended i (suc n) start b w (h w),
    give_up-Shows i.tenant_id n start b "Tool execution exhausted retries." w,
    loop-ShowsAll i h fuel (suc n) start true (attempt clock show definition i (suc n) start b w).1,
  )

  invalid-Shows :
      (call : ToolCall) (start : Start) (text : String) (w : W)
      → Shows P (invalid clock show definition call start text w).0
  unfolding invalid
  invalid-Shows call start text w = ground arith

  -- What holds of the outputs that a handler gives for the arguments, once they were validated.
  abbrev pub HandlerGives : Result String ToolInput → Type 0
  HandlerGives (ok i) = (v : W) → Gives P (definition.handler i v).0.result
  HandlerGives (raised e) = Unit

  validated-ShowsAll :
      (call : ToolCall) (start : Start) (r : Result String ToolInput) (w : W)
      → HandlerGives r
      → ShowsAll P (validated clock show definition call start r w)
  unfolding validated
  validated-ShowsAll call start (raised text) w h = invalid-Shows call start text w
  validated-ShowsAll call start (ok i) w h =
      loop-ShowsAll i h (suc definition.retry_count) 0 start false w

  run_definition-ShowsAll :
      (call : ToolCall) (w : W)
      → HandlerGives (definition.input_schema call.arguments)
      → ShowsAll P (run_definition clock show definition call w)
  unfolding run_definition
  run_definition-ShowsAll call w h =
      let rest : (start : Start) (v : W)
          → ShowsAll P (
              validated clock show definition call start (definition.input_schema call.arguments)
                v) =
        λ start v. validated-ShowsAll call start (definition.input_schema call.arguments) v h in
      grind (arith, rest)

  -- What holds of every output of a tool's handler on the validated arguments of a call holds of the
  -- output of the call's result.
  pub execute-ShowsAll :
      (definitions : Dict String (ToolDefinition W)) (call : ToolCall) (w : W)
      → get call.name definitions ≡ ok definition
      → HandlerGives (definition.input_schema call.arguments)
      → ShowsAll P (execute clock show definitions call w)
  unfolding execute looked_up
  execute-ShowsAll definitions call w found h = rw found (run_definition-ShowsAll call w h)
