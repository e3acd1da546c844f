-- ===== src/App/Demo/Execution.antt =====
-- apps/api/app/demo.py: the execution of the planned tools stops at the first one that requires
-- approval.
use governed_agent_platform.Prelude.{
  ℕ, suc, map, take, length, ap, String, ◌≡◌, refl, sym, ◌∙◌, Bool, true, false, Option, List, [],
  ◌∷◌, ◌++◌, append-nil, append_assoc, if◌then◌else◌, Payload, Uuid,
}
use governed_agent_platform.Prelude.Exec.{Result, ok, raised, Exec, pure, ◌>>=◌, continue}
use governed_agent_platform.Orchestrator.Models.{
  ToolCall, ToolExecutionRecord, ToolExecutionResult, RunContext,
}
use governed_agent_platform.Tools.Schemas.{ToolError}
use governed_agent_platform.Tools.Schemas
use governed_agent_platform.App.Demo.Tools.{
  with_output, execution_record, stopped_at, new_id, run_planned, execute_tools,
}

-- The records of the planned tools, one for each from the first on. The first record that requires
-- approval is the last one, and the flag says that there is one; without it every tool has one.
abbrev pub Ran : List ToolCall → List ToolExecutionRecord → Bool → Type 0
Ran [] [] gated = gated ≡ false
Ran (t ∷ ts) (r ∷ rs) gated =
    (r.tool_name ≡ t.name)
    × elim r.requires_approval [ true ↦ (rs ≡ []) × (gated ≡ true) | false ↦ Ran ts rs gated ]
Ran ts rs gated = ⊥

-- The outputs that the records give, after the ones that there are.
abbrev pub outputs_from : List Payload → List ToolExecutionRecord → List Payload
outputs_from outputs [] = outputs
outputs_from outputs (r ∷ rs) = outputs_from (with_output outputs r.output) rs

-- The call that a planned tool is executed by.
abbrev pub call_of : Option String → ToolCall → Schemas.ToolCall
call_of requested_by t = record {
  name = t.name;
  arguments = t.arguments;
  requested_by = requested_by;
}

-- The calls of the first tools.
abbrev pub calls_of : Option String → ℕ → List ToolCall → List Schemas.ToolCall
calls_of requested_by n planned = map (call_of requested_by) (take n planned)

-- What an execution from the world `w` answers, from the records so far on, and the calls that it
-- adds to a log of the calls of the executor.
abbrev pub Executed :
    {W : Type 0}
    → (W → List Schemas.ToolCall)
    → Option String
    → List ToolCall
    → List Payload
    → List ToolExecutionRecord
    → W
    → Result ToolError ToolExecutionResult × W
    → Type 0
Executed log requested_by planned outputs records w (raised e, v) =
    (n : ℕ) × (log v ≡ log w ++ calls_of requested_by n planned)
Executed log requested_by planned outputs records w (ok x, v) =
    (rs : List ToolExecutionRecord) × ((x.tool_records ≡ records ++ rs)
      × ((x.outputs ≡ outputs_from outputs rs)
          × (Ran planned rs x.requires_approval
              × (log v ≡ log w ++ calls_of requested_by (length rs) planned))))

module _ {W : Type 0} (execute : Schemas.ToolCall → Exec W ToolError Schemas.ToolResult)
    (uuid4 : W → Uuid × W) (log : W → List Schemas.ToolCall)
    (logs : (call : Schemas.ToolCall) (w : W) → log (execute call w).1 ≡ log w ++ call ∷ [])
    (keeps : (w : W) → log (uuid4 w).1 ≡ log w) where
  module _ (requested_by : Option String) where
    -- The log of an execution that goes on.
    longer :
        (t : ToolCall) (ts : List ToolCall) (n : ℕ) (u v w : W)
        → log u ≡ log w ++ call_of requested_by t ∷ []
        → log v ≡ log u ++ calls_of requested_by n ts
        → log v ≡ log w ++ calls_of requested_by (suc n) (t ∷ ts)
    longer t ts n u v w first rest =
        rest
        ∙ ap (λ xs. xs ++ calls_of requested_by n ts) first
        ∙ append_assoc (log w) (call_of requested_by t ∷ []) (calls_of requested_by n ts)

    -- An execution that goes on after a tool that needs no approval.
    later :
        (t : ToolCall) (ts : List ToolCall) (outputs : List Payload)
        (records : List ToolExecutionRecord) (r : ToolExecutionRecord) (w u : W)
        (x : Result ToolError ToolExecutionResult × W)
        → r.tool_name ≡ t.name
        → r.requires_approval ≡ false
        → log u ≡ log w ++ call_of requested_by t ∷ []
        → Executed log requested_by ts (with_output outputs r.output) (records ++ r ∷ []) u x
        → Executed log requested_by (t ∷ ts) outputs records w x
    later t ts outputs records r w u (raised e, v) named free first (n, logged) =
        (suc n, longer t ts n u v w first logged)
    later t ts outputs records r w u (ok x, v) named free first
          (rs, (recorded, (given, (ran, logged)))) =
        (
          r ∷ rs,
          (
            recorded ∙ append_assoc records (r ∷ []) rs,
            (given, ((named, rw free ran), longer t ts (length rs) u v w first logged)),
          ),
        )

    run_planned-Executed :
        (planned : List ToolCall) (outputs : List Payload) (records : List ToolExecutionRecord)
        (w : W)
        → Executed log requested_by planned outputs records w
            (run_planned execute uuid4 requested_by planned outputs records w)
    unfolding run_planned
    run_planned-Executed [] outputs records w =
        ([], (sym (append-nil records), (refl, (refl, sym (append-nil (log w))))))
    run_planned-Executed (t ∷ ts) outputs records w =
        executed (λ o rs v. run_planned-Executed ts o rs v) (execute (call_of requested_by t) w)
          (logs (call_of requested_by t) w)
      where
        ended :
            ((o : List Payload) (rs : List ToolExecutionRecord) (v : W)
              → Executed log requested_by ts o rs v
                  (run_planned execute uuid4 requested_by ts o rs v))
            → (result : Schemas.ToolResult) (id : Uuid) (v : W) (b : Bool)
            → result.requires_approval ≡ b
            → log v ≡ log w ++ call_of requested_by t ∷ []
            → Executed log requested_by (t ∷ ts) outputs records w (
                (if b
                    then pure (
                        stopped_at t result
                          (with_output outputs result.output)
                          (records ++ execution_record t id result ∷ []))
                    else run_planned execute uuid4 requested_by ts
                        (with_output outputs result.output)
                        (records ++ execution_record t id result ∷ []))
                  v)
        ended rest result id v true gated logged = (
          execution_record t id result ∷ [],
          (refl, (refl, ((refl, rw gated (refl, refl)), logged))),
        )
        ended rest result id v false free logged =
            later t ts outputs records (execution_record t id result) w v _ refl free logged
              (rest _ _ v)

        executed :
            ((o : List Payload) (rs : List ToolExecutionRecord) (v : W)
              → Executed log requested_by ts o rs v
                  (run_planned execute uuid4 requested_by ts o rs v))
            → (m : Result ToolError Schemas.ToolResult × W)
            → log m.1 ≡ log w ++ call_of requested_by t ∷ []
            → Executed log requested_by (t ∷ ts) outputs records w (
                continue m.0
                  (λ result. new_id execute uuid4 >>= λ id.
                    if result.requires_approval
                    then pure (
                        stopped_at t result
                          (with_output outputs result.output)
                          (records ++ execution_record t id result ∷ []))
                    else run_planned execute uuid4 requested_by ts
                        (with_output outputs result.output)
                        (records ++ execution_record t id result ∷ []))
                  m.1)
        executed rest (raised e, v) logged = (1, logged)
        executed rest (ok result, v) logged =
            ended rest result (uuid4 v).0 (uuid4 v).1 result.requires_approval refl
              (keeps v ∙ logged)

  -- The demo executes the planned tools in their order and stops at the first one that requires
  -- approval: the result has a record for each tool up to that one, or for all of them, it requires
  -- approval just where the last record does, its outputs are those of the records, and the calls of
  -- the executor are those of the recorded tools, in order, and no other. Where a tool raises, the
  -- calls are those of some first tools of the plan. `log` stands for any log in the world that
  -- each call of the executor extends by itself and `uuid4` keeps.
  pub execute_tools-Executed :
      (context : RunContext) (w : W)
      → Executed log context.task.requested_by context.planned_tools [] [] w
          (execute_tools execute uuid4 context w)
  unfolding execute_tools
  execute_tools-Executed context w =
      run_planned-Executed context.task.requested_by context.planned_tools [] [] w
