-- ===== src/Orchestrator/Engine.antt =====
-- packages/orchestrator/src/orchestrator/engine.py: `OrchestratorEngine`, over any collaborators.
-- A method works on the run's context, which the engine changes in place, and on the world of the
-- collaborators. The loop of `_execute` takes fuel, a unit for each turn.
pub mod State
pub mod Methods
pub mod Turns
pub mod Termination
pub mod Lifecycle
pub mod Gate
pub mod Resume
pub mod Store
use governed_agent_platform.Prelude.{
  ℕ, zero, suc, Bool, true, false, Option, none, some, String, ◌<>◌,
}
use governed_agent_platform.Prelude.Exec.{Result, ok, raised, pure, raise, gets, lift, ◌>>=◌, ◌>>◌}
use governed_agent_platform.Tracing.{run_started, run_started_payload}
use governed_agent_platform.Orchestrator.Errors.{
  Error, approval_resolution_error, value_error, message,
}
use governed_agent_platform.Orchestrator.Models.{
  RunState, in_progress, waiting_for_approval, RunStep, generate_response, ApprovalDecision,
  approved, decision_of, decision_lower, AgentTask, RunContext, new_context,
}
use governed_agent_platform.Orchestrator.StateMachine.{next_step}
use governed_agent_platform.Orchestrator.Interfaces.{Collaborators, ApprovalView}
use governed_agent_platform.Orchestrator.Approval.{record_resolution}
use State.{Machine, Method, call, modify, is_pending, is_in_progress, is_waiting}
use Methods.{transition, cancel_run, fail_run}
use Turns.{Flow, again, finished, turn}

-- The end of a run of the loop: `none` when the fuel was too little, else what the method did.
abbrev pub Outcome : Type 0 → Type 0
Outcome W = Option (Result Error Unit × Machine W)

-- `context.current_step or self._state_machine.next_step(None)`
current_or_first : Option RunStep → Result Error RunStep
current_or_first none = next_step none
current_or_first (some step) = ok step

-- `ApprovalDecision(getattr(raw_decision, "value", raw_decision))`
parse_decision : String → Option ApprovalDecision → Result Error ApprovalDecision
parse_decision raw none = raised (value_error ("'" <> raw <> "' is not a valid ApprovalDecision"))
parse_decision raw (some decision) = ok decision

-- `getattr(approval_request, "decision_comment", None)`
comment_of : Option ApprovalView → Option String
comment_of none = none
comment_of (some request) = request.decision_comment

-- The turns that `execute` is given: one for each step and one more.
abbrev pub max_turns : ℕ
max_turns = 8

module _ {W : Type 0} (c : Collaborators W) where
  -- The body of the `while` loop.
  unfoldable pub iterate : Method W Flow
  unfolding current_or_first
  iterate = do
    current ← gets (λ m. m.context.current_step)
    step ← lift (current_or_first current)
    modify (λ x. record x { current_step = some step })
    turn c step

  unfoldable pub loop : ℕ → Machine W → Outcome W
  loop zero m = none
  loop (suc fuel) m = elim (is_in_progress m.context.state) [
    | true ↦
        let (r, m') = iterate m in
        elim r [
          | ok flow ↦ elim flow [ again ↦ loop fuel m' | finished ↦ some (ok tt, m') ]
          | raised e ↦ some (raised e, m')
        ]
    | false ↦ some (ok tt, m)
  ]

  -- The first statement of the `try` block.
  unfoldable pub begin : Method W Unit
  begin m = elim (is_pending m.context.state) [
    | true ↦
        transition c in_progress (some run_started)
          (some (run_started_payload m.context.task.workflow_key m.context.task.tenant_id)) none m
    | false ↦ (ok tt, m)
  ]

  -- The `except` clause: any exception fails the run.
  unfoldable pub rescue : Outcome W → Outcome W
  rescue none = none
  rescue (some (ok _, m)) = some (ok tt, m)
  rescue (some (raised e, m)) = some (fail_run c (message e) m)

  -- `_execute`
  unfoldable pub execute : ℕ → Machine W → Outcome W
  execute fuel m =
      let (r, m') = begin m in
      rescue (elim r [ ok _ ↦ loop fuel m' | raised e ↦ some (raised e, m') ])

  unfoldable pub start_run : AgentTask → W → Outcome W
  start_run task w = execute max_turns (record { context = new_context task; world = w })

  -- `self._extract_decision_comment(...)`, read for the resolution event.
  read_comment : ℕ → Method W (Option String)
  unfolding comment_of
  read_comment id = do
    request ← call (c.approval_store.get_approval_request id)
    pure (comment_of request)

  -- `if record_resolution_event: ...`
  unfoldable pub resolution_event : Bool → ℕ → ApprovalDecision → Method W Unit
  unfolding read_comment record_resolution
  resolution_event false id decision = pure tt
  resolution_event true id decision = do
    comment ← read_comment id
    run_id ← gets (λ m. m.context.task.run_id)
    call (record_resolution c.approval_store c.trace_recorder run_id id decision comment)

  -- The rest of `resume_after_approval` up to its call of `_execute`, by the decision: `finished`
  -- where the run has been canceled.
  unfoldable pub act_on : Bool → ℕ → ApprovalDecision → Method W Flow
  unfolding resolution_event
  act_on record_resolution_event id ApprovalDecision.pending =
      raise (approval_resolution_error "Approval request is still pending")
  act_on record_resolution_event id approved = do
    resolution_event record_resolution_event id approved
    transition c in_progress none none none
    run_id ← gets (λ m. m.context.task.run_id)
    call (c.runtime_hooks.on_run_resumed run_id)
    modify (λ x. record x { current_step = some generate_response })
    pure again
  act_on record_resolution_event id decision = do
    resolution_event record_resolution_event id decision
    cancel_run c ("Approval " <> decision_lower decision)
    pure finished

  -- From the reading of the decision on.
  resume_with : Bool → ℕ → Method W Flow
  unfolding parse_decision act_on
  resume_with record_resolution_event id = do
    raw ← call (c.approval_store.get_approval_decision id)
    decision ← lift (parse_decision raw (decision_of raw))
    act_on record_resolution_event id decision

  not_waiting : Method W Flow
  not_waiting = raise (approval_resolution_error "Run is not waiting on an approval request")

  -- `resume_after_approval` up to its call of `_execute`.
  unfoldable pub prepare_resume : Bool → Method W Flow
  unfolding resume_with not_waiting
  prepare_resume record_resolution_event m = elim (is_waiting m.context.state) [
    | false ↦ not_waiting m
    | true ↦ elim m.context.approval_request_id [
      | none ↦ not_waiting m
      | some id ↦ resume_with record_resolution_event id m
    ]
  ]

  -- What follows the preparation: `return self._execute(context)`, or the canceled run.
  unfoldable pub go_on : Result Error Flow → Machine W → Outcome W
  go_on (ok again) m = execute max_turns m
  go_on (ok finished) m = some (ok tt, m)
  go_on (raised e) m = some (raised e, m)

  unfoldable pub resume_after_approval : Bool → Machine W → Outcome W
  unfolding go_on
  resume_after_approval record_resolution_event m =
      let (r, m') = prepare_resume record_resolution_event m in go_on r m'
