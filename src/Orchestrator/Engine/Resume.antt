-- ===== src/Orchestrator/Engine/Resume.antt =====
-- engine.py: what a resumed run does and does not do.
use governed_agent_platform.Prelude.{
  ℕ, zero, suc, ◌≤◌, ◌≡◌, ◌≢◌, refl, Bool, true, false, Option, none, some, String, ◌<>◌, arith,
  Uuid, Option-cases, inl, inr, ap, ◌⊎◌, ◌∙◌, sym, subst,
}
use governed_agent_platform.Prelude.Exec.{Result, ok, raised, pure, ◌>>◌}
use governed_agent_platform.Orchestrator.Errors.{Error, approval_resolution_error}
use governed_agent_platform.Orchestrator.Models.{
  RunState, in_progress, waiting_for_approval, canceled, RunStep, generate_response, complete,
  RunContext, ApprovalDecision, rejected, expired, decision_of, decision_of-value, decision_value,
  decision_lower,
}
use governed_agent_platform.Orchestrator.StateMachine.{transition_state}
use governed_agent_platform.Orchestrator.Interfaces.{
  Collaborators, RetrievalService, ToolExecutor, ApprovalView,
}
use governed_agent_platform.Tracing.{EventPayload}
use governed_agent_platform.Orchestrator.Engine.State.{Machine}
use governed_agent_platform.Orchestrator.Engine.Turns.{Flow, again, finished, turn}
use governed_agent_platform.Orchestrator.Engine.Methods.{cancel_run, fail_run, transition}
use governed_agent_platform.Orchestrator.Engine.{
  resolution_event, Outcome, begin, iterate, loop, rescue, execute, max_turns, act_on,
  prepare_resume, go_on, resume_after_approval,
}
use governed_agent_platform.Orchestrator.Engine.Lifecycle.{Prepared, prepare_resume-Prepared}
use governed_agent_platform.Orchestrator.Engine.Termination.{turns_left, turns_from, iterate-Turned}

-- The same collaborators, but for the retrieval service and the tool executor.
abbrev pub with_tools :
    {W : Type 0} → Collaborators W → RetrievalService W → ToolExecutor W → Collaborators W
with_tools c r t = record c { retrieval_service = r; tool_executor = t }

execute-in_progress :
    {W : Type 0} (c : Collaborators W) (m : Machine W)
    → m.context.state ≡ in_progress
    → execute c max_turns m ≡ rescue c (loop c max_turns m)
unfolding execute begin
execute-in_progress c m h = ground arith

module _ {W : Type 0} (c : Collaborators W) (r : RetrievalService W) (t : ToolExecutor W) where
  late_turn :
      (step : RunStep) (m : Machine W)
      → turns_from step ≤ 2
      → turn (with_tools c r t) step m ≡ turn c step m
  unfolding turn
  late_turn generate_response m h = refl
  late_turn complete m h = refl
  late_turn _ m h = absurd (omega arith)

  late_iterate :
      (m : Machine W)
      → turns_left m.context.current_step ≤ 2
      → iterate (with_tools c r t) m ≡ iterate c m
  unfolding iterate
  late_iterate m h = elim (Option-cases m.context.current_step) [
    | inl first ↦ absurd (omega (arith, ap turns_left first))
    | inr (step, at) ↦ rw at (
        late_turn step (record m { context = record m.context { current_step = some step } })
          (rw at at h))
  ]

  late_loop :
      (fuel : ℕ) (m : Machine W)
      → turns_left m.context.current_step ≤ 2
      → loop (with_tools c r t) fuel m ≡ loop c fuel m
  unfolding loop
  late_loop zero m h = refl
  late_loop (suc fuel) m h =
      ground (arith, late_iterate m h, iterate-Turned c m, late_loop fuel (iterate c m).1)

  late_rescue : (o : Outcome W) → rescue (with_tools c r t) o ≡ rescue c o
  unfolding rescue fail_run
  late_rescue none = refl
  late_rescue (some (ok _, m)) = refl
  late_rescue (some (raised e, m)) = refl

  late_execute :
      (m : Machine W)
      → m.context.state ≡ in_progress
      → m.context.current_step ≡ some generate_response
      → execute (with_tools c r t) max_turns m ≡ execute c max_turns m
  late_execute m h at =
      execute-in_progress (with_tools c r t) m h
      ∙ late_rescue (loop (with_tools c r t) max_turns m)
      ∙ ap (rescue c) (late_loop max_turns m (omega (arith, ap turns_left at)))
      ∙ sym (execute-in_progress c m h)

  late_outcome :
      (q : Result Error Flow) (m : Machine W)
      → Prepared (q, m)
      → go_on (with_tools c r t) q m ≡ go_on c q m
  unfolding go_on
  late_outcome (ok again) m h = late_execute m h.0 h.1
  late_outcome (ok finished) m h = refl
  late_outcome (raised e) m h = refl

  -- A resumed run uses neither the tool executor nor the retrieval service: with any others in
  -- their places, `resume_after_approval` does and returns the same. In particular no tool is
  -- executed after the approval.
  pub resume_after_approval-with_tools :
      (b : Bool) (m : Machine W)
      → resume_after_approval (with_tools c r t) b m ≡ resume_after_approval c b m
  unfolding resume_after_approval prepare_resume transition cancel_run
  resume_after_approval-with_tools b m =
      late_outcome (prepare_resume c b m).0 (prepare_resume c b m).1 (prepare_resume-Prepared c b m)

-- How a run ends whose approval was denied for `reason`, from the context `x`: it returns canceled,
-- with nothing of the response, the tools or the step changed.
abbrev pub Denied : {W : Type 0} → String → RunContext → Outcome W → Type 0
Denied reason x none = ⊥
Denied reason x (some (ok _, m)) =
    (m.context.state ≡ canceled)
    × (m.context.failure_reason ≡ some reason)
    × (m.context.response_text ≡ x.response_text)
    × (m.context.tool_results ≡ x.tool_results)
    × (m.context.current_step ≡ x.current_step)
Denied reason x (some (raised e, m)) = ⊥

-- The bookkeeping of a cancellation does not fail: the store of runs, the recorder of events, the
-- hook for completed runs, and the reading of the request for its comment.
pub record KeepsBooks {W : Type 0} (c : Collaborators W) : Type 0 where
  pub status_kept :
      (id : Uuid) (status : String) (e : Option String) (w : W)
      → (c.run_store.update_run_status id status e w).0 ≡ ok tt
  pub event_kept :
      (id : Uuid) (event : String) (p : Option EventPayload) (w : W)
      → (c.trace_recorder.record_event id event p w).0 ≡ ok tt
  pub completion_kept :
      (id : Uuid) (state : RunState) (w : W)
      → (c.runtime_hooks.on_run_completed id state w).0 ≡ ok tt
  pub request_read :
      (id : Uuid) (w : W)
      → (a : Option ApprovalView) × ((c.approval_store.get_approval_request id w).0 ≡ ok a)

abbrev pub is_denial : ApprovalDecision → Bool
is_denial rejected = true
is_denial expired = true
is_denial _ = false

module _ {W : Type 0} (c : Collaborators W) (b : Bool) (books : KeepsBooks c) where
  -- The event of a resolution leaves the context alone.
  resolved_lem :
      (r : Bool) (id : Uuid) (d : ApprovalDecision) (m : Machine W)
      → ((resolution_event c r id d m).0 ≡ ok tt)
        × ((resolution_event c r id d m).1.context ≡ m.context)
  unfolding resolution_event
  resolved_lem false id d m = (refl, refl)
  resolved_lem true id d m =
      let (a, got) = books.request_read id m.world in grind (arith, got, books.event_kept)

  canceled_lem :
      (reason : String) (x : RunContext) (m : Machine W)
      → m.context ≡ x
      → x.state ≡ waiting_for_approval
      → Denied reason x (
          go_on c
            ((cancel_run c reason >> pure finished) m).0
            ((cancel_run c reason >> pure finished) m).1)
  unfolding cancel_run transition_state go_on
  canceled_lem reason x m same s =
      grind (arith, books.status_kept, books.event_kept, books.completion_kept)

  deny_lem :
      (id : Uuid) (d : ApprovalDecision) (m : Machine W)
      → is_denial d ≡ true
      → m.context.state ≡ waiting_for_approval
      → Denied
          ("Approval " <> decision_lower d)
          m.context
          (go_on c (act_on c b id d m).0 (act_on c b id d m).1)
  unfolding act_on
  deny_lem id rejected m h s =
      let (done, same) = resolved_lem b id rejected m in
      rw done (canceled_lem "Approval rejected" m.context _ same s)
  deny_lem id expired m h s =
      let (done, same) = resolved_lem b id expired m in
      rw done (canceled_lem "Approval expired" m.context _ same s)
  deny_lem id _ m h s = cc

  read_decision :
      (id : Uuid) (d : ApprovalDecision) (w : W) (m : Machine W)
      → m.context.state ≡ waiting_for_approval
      → m.context.approval_request_id ≡ some id
      → c.approval_store.get_approval_decision id m.world ≡ (ok (decision_value d), w)
      → prepare_resume c b m ≡ act_on c b id d (record m { world = w })
  unfolding prepare_resume
  read_decision id d w m s a e = ground (arith, decision_of-value d)

  -- A resume of a waiting run whose approval was rejected, or has expired, returns with the run
  -- canceled for that reason, and nothing of its response, its tool results or its step changed,
  -- where the bookkeeping does not fail.
  pub resume-Denied :
      (id : Uuid) (d : ApprovalDecision) (w : W) (m : Machine W)
      → is_denial d ≡ true
      → m.context.state ≡ waiting_for_approval
      → m.context.approval_request_id ≡ some id
      → c.approval_store.get_approval_decision id m.world ≡ (ok (decision_value d), w)
      → Denied ("Approval " <> decision_lower d) m.context (resume_after_approval c b m)
  unfolding resume_after_approval
  resume-Denied id d w m h s a e =
      subst
        (λ (p : Result Error Flow × Machine W).
          Denied ("Approval " <> decision_lower d) m.context (go_on c p.0 p.1))
        (sym (read_decision id d w m s a e)) (deny_lem id d (record m { world = w }) h s)

module _ {W : Type 0} (c : Collaborators W) (b : Bool) (m : Machine W) where
  -- A resume of a run that does not wait, or that has no approval request, raises and changes
  -- nothing.
  pub resume_unpaused :
      (m.context.state ≢ waiting_for_approval) ⊎ (m.context.approval_request_id ≡ none)
      → resume_after_approval c b m
        ≡ some (raised (approval_resolution_error "Run is not waiting on an approval request"), m)
  unfolding resume_after_approval prepare_resume
  resume_unpaused h = ground arith

  -- While the decision is pending, a resume raises and leaves the context as it is.
  pub resume_undecided :
      (id : Uuid) (w : W)
      → m.context.state ≡ waiting_for_approval
      → m.context.approval_request_id ≡ some id
      → c.approval_store.get_approval_decision id m.world ≡ (ok "PENDING", w)
      → resume_after_approval c b m
        ≡ some (
          raised (approval_resolution_error "Approval request is still pending"),
          record m { world = w },
        )
  unfolding resume_after_approval prepare_resume decision_of
  resume_undecided id w s a d = ground arith
