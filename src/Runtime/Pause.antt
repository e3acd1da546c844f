-- ===== src/Runtime/Pause.antt =====
-- runtime/engine.py as the runtime hooks of orchestrator/engine.py: a run that the engine pauses is
-- found again by its approval.
use governed_agent_platform.Prelude.{
  ℕ, zero, suc, ◌≤◌, ◌≡◌, refl, Bool, true, false, Option, none, some, id_eq, if◌then◌else◌, Uuid,
  Payload, String, arith, Option-cases, inl, inr, eq_self, ◌∙◌, ap, ◌≢◌, sym, subst,
}
use governed_agent_platform.Prelude.Exec.{Result, ok, raised, continue}
use governed_agent_platform.Prelude.Dict.{lookup-insert_self}
use governed_agent_platform.Orchestrator.Errors.{Error, message}
use governed_agent_platform.Orchestrator.Models.{
  new_context, completed, waiting_for_approval, in_progress, RunStep, classify, retrieve_context,
  decide_tools, execute_tools, request_approval_if_needed, generate_response, complete, AgentTask,
  RunContext, ToolExecutionResult,
}
use governed_agent_platform.Orchestrator.StateMachine.{transition_state, next_step}
use governed_agent_platform.Orchestrator.Interfaces.{Collaborators, RuntimeResumeHooks}
use governed_agent_platform.Orchestrator.Engine.State.{Machine, is_waiting}
use governed_agent_platform.Orchestrator.Engine.Methods.{
  open_request, hand_over, ask_approval, fail_run,
}
use governed_agent_platform.Orchestrator.Engine.Turns.{
  Flow, again, finished, turn, pause_or_again, settle_by, settle_tools,
}
use governed_agent_platform.Orchestrator.Engine.{
  Outcome, begin, iterate, loop, rescue, execute, max_turns, start_run,
}
use governed_agent_platform.Orchestrator.Engine.Termination.{
  turns_left, turns_left-le, is_open, Looped, loop-Looped, iterate-Turned,
}
use governed_agent_platform.Orchestrator.Engine.Lifecycle.{begin_lem}
use governed_agent_platform.Runtime.{
  InMemoryRuntimeController, store_waiting_context, on_waiting_for_approval, on_run_resumed,
  on_run_completed, get_waiting_context, get_run_id_for_approval,
}
use governed_agent_platform.Runtime.Views.{store_waiting_context_views}

-- Where the controller stands in the world of the collaborators.
pub record Place (W : Type 0) : Type 0 where
  pub get : W → InMemoryRuntimeController
  pub set : InMemoryRuntimeController → W → W
  pub get-set : (r : InMemoryRuntimeController) (w : W) → get (set r w) ≡ r

module _ {W : Type 0} (p : Place W) where
  -- The controller as `RuntimeResumeHooks`.
  abbrev pub runtime_hooks : RuntimeResumeHooks W
  runtime_hooks = record {
    store_waiting_context = λ x w. (ok tt, p.set (store_waiting_context x (p.get w)) w);
    on_waiting_for_approval = λ i a w. (ok tt, p.set (on_waiting_for_approval i a (p.get w)) w);
    on_run_resumed = λ i w. (ok tt, p.set (on_run_resumed i (p.get w)) w);
    on_run_completed = λ i s w. (ok tt, p.set (on_run_completed i s (p.get w)) w);
  }

  abbrev pub with_runtime : Collaborators W → Collaborators W
  with_runtime c = record c { runtime_hooks = runtime_hooks }

  abbrev pub FoundBy : Option Uuid → Machine W → Type 0
  FoundBy none m = ⊥
  FoundBy (some a) m =
      (get_run_id_for_approval a (p.get m.world) ≡ some m.context.task.run_id)
      × (get_waiting_context m.context.task.run_id (p.get m.world) ≡ some m.context)

  -- The run has an approval request, which leads to the run, and the run leads to its context.
  abbrev pub IsFound : Machine W → Type 0
  IsFound m = FoundBy m.context.approval_request_id m

  found_after :
      (x : RunContext) (a : Uuid) (r : InMemoryRuntimeController)
      → x.approval_request_id ≡ some a
      → (get_run_id_for_approval a
            (on_waiting_for_approval x.task.run_id a (store_waiting_context x r))
          ≡ some x.task.run_id)
        × (get_waiting_context x.task.run_id
              (on_waiting_for_approval x.task.run_id a (store_waiting_context x r))
            ≡ some x)
  unfolding on_waiting_for_approval get_waiting_context get_run_id_for_approval
  found_after x a r given = (
    lookup-insert_self a x.task.run_id _,
    (store_waiting_context_views x a r given).0 x.task.run_id
        ∙ ap (λ b. if b then some x else get_waiting_context x.task.run_id r)
            (eq_self x.task.run_id),
  )

  module _ (c : Collaborators W) where
    hand_over-IsFound :
        (a : Uuid) (m : Machine W)
        → m.context.approval_request_id ≡ some a
        → IsFound (hand_over (with_runtime c) a m).1
    unfolding hand_over
    hand_over-IsFound a m given =
        subst (λ o. FoundBy o (hand_over (with_runtime c) a m).1) (sym given)
          (simp p.get-set (found_after m.context a (p.get m.world) given))

    open_request_names :
        (q : Option String) (v : Option Payload) (m : Machine W) (a : Uuid)
        → (open_request (with_runtime c) q v m).0 ≡ ok a
        → (open_request (with_runtime c) q v m).1.context.approval_request_id ≡ some a
    unfolding open_request transition_state
    open_request_names q v m a h = ground arith

    handed_over :
        (r : Result Error Uuid) (m : Machine W)
        → ((a : Uuid) → r ≡ ok a → m.context.approval_request_id ≡ some a)
        → let (q, m') = continue r (hand_over (with_runtime c)) m in q ≡ ok tt → IsFound m'
    handed_over (ok a) m names h = hand_over-IsFound a m (names a refl)
    handed_over (raised e) m names h = cc

    ask_approval-IsFound :
        (q : Option String) (v : Option Payload) (m : Machine W)
        → (ask_approval (with_runtime c) q v m).0 ≡ ok tt
        → IsFound (ask_approval (with_runtime c) q v m).1
    unfolding ask_approval
    ask_approval-IsFound q v m =
        handed_over (open_request (with_runtime c) q v m).0 (open_request (with_runtime c) q v m).1
          (open_request_names q v m)

    -- How a turn and the loop end, as to the waiting run.
    abbrev FoundTurn : Result Error Flow × Machine W → Type 0
    FoundTurn (ok again, m) = Unit
    FoundTurn (ok finished, m) = m.context.state ≡ waiting_for_approval → IsFound m
    FoundTurn (raised e, m) = Unit

    abbrev pub FoundOutcome : Outcome W → Type 0
    FoundOutcome none = ⊥
    FoundOutcome (some (ok _, m)) = m.context.state ≡ waiting_for_approval → IsFound m
    FoundOutcome (some (raised e, m)) = Unit

    paused :
        (r : Result Error Unit) (m : Machine W)
        → (r ≡ ok tt → IsFound m)
        → FoundTurn (continue r (λ _. pause_or_again (with_runtime c)) m)
    unfolding pause_or_again
    paused (ok tt) m found =
        elim (is_waiting m.context.state)
          as (λ b. FoundTurn ((elim b [ true ↦ (ok finished, m) | false ↦ (ok again, m) ]))) [
            | true ↦ λ _. found refl
            | false ↦ tt
          ]
    paused (raised e) m found = tt

    settle_by-Found :
        (b : Bool) (result : ToolExecutionResult) (m : Machine W)
        → FoundTurn (settle_by (with_runtime c) b result m)
    unfolding settle_by
    settle_by-Found true result m =
        let m' : Machine W = record m {
          context = record m.context { current_step = some request_approval_if_needed };
        } in
        paused (ask_approval (with_runtime c) result.approval_reason result.approval_preview m').0
          (ask_approval (with_runtime c) result.approval_reason result.approval_preview m').1
          (ask_approval-IsFound result.approval_reason result.approval_preview m')
    settle_by-Found false result m = tt

    settle_tools-Found :
        (result : ToolExecutionResult) (m : Machine W)
        → FoundTurn (settle_tools (with_runtime c) result m)
    unfolding settle_tools
    settle_tools-Found result m = settle_by-Found result.requires_approval result m

    no_finish :
        (q : Result Error Flow) (m : Machine W)
        → (q ≡ ok finished → m.context.state ≡ completed)
        → FoundTurn (q, m)
    no_finish (ok again) m h = tt
    no_finish (ok finished) m h = λ waits. ground (arith, h refl)
    no_finish (raised e) m h = tt

    late_finish :
        (step : RunStep) (m : Machine W)
        → m.context.state ≡ in_progress
        → (step ≢ execute_tools) × (step ≢ request_approval_if_needed)
        → (turn (with_runtime c) step m).0 ≡ ok finished
        → (turn (with_runtime c) step m).1.context.state ≡ completed
    unfolding turn next_step transition_state
    late_finish classify m s n h = ground arith
    late_finish retrieve_context m s n h = ground arith
    late_finish decide_tools m s n h = ground arith
    late_finish execute_tools m s n h = absurd (n.0 refl)
    late_finish request_approval_if_needed m s n h = absurd (n.1 refl)
    late_finish generate_response m s n h = ground arith
    late_finish complete m s n h = ground arith

    turn-Found :
        (step : RunStep) (m : Machine W)
        → m.context.state ≡ in_progress
        → FoundTurn (turn (with_runtime c) step m)
    unfolding turn
    turn-Found execute_tools m s = grind (arith, settle_tools-Found)
    turn-Found request_approval_if_needed m s =
        paused (ask_approval (with_runtime c) (some "Approval required") none m).0
          (ask_approval (with_runtime c) (some "Approval required") none m).1
          (ask_approval-IsFound (some "Approval required") none m)
    turn-Found step m s = no_finish _ _ (late_finish step m s (ground arith))

    iterate-Found :
        (m : Machine W) → m.context.state ≡ in_progress → FoundTurn (iterate (with_runtime c) m)
    unfolding iterate next_step
    iterate-Found m s = elim (Option-cases m.context.current_step) [
      | inl first ↦ rw first (
          turn-Found classify
            (record m { context = record m.context { current_step = some classify } }) s)
      | inr (step, at) ↦
          rw at (
            turn-Found step (record m { context = record m.context { current_step = some step } })
              s)
    ]

    loop-Found :
        (fuel : ℕ) (m : Machine W)
        → m.context.state ≡ in_progress
        → turns_left m.context.current_step ≤ fuel
        → FoundOutcome (loop (with_runtime c) fuel m)
    unfolding loop
    loop-Found zero m h le = ground arith
    loop-Found (suc fuel) m h le = ground (
      arith,
      iterate-Found m h,
      iterate-Turned (with_runtime c) m h,
      loop-Found fuel (iterate (with_runtime c) m).1,
    )

    fail_run-Found :
        (reason : String) (m : Machine W)
        → is_open m.context.state ≡ true
        → FoundOutcome (some (fail_run (with_runtime c) reason m))
    unfolding fail_run transition_state
    fail_run-Found reason m h = ground arith

    rescue-Found :
        (n : ℕ) (o : Outcome W)
        → FoundOutcome o
        → Looped n o
        → FoundOutcome (rescue (with_runtime c) o)
    unfolding rescue
    rescue-Found n none f l = f
    rescue-Found n (some (ok _, m)) f l = f
    rescue-Found n (some (raised e, m)) f l = fail_run-Found (message e) m l

    entered-Found :
        (r : Result Error Unit) (m : Machine W)
        → m.context.state ≡ in_progress
        → FoundOutcome (
            rescue
              (with_runtime c)
              (elim r [ ok _ ↦ loop (with_runtime c) max_turns m | raised e ↦ some (raised e, m) ]))
    entered-Found (ok _) m s =
        let le = turns_left-le m.context.current_step in
        rescue-Found _ (loop (with_runtime c) max_turns m) (loop-Found max_turns m s le)
          (loop-Looped (with_runtime c) max_turns m s le)
    entered-Found (raised e) m s = rescue-Found 7 (some (raised e, m)) tt (ground arith)

    -- With the in-memory controller as the runtime, a run that `start_run` returns waiting has an
    -- approval request; the controller leads from the request to the run, and from the run to the
    -- very context that was returned.
    pub start_run-IsFound :
        (task : AgentTask) (w : W) → FoundOutcome (start_run (with_runtime c) task w)
    unfolding start_run execute
    start_run-IsFound task w =
        let m : Machine W = record { context = new_context task; world = w } in
        entered-Found (begin (with_runtime c) m).0 (begin (with_runtime c) m).1
          (begin_lem (with_runtime c) m (inl refl)).0
