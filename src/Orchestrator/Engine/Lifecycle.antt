-- ===== src/Orchestrator/Engine/Lifecycle.antt =====
-- engine.py: the states in which `start_run` and `resume_after_approval` leave a run.
use governed_agent_platform.Prelude.{
  ℕ, ◌≤◌, ◌≡◌, refl, Bool, true, false, none, some, String, arith, Uuid, ◌⊎◌, inl, inr, subst,
}
use governed_agent_platform.Prelude.Exec.{Result, ok, raised}
use governed_agent_platform.Orchestrator.Errors.{Error, message}
use governed_agent_platform.Orchestrator.Models.{
  new_context, RunState, in_progress, waiting_for_approval, completed, failed, canceled,
  generate_response, ApprovalDecision, AgentTask,
}
use governed_agent_platform.Orchestrator.StateMachine.{transition_state}
use governed_agent_platform.Orchestrator.Interfaces.{Collaborators}
use governed_agent_platform.Orchestrator.Engine.State.{Machine, is_terminal}
use governed_agent_platform.Orchestrator.Engine.Methods.{fail_run, cancel_run, transition}
use governed_agent_platform.Orchestrator.Engine.{
  Outcome, begin, loop, rescue, execute, max_turns, start_run, act_on, prepare_resume, go_on,
  resume_after_approval,
}
use governed_agent_platform.Orchestrator.Engine.Turns.{Flow, again, finished}
use governed_agent_platform.Orchestrator.Engine.Termination.{
  turns_left, turns_left-le, is_open, Looped, loop-Looped,
}

-- The states in which the engine hands a run back.
abbrev pub is_settled : RunState → Bool
is_settled waiting_for_approval = true
is_settled completed = true
is_settled failed = true
is_settled _ = false

-- The states in which `_execute` is called.
abbrev pub IsEntry : RunState → Type 0
IsEntry state = (state ≡ RunState.pending) ⊎ (state ≡ in_progress)

module _ {W : Type 0} where
  -- A result, and in a settled state; or an exception from the bookkeeping of a failed run.
  abbrev pub Settles : Outcome W → Type 0
  Settles none = ⊥
  Settles (some (ok _, m)) = is_settled m.context.state ≡ true
  Settles (some (raised e, m)) = m.context.state ≡ failed

  -- The same for a run that had `n` turns to go: from the response on it does not wait again.
  abbrev pub Settled : ℕ → Outcome W → Type 0
  Settled n none = ⊥
  Settled n (some (ok _, m)) =
      (is_settled m.context.state ≡ true) × (n ≤ 2 → is_terminal m.context.state ≡ true)
  Settled n (some (raised e, m)) = m.context.state ≡ failed

  -- What `prepare_resume` leaves: a run to go on with from the response, or a canceled one.
  abbrev pub Prepared : Result Error Flow × Machine W → Type 0
  Prepared (ok again, m) =
      (m.context.state ≡ in_progress) × (m.context.current_step ≡ some generate_response)
  Prepared (ok finished, m) = m.context.state ≡ canceled
  Prepared (raised e, m) = Unit

  -- How a resumed run ends: by a result, in a final state.
  abbrev pub Ends : Outcome W → Type 0
  Ends none = ⊥
  Ends (some (ok _, m)) = is_terminal m.context.state ≡ true
  Ends (some (raised e, m)) = Unit

module _ {W : Type 0} (c : Collaborators W) where
  fail_run-Settled :
      (n : ℕ) (reason : String) (m : Machine W)
      → is_open m.context.state ≡ true
      → Settled n (some (fail_run c reason m))
  unfolding fail_run transition_state
  fail_run-Settled n reason m h = ground arith

  rescue-Settled : (n : ℕ) (o : Outcome W) → Looped n o → Settled n (rescue c o)
  unfolding rescue
  rescue-Settled n none h = h
  rescue-Settled n (some (ok x, m)) h = ground arith
  rescue-Settled n (some (raised e, m)) h = fail_run-Settled n (message e) m h

  entered-Settled :
      (r : Result Error Unit) (m : Machine W)
      → m.context.state ≡ in_progress
      → Settled
          (turns_left m.context.current_step)
          (rescue c (elim r [ ok _ ↦ loop c max_turns m | raised e ↦ some (raised e, m) ]))
  entered-Settled (ok _) m h =
      rescue-Settled _ (loop c max_turns m)
        (loop-Looped c max_turns m h (turns_left-le m.context.current_step))
  entered-Settled (raised e) m h = rescue-Settled _ (some (raised e, m)) (ground arith)

  pub begin_lem :
      (m : Machine W)
      → IsEntry m.context.state
      → ((begin c m).1.context.state ≡ in_progress)
        × ((begin c m).1.context.current_step ≡ m.context.current_step)
  unfolding begin transition transition_state
  begin_lem m h = ground arith

  pub execute-Settled :
      (m : Machine W)
      → IsEntry m.context.state
      → Settled (turns_left m.context.current_step) (execute c max_turns m)
  unfolding execute
  execute-Settled m h =
      let (moved, same) = begin_lem m h in
      subst (λ s. Settled (turns_left s) (execute c max_turns m)) same
        (entered-Settled (begin c m).0 (begin c m).1 moved)

  Settles-of : (n : ℕ) (o : Outcome W) → Settled n o → Settles o
  Settles-of n none h = h
  Settles-of n (some (ok _, m)) h = h.0
  Settles-of n (some (raised e, m)) h = h

  -- Whatever the collaborators return or raise, a started run ends within its turns. If
  -- `start_run` returns, the run waits for approval, is completed or has failed; if it raises, the
  -- run has failed.
  pub start_run-Settles : (task : AgentTask) (w : W) → Settles (start_run c task w)
  unfolding start_run
  start_run-Settles task w =
      Settles-of _ _ (execute-Settled (record { context = new_context task; world = w }) (inl refl))

  act_on-Prepared :
      (b : Bool) (id : Uuid) (d : ApprovalDecision) (m : Machine W)
      → m.context.state ≡ waiting_for_approval
      → Prepared (act_on c b id d m)
  unfolding act_on cancel_run transition transition_state
  act_on-Prepared true id ApprovalDecision.pending m h = tt
  act_on-Prepared _ id _ m h = ground arith

  pub prepare_resume-Prepared : (b : Bool) (m : Machine W) → Prepared (prepare_resume c b m)
  unfolding prepare_resume
  prepare_resume-Prepared b m = grind (arith, act_on-Prepared)

  resumed-Ends : (r : Result Error Flow) (m : Machine W) → Prepared (r, m) → Ends (go_on c r m)
  unfolding go_on
  resumed-Ends (ok again) m (moved, at) = ends_of (execute c max_turns m) (
      subst (λ s. Settled (turns_left s) (execute c max_turns m)) at
        (execute-Settled m (inr moved)))
    where
      ends_of : (o : Outcome W) → Settled 2 o → Ends o
      ends_of none h = h
      ends_of (some (ok _, m')) h = h.1 (omega arith)
      ends_of (some (raised e, m')) h = tt
  resumed-Ends (ok finished) m h = ground arith
  resumed-Ends (raised e) m h = tt

  -- Whatever the collaborators do, a resumed run ends within its turns, and if
  -- `resume_after_approval` returns, the run is completed, failed or canceled: it never waits for
  -- approval a second time.
  pub resume_after_approval-Ends : (b : Bool) (m : Machine W) → Ends (resume_after_approval c b m)
  unfolding resume_after_approval
  resume_after_approval-Ends b m =
      resumed-Ends (prepare_resume c b m).0 (prepare_resume c b m).1 (prepare_resume-Prepared b m)
