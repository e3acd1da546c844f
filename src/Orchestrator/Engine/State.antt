-- ===== src/Orchestrator/Engine/State.antt =====
-- engine.py: the state that the engine's methods work on, and tests on it.
use governed_agent_platform.Prelude.{Bool, true, false}
use governed_agent_platform.Prelude.Exec.{Exec, ok}
use governed_agent_platform.Orchestrator.Errors.{Error}
use governed_agent_platform.Orchestrator.Models.{
  RunState, in_progress, waiting_for_approval, completed, failed, canceled, RunContext,
}
use governed_agent_platform.Orchestrator.Interfaces.{Call}

pub record Machine (W : Type 0) : Type 0 where
  pub context : RunContext
  pub world : W

abbrev pub Method : Type 0 → Type 0 → Type 0
Method W A = Exec (Machine W) Error A

module _ {W : Type 0} where
  -- A call of a collaborator leaves the context alone.
  abbrev pub call : {A : Type 0} → Call W A → Method W A
  call f m = let (r, w) = f m.world in (r, record m { world = w })

  abbrev pub modify : (RunContext → RunContext) → Method W Unit
  modify f m = (ok tt, record m { context = f m.context })

abbrev pub is_pending : RunState → Bool
is_pending RunState.pending = true
is_pending _ = false

abbrev pub is_in_progress : RunState → Bool
is_in_progress in_progress = true
is_in_progress _ = false

abbrev pub is_waiting : RunState → Bool
is_waiting waiting_for_approval = true
is_waiting _ = false

-- `context.state in {COMPLETED, FAILED, CANCELED}`
abbrev pub is_terminal : RunState → Bool
is_terminal completed = true
is_terminal failed = true
is_terminal canceled = true
is_terminal _ = false
