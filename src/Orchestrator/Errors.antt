-- ===== src/Orchestrator/Errors.antt =====
-- packages/orchestrator/src/orchestrator/errors.py, and the other exceptions that reach the engine.
use governed_agent_platform.Prelude.{String}

-- An exception by its class, with its message. `other` is any exception of a collaborator.
pub data Error : Type 0 where
  invalid_state_transition_error : String → Error
  approval_resolution_error : String → Error
  value_error : String → Error
  other : String → Error

-- `str(error)`
abbrev pub message : Error → String
message (invalid_state_transition_error m) = m
message (approval_resolution_error m) = m
message (value_error m) = m
message (other m) = m
