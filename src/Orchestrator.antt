-- ===== src/Orchestrator.antt =====
-- packages/orchestrator/src/orchestrator: the lifecycle of a run.
pub mod Models
pub mod Errors
pub mod StateMachine
pub mod Interfaces
pub mod Approval
pub mod Decisions
pub mod Engine
