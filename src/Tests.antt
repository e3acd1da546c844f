-- ===== src/Tests.antt =====
-- Tests of the models on concrete inputs, and the theorems at inputs that meet their hypotheses.
mod Fakes
mod Engine
mod Runtime
mod Gateway
mod Providers
mod Tools
mod Retrieval
mod Implementations
mod Registry
mod App
mod Demo
mod Evals
mod Reports
