-- ===== src/Tools.antt =====
-- packages/tools/src/tools: the tool calls of a run behind their guards. The definitions are in
-- Schemas (schemas.py, permissions.py, registry.py) and Executor (executor.py).
pub mod Schemas
pub mod Executor
pub mod Reports
pub mod Returns
pub mod Implementations
pub mod SearchDocs
pub mod Registry
