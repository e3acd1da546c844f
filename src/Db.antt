-- ===== src/Db.antt =====
-- packages/db: the enums, the rows of the tables and the repositories. The session of the database
-- library is a parameter.
pub mod Enums
pub mod Session
pub mod Runs
pub mod Approvals
pub mod ToolInvocations
pub mod Evals
pub mod Stores
