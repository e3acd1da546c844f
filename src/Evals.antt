-- ===== src/Evals.antt =====
-- packages/evals: the cases and their scores, the reports, and the tool that a case runs.
pub mod Scoring
pub mod Reports
pub mod Cases
pub mod Responses
pub mod Runner
