-- ===== src/Jabir.antt =====
-- The orchestrator's execution of a task, src/core/jabir.ts.
pub mod Job
pub mod Execution
