-- ===== src/Plan.antt =====
-- src/runtime/resolved_plan.cpp: the plan that a config resolves to.
pub mod Types
pub mod Settings
pub mod Forwards
pub mod Resolve
pub mod Chain
pub mod Correct
pub mod Safety
pub mod Cycle
pub mod Names
