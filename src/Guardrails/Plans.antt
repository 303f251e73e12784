-- ===== src/Guardrails/Plans.antt =====
-- `PlanEngine` of src/pyocd_debug_mcp/guardrails/plan_engine.py over the tool registry and the
-- permission store: plans with budgets, from the point where the schema of a call was checked.
-- Identifiers, times, file contents and the outcomes of callbacks come from outside.
pub mod State
pub mod Locking
pub mod Enforce
pub mod Submit
pub mod Close
pub mod Examples
