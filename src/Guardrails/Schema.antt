-- ===== src/Guardrails/Schema.antt =====
-- The schema of a plan call: the values, the fields, the envelope of `submit` and the form in which
-- action parameters are compared, of guardrails/plan_defs.py and guardrails/plan_engine.py.
pub mod Values
pub mod Fields
pub mod Canonical
pub mod Envelope
pub mod Examples
