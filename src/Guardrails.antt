-- ===== src/Guardrails.antt =====
-- guardrails/: structured permissions, plans and the validation gate.
pub mod Definitions
pub mod Permissions
pub mod Schema
pub mod Plans
pub mod Gate
pub mod FlashGate
pub mod RecoverGate
