-- ===== src/Capabilities.antt =====
-- capabilities/: the tiers of a board and the routes that each allows.
pub mod Matrix
pub mod Routing
pub mod Examples
