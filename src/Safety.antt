-- ===== src/Safety.antt =====
-- safety/regions.py: typed half-open memory regions and the containment of actions.
pub mod Ranges
pub mod Regions
pub mod Coverage
pub mod Map
pub mod Geometry
pub mod Document
pub mod Policy
pub mod Recovery
pub mod Examples
