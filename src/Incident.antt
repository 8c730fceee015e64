-- ===== src/Incident.antt =====
-- firemex/incident: exclusion zones and the temporal confirmation of detections.
pub mod Zones
pub mod Types
pub mod Area
pub mod Rules
pub mod Engine
pub mod Fleet
