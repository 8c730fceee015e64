-- ===== src/Config.antt =====
-- firemex/config.py: the site configuration (cameras, contacts, alerting, detection tuning), its
-- validation, and the questions that the pipeline asks of it.
pub mod Types
pub mod Confirm
pub mod Site
pub mod Stored
pub mod Night
