-- ===== src/Notify.antt =====
-- firemex/notify: acknowledgements, alert cooldowns, and the escalation of one incident.
pub mod Acks
pub mod Cooldown
pub mod Dispatch
pub mod Records
