-- ===== src/Notify/Dispatch.antt =====
-- firemex/notify/dispatcher.py: `AlertDispatcher`.
pub mod Types
pub mod Monad
pub mod Escalation
pub mod Table
