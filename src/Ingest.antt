-- ===== src/Ingest.antt =====
-- firemex/ingest: the pre-event buffer and the worker of a camera.
pub mod RingBuffer
pub mod State
pub mod Worker
