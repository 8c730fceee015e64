-- ===== src/Detect.antt =====
-- firemex/detect: the geometry and the values that pass from the detector to the incident engine,
-- and the batched inference service.
pub mod Geometry
pub mod Frames
pub mod Labels
pub mod Service
pub mod Onnx
pub mod Regions
pub mod Stub
