-- ===== src/Detect/Onnx.antt =====
-- firemex/detect/onnx_backend.py: what the detector does to a frame before the network sees it, and to
-- what the network answers.
pub mod Suppression
pub mod Letterbox
pub mod Cells
pub mod Decode
pub mod Predict
