-- ===== src/Imageproc.antt =====
-- internal/adapters/imageproc: output sizes and the transformation pipeline.
pub mod Size
pub mod Bounds
pub mod Pipeline
pub mod Purego
pub mod Vips
