-- ===== src/Codec.antt =====
-- The transforms of benchmark/tools/fbcodec-bench/src: lossless and lossy steps before a frame is
-- compressed, and the keyframe protocol above them.
pub mod Pixel
pub mod Rle
pub mod Quant
pub mod Words
pub mod Lz4
pub mod Policy
pub mod Temporal
pub mod Predict
