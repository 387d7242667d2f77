-- ===== src/Filter.antt =====
-- Stream filters: crates/core/src/parser.rs, the implementations of `StreamDecoder`.
pub mod Output
pub mod Params
pub mod AsciiHex
pub mod RunLength
pub mod Ascii85
pub mod Predictor
pub mod Lzw
