-- ===== src/Content.antt =====
-- Content streams: crates/core/src/content.rs.
pub mod Token
pub mod Tokenizer
pub mod InlineImage
pub mod Summary
pub mod Kind
pub mod Operands
pub mod Marks
pub mod Operators
pub mod Summarize
