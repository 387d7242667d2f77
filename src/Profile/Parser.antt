-- ===== src/Profile/Parser.antt =====
-- The parser of imported rule expressions in crates/core/src/profile.rs.
pub mod Outcome
pub mod Run
pub mod Meets
pub mod Strings
pub mod Lambda
pub mod Tokens
pub mod Builtins
pub mod Grammar
