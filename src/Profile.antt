-- ===== src/Profile.antt =====
-- Rule expressions of crates/core/src/profile.rs, their evaluator and their parser.
pub mod Failure
pub mod Identifiers
pub mod Arithmetic
pub mod Rule
pub mod Value
pub mod Texts
pub mod Functions
pub mod Objects
pub mod Budget
pub mod Args
pub mod Eval
pub mod Meaning
pub mod Parser
