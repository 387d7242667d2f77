-- ===== src/Profile/Arithmetic.antt =====
-- The double-precision numbers and the regular expressions that crates/core/src/profile.rs uses.
-- Numbers are a type with the operations of `f64`. The regex crate compiles a pattern, or says
-- why it cannot.
use pdfv.Base.{ℕ, Bytes, Bool, Option, ◌⊎◌}
use pdfv.Int.{ℤ}

pub record Arithmetic : Type 1 where
  pub F64 : Type 0
  pub f64_eq : F64 → F64 → Bool
  pub f64_lt : F64 → F64 → Bool
  pub f64_le : F64 → F64 → Bool
  pub add : F64 → F64 → F64
  pub sub : F64 → F64 → F64
  pub mul : F64 → F64 → F64
  pub div : F64 → F64 → F64
  pub rem : F64 → F64 → F64
  pub f64_abs : F64 → F64
  pub fract : F64 → F64
  pub is_finite : F64 → Bool
  pub epsilon : F64
  -- `f64::from` of an `i32` or a `u32`
  pub from_int : ℤ → F64
  -- `format!("{value:.0}").parse::<i64>().ok()`
  pub integral : F64 → Option ℤ

pub record RegexEngine : Type 1 where
  pub Regex : Type 0
  pub build : Bytes → Bytes ⊎ Regex
  pub is_match : Regex → Bytes → Bool
  pub find : Regex → Bytes → Option ℕ
