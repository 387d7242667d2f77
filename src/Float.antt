-- ===== src/Float.antt =====
-- What the parser uses of `f64`: reading a decimal text, and the test for a finite value. The
-- values themselves stay abstract.
use pdfv.Base.{Bool, Bytes, Option}

pub record Float : Type 1 where
  pub F64 : Type 0
  pub parse_f64 : Bytes → Option F64
  pub is_finite : F64 → Bool
