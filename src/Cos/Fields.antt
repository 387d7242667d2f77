-- ===== src/Cos/Fields.antt =====
-- Reading typed fields of a dictionary: the `..._from_dictionary` helpers of
-- crates/core/src/parser.rs. The key that an error message names stands in the message's text.
use Prim.Native.String.{String}
use pdfv.Base.{ℕ, Option, none, some, ltb, if◌then◌else◌}
use pdfv.Int.{ℤ, pos, negsuc}
use pdfv.Name.{codes}
use pdfv.Error.{ParseError, Result, ok, err, ◌>>=◌, malformed, text, u64_modulus}
use pdfv.Cos.{CosObject, integer, reference, Dictionary, ObjectKey, get}

-- `uN::try_from(i64).ok()`, where `modulus` is 2 to the width.
abbrev pub to_unsigned : ℕ → ℤ → Option ℕ
to_unsigned modulus (pos n) = if ltb n modulus then some n else none
to_unsigned modulus (negsuc n) = none

module _ {F : Type 0} where
  abbrev pub as_integer : Option (CosObject F) → Option ℤ
  as_integer (some (integer value)) = some value
  as_integer _ = none

  unfoldable pub integer_from_dictionary : Dictionary F → String → Option ℤ
  integer_from_dictionary d key = as_integer (get (codes key) d)

  unfoldable pub non_negative_u64_from_dictionary : Dictionary F → String → Result ℕ
  unfolding integer_from_dictionary
  non_negative_u64_from_dictionary d key = elim (integer_from_dictionary d key) [
    | none ↦ err (malformed (text "missing integer dictionary key"))
    | some value ↦ elim (to_unsigned u64_modulus value) [
      | none ↦ err (malformed (text "invalid non-negative dictionary key"))
      | some n ↦ ok n
    ]
  ]

  -- A `u64` is a `usize` here, so the second conversion cannot fail.
  unfoldable pub non_negative_usize_from_dictionary : Dictionary F → String → Result ℕ
  unfolding non_negative_u64_from_dictionary
  non_negative_usize_from_dictionary d key = do
    value ← non_negative_u64_from_dictionary d key
    if ltb value u64_modulus then ok value else err (malformed (text "invalid object stream key"))

  unfoldable pub optional_non_negative_offset : Dictionary F → String → Result (Option ℕ)
  unfolding integer_from_dictionary
  optional_non_negative_offset d key = elim (integer_from_dictionary d key) [
    | none ↦ ok none
    | some value ↦ elim (to_unsigned u64_modulus value) [
      | none ↦ err (malformed (text "invalid xref offset dictionary key"))
      | some n ↦ ok (some n)
    ]
  ]

  abbrev pub as_reference : Option (CosObject F) → Option ObjectKey
  as_reference (some (reference key)) = some key
  as_reference _ = none

  unfoldable pub object_ref_from_dictionary : Dictionary F → String → Option ObjectKey
  object_ref_from_dictionary d key = as_reference (get (codes key) d)

  unfoldable pub integer_value : Option (CosObject F) → ParseError → Result ℤ
  integer_value (some (integer value)) e = ok value
  integer_value _ e = err e
