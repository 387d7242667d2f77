-- ===== src/Profile/Value.antt =====
-- `ModelValue` of crates/core/src/profile.rs, its derived equality, and the conversions that the
-- evaluator makes: `expect_bool`, `expect_number`, `expect_integral_i64`, `expect_shift_amount`,
-- `expect_non_negative_usize`, `usize_to_f64`, `i64_to_f64` and `values_equal`.
use pdfv.Base.{
  ℕ, Bytes, Bool, true, false, ◌&&◌, ◌||◌, not, none, some, List, [], ◌∷◌, ltb, ◌==◌, if◌then◌else◌,
}
use pdfv.Int.{ℤ, pos, negsuc}
use pdfv.Name.{bytes_eq}
use pdfv.Cos.{ObjectKey}
use pdfv.Profile.Failure.{Checked, ok, err, ◌>>=◌, mismatch, over_budget}
use pdfv.Profile.Arithmetic.{Arithmetic}

mutual
  pub data ModelValue (R : Type 0) : Type 0 where
    null : ModelValue R
    bool : Bool → ModelValue R
    number : R → ModelValue R
    string : Bytes → ModelValue R
    object_key : ObjectKey → ModelValue R
    list : ModelValues R → ModelValue R

  pub data ModelValues (R : Type 0) : Type 0 where
    nil : ModelValues R
    cons : ModelValue R → ModelValues R → ModelValues R

module _ {R : Type 0} where
  abbrev pub to_list : ModelValues R → List (ModelValue R)
  to_list nil = []
  to_list (cons v vs) = v ∷ to_list vs

  abbrev pub from_list : List (ModelValue R) → ModelValues R
  from_list [] = nil
  from_list (v ∷ vs) = cons v (from_list vs)

  unfoldable pub expect_bool : ModelValue R → Checked Bool
  expect_bool (bool value) = ok value
  expect_bool _ = mismatch "expected boolean"

  unfoldable pub expect_number : ModelValue R → Checked R
  expect_number (number value) = ok value
  expect_number _ = mismatch "expected number"

abbrev key_eq : ObjectKey → ObjectKey → Bool
key_eq a b = a.number == b.number && a.generation == b.generation

-- `value >= i32::MIN && value <= i32::MAX`
abbrev pub is_i32 : ℤ → Bool
is_i32 (pos n) = ltb n 2147483648
is_i32 (negsuc n) = ltb n 2147483648

module _ (arithmetic : Arithmetic) where
  open arithmetic use {
    F64, f64_eq, f64_lt, f64_le, sub, f64_abs, fract, is_finite, epsilon, from_int, integral,
  }

  -- The derived `==`, which compares numbers exactly.
  unfoldable mutual
    pub value_eq : ModelValue F64 → ModelValue F64 → Bool
    value_eq null null = true
    value_eq (bool a) (bool b) = if a then b else not b
    value_eq (number a) (number b) = f64_eq a b
    value_eq (string a) (string b) = bytes_eq a b
    value_eq (object_key a) (object_key b) = key_eq a b
    value_eq (list a) (list b) = all_eq a b
    value_eq _ _ = false

    pub all_eq : ModelValues F64 → ModelValues F64 → Bool
    all_eq nil nil = true
    all_eq (cons v vs) (cons w ws) = value_eq v w && all_eq vs ws
    all_eq _ _ = false

  -- Here numbers are equal when they are closer than the machine's epsilon.
  unfoldable pub values_equal : ModelValue F64 → ModelValue F64 → Bool
  unfolding value_eq all_eq
  values_equal (number left) (number right) = f64_lt (f64_abs (sub left right)) epsilon
  values_equal left right = value_eq left right

  unfoldable pub expect_integral_i64 : ModelValue F64 → Checked ℤ
  unfolding expect_number
  expect_integral_i64 v = do
    value ← expect_number v
    if not (is_finite value) || f64_lt epsilon (f64_abs (fract value))
        then mismatch "expected integral number"
        else if f64_lt value (from_int (negsuc 2147483647))
            || f64_lt (from_int (pos 2147483647)) value
        then mismatch "integer value outside supported range"
        else elim (integral value) [ none ↦ mismatch "invalid integral number" | some n ↦ ok n ]

  abbrev shift_amount : ℤ → Checked ℕ
  shift_amount (pos n) = if ltb n 64 then ok n else mismatch "invalid shift amount"
  shift_amount (negsuc n) = mismatch "invalid shift amount"

  unfoldable pub expect_shift_amount : ModelValue F64 → Checked ℕ
  unfolding expect_integral_i64
  expect_shift_amount v = expect_integral_i64 v >>= shift_amount

  abbrev non_negative : ℤ → Checked ℕ
  non_negative (pos n) = ok n
  non_negative (negsuc n) = mismatch "expected non-negative number"

  unfoldable pub expect_non_negative_usize : ModelValue F64 → Checked ℕ
  unfolding expect_integral_i64
  expect_non_negative_usize v = expect_integral_i64 v >>= non_negative

  unfoldable pub usize_to_f64 : ℕ → Checked F64
  usize_to_f64 value =
      if ltb value 4294967296
      then ok (from_int (pos value))
      else err (over_budget "collection_size")

  unfoldable pub i64_to_f64 : ℤ → Checked F64
  i64_to_f64 value = if is_i32 value then ok (from_int value) else err (over_budget "integer_value")
