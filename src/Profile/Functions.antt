-- ===== src/Profile/Functions.antt =====
-- The built-in functions and operators of crates/core/src/profile.rs on values: `collection_len`,
-- `contains_value`, `filter_values`, `slice_value`, `index_of_value`, `find_index_equals`,
-- `has_parse_fact`, and the strict operators of `eval_binary`.
use pdfv.Base.{
  ℕ, ◌+◌, ◌/◌, ◌^◌, ◌-◌, String, Bytes, Bool, true, false, ◌||◌, not, Option, none, some, List, [],
  ◌∷◌, ltb, ◌==◌, if◌then◌else◌, length, drop,
}
use Prim.Native.Nat.{bit_and}
use pdfv.Int.{ℤ, pos, negsuc}
use pdfv.Name.{codes, bytes_eq}
use pdfv.Fact.{ParseFact, header, encryption, stream_fact, stream_length}
use pdfv.Profile.Failure.{Checked, ok, ◌>>=◌, mismatch, bounded_text}
use pdfv.Profile.Arithmetic.{Arithmetic, RegexEngine}
use pdfv.Profile.Rule.{BinaryOp, BuiltinFunction}
use pdfv.Profile.Value.{
  ModelValue, bool, number, string, list, to_list, from_list, expect_number, values_equal,
  expect_integral_i64, expect_shift_amount, i64_to_f64,
}
use pdfv.Profile.Texts.{
  max_profile_string_bytes, find_text, contains_text, get_from, regex_is_match, index_or_minus_one,
}

-- `predicates.iter().any(|predicate| predicate.as_str() == text)`
unfoldable pub any_equals : Bytes → List Bytes → Bool
any_equals content [] = false
any_equals content (predicate ∷ predicates) =
    bytes_eq predicate content || any_equals content predicates

abbrev later : Option ℕ → Option ℕ
later none = none
later (some index) = some (index + 1)

-- `Iterator::position`
unfoldable pub position_of {ℓ} : {A : Type ℓ} → (A → Bool) → List A → Option ℕ
position_of test [] = none
position_of test (x ∷ xs) =
    let after = position_of test xs in if test x then some 0 else later after

-- `Iterator::any`
unfoldable pub any {ℓ} : {A : Type ℓ} → (A → Bool) → List A → Bool
any test [] = false
any test (x ∷ xs) = test x || any test xs

-- The 64-bit pattern of an `i64`, and the `i64` of a pattern.
abbrev to_word : ℤ → ℕ
to_word (pos n) = n
to_word (negsuc n) = 18446744073709551615 - n

abbrev of_word : ℕ → ℤ
of_word w = if ltb w 9223372036854775808 then pos w else negsuc (18446744073709551615 - w)

unfoldable pub i64_and : ℤ → ℤ → ℤ
i64_and a b = of_word (bit_and (to_word a) (to_word b))

-- The arithmetic shift of an `i64`, by fewer than 64 places.
unfoldable pub i64_shr : ℤ → ℕ → ℤ
i64_shr (pos n) shift = pos (n / 2 ^ shift)
i64_shr (negsuc n) shift = negsuc (n / 2 ^ shift)

-- One fact, as `has_parse_fact` tests it.
unfoldable pub fact_has_name : Bytes → ParseFact → Bool
unfolding bytes_eq
fact_has_name content (header offset version leading) = bytes_eq content (codes "header")
fact_has_name content (encryption true handler version revision algorithm decrypted) =
    bytes_eq content (codes "encryption")
fact_has_name content (stream_fact object (stream_length declared discovered)) =
    if bytes_eq content (codes "streamLengthMismatch") then not (declared == discovered) else false
fact_has_name _ _ = false

unfoldable pub has_parse_fact : List ParseFact → Bytes → Bool
unfolding any fact_has_name
has_parse_fact facts content = any (fact_has_name content) facts

-- `unwrap_or_default`
abbrev or_empty : Option Bytes → Bytes
or_empty none = []
or_empty (some value) = value

module _ {R : Type 0} where
  unfoldable pub collection_len : ModelValue R → Checked ℕ
  collection_len (string value) = ok (length value)
  collection_len (list values) = ok (length (to_list values))
  collection_len _ = mismatch "expected collection or string"

  unfoldable pub slice_value : ModelValue R → ℕ → Checked (ModelValue R)
  unfolding get_from bounded_text
  slice_value (list values) start = ok (list (from_list (drop start (to_list values))))
  slice_value (string value) start = do
    rest ← bounded_text (or_empty (get_from value start)) max_profile_string_bytes
    ok (string rest)
  slice_value _ start = mismatch "slice requires collection or string"

  abbrev text_among : List Bytes → ModelValue R → Bool
  text_among predicates (string content) = any_equals content predicates
  text_among predicates _ = false

  unfoldable pub find_index_equals : ModelValue R → List Bytes → Checked ℤ
  unfolding position_of any_equals
  find_index_equals (list values) predicates =
      ok (index_or_minus_one (position_of (text_among predicates) (to_list values)))
  find_index_equals _ predicates = mismatch "findIndex requires list"

module _ (engine : RegexEngine) where
  abbrev first_pattern : List Bytes → Bytes → Checked Bool
  first_pattern [] content = mismatch "filter requires predicate"
  first_pattern (pattern_text ∷ _) content = regex_is_match engine pattern_text content

  -- Whether a text is kept.
  unfoldable pub filter_keeps : BuiltinFunction → List Bytes → Bytes → Checked Bool
  unfolding any_equals
  filter_keeps BuiltinFunction.filter_equals predicates content = ok (any_equals content predicates)
  filter_keeps BuiltinFunction.filter_not_equals predicates content =
      ok (not (any_equals content predicates))
  filter_keeps BuiltinFunction.filter_matches predicates content = first_pattern predicates content
  filter_keeps BuiltinFunction.filter_not_matches predicates content = do
    matched ← first_pattern predicates content
    ok (not matched)
  filter_keeps _ predicates content = mismatch "unsupported filter"

module _ (engine : RegexEngine) {R : Type 0} where
  unfoldable pub filter_loop :
      BuiltinFunction → List Bytes → List (ModelValue R) → Checked (List (ModelValue R))
  filter_loop function predicates [] = ok []
  filter_loop function predicates (string content ∷ values) = do
    keep ← filter_keeps engine function predicates content
    kept ← filter_loop function predicates values
    ok (if keep then string content ∷ kept else kept)
  filter_loop function predicates (_ ∷ values) = mismatch "filter requires string list"

  unfoldable pub filter_values :
      ModelValue R → BuiltinFunction → List Bytes → Checked (List (ModelValue R))
  unfolding filter_loop filter_keeps
  filter_values (list values) function predicates = filter_loop function predicates (to_list values)
  filter_values _ function predicates = mismatch "filter requires list"

module _ (arithmetic : Arithmetic) where
  open arithmetic use {F64, f64_lt, f64_le, add, sub, mul, div, rem, f64_abs, epsilon}

  unfoldable pub contains_value : ModelValue F64 → ModelValue F64 → Checked Bool
  unfolding any contains_text values_equal
  contains_value (string haystack) (string needle) = ok (contains_text haystack needle)
  contains_value (list values) needle =
      ok (any (λ value. values_equal arithmetic value needle) (to_list values))
  contains_value _ _ = mismatch "contains requires compatible arguments"

  unfoldable pub index_of_value : ModelValue F64 → ModelValue F64 → Checked ℤ
  unfolding position_of find_text values_equal
  index_of_value (string haystack) (string needle) =
      ok (index_or_minus_one (find_text needle haystack))
  index_of_value (list values) needle = ok (
      index_or_minus_one
        (position_of (λ value. values_equal arithmetic value needle) (to_list values)))
  index_of_value _ _ = mismatch "indexOf requires compatible arguments"

  -- A comparison, and an operation, on two numbers, the left one read first.
  abbrev compare_numbers :
      (F64 → F64 → Bool) → ModelValue F64 → ModelValue F64 → Checked (ModelValue F64)
  compare_numbers test left right = do
    a ← expect_number left
    b ← expect_number right
    ok (bool (test a b))

  abbrev on_numbers : (F64 → F64 → F64) → ModelValue F64 → ModelValue F64 → Checked (ModelValue F64)
  on_numbers operation left right = do
    a ← expect_number left
    b ← expect_number right
    ok (number (operation a b))

  -- The divisor is read and tested before the left operand.
  abbrev with_divisor :
      String → (F64 → F64 → F64) → ModelValue F64 → ModelValue F64 → Checked (ModelValue F64)
  with_divisor message operation left right = do
    divisor ← expect_number right
    if f64_lt (f64_abs divisor) epsilon
        then mismatch message
        else do a ← expect_number left; ok (number (operation a divisor))

  -- The operators of `eval_binary` that evaluate both operands.
  unfoldable pub apply_binary :
      BinaryOp → ModelValue F64 → ModelValue F64 → Checked (ModelValue F64)
  unfolding expect_number expect_integral_i64 expect_shift_amount i64_to_f64 i64_and i64_shr
      values_equal
  apply_binary BinaryOp.eq left right = ok (bool (values_equal arithmetic left right))
  apply_binary BinaryOp.ne left right = ok (bool (not (values_equal arithmetic left right)))
  apply_binary BinaryOp.le left right = compare_numbers f64_le left right
  apply_binary BinaryOp.ge left right = compare_numbers (λ a b. f64_le b a) left right
  apply_binary BinaryOp.lt left right = compare_numbers f64_lt left right
  apply_binary BinaryOp.gt left right = compare_numbers (λ a b. f64_lt b a) left right
  apply_binary BinaryOp.bit_and left right = do
    a ← expect_integral_i64 arithmetic left
    b ← expect_integral_i64 arithmetic right
    result ← i64_to_f64 arithmetic (i64_and a b)
    ok (number result)
  apply_binary BinaryOp.shr left right = do
    shift ← expect_shift_amount arithmetic right
    a ← expect_integral_i64 arithmetic left
    result ← i64_to_f64 arithmetic (i64_shr a shift)
    ok (number result)
  apply_binary BinaryOp.add left right = on_numbers add left right
  apply_binary BinaryOp.sub left right = on_numbers sub left right
  apply_binary BinaryOp.mul left right = on_numbers mul left right
  apply_binary BinaryOp.div left right = with_divisor "division by zero" div left right
  apply_binary BinaryOp.rem left right = with_divisor "modulo by zero" rem left right
  apply_binary _ left right = ok (bool false)
