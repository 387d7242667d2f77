-- ===== src/Profile/Parser/Builtins.antt =====
-- The names in a rule expression of crates/core/src/profile.rs: properties, built-in functions, and
-- the calls that methods stand for.
use pdfv.Base.{Bytes, Bool, false, ◌&&◌, [], ◌∷◌, ◌++◌, if◌then◌else◌}
use pdfv.Name.{codes, bytes_eq}
use pdfv.Profile.Failure as Failure
use pdfv.Profile.Failure.{Checked}
use pdfv.Profile.Identifiers.{new_identifier}
use pdfv.Profile.Rule.{RuleExpr, RuleArgs, BuiltinFunction}
use pdfv.Profile.Parser.Outcome.{Parsed, ok, refused, ◌>>=◌}

unfoldable pub map_verapdf_property : Bytes → Bytes
unfolding bytes_eq
map_verapdf_property value =
    if bytes_eq value (codes "Length")
    then codes "declaredLength"
    else if bytes_eq value (codes "realLength")
    then codes "discoveredLength"
    else if bytes_eq value (codes "isEncrypted")
    then codes "encrypted"
    else if bytes_eq value (codes "containsMetadata")
    then codes "hasMetadata"
    else if bytes_eq value (codes "isCatalogMetadata")
    then codes "catalogMetadata"
    else value

abbrev property_of : Checked Bytes → Parsed Bytes
property_of (Failure.ok name) = ok name
property_of (Failure.err e) = refused "invalid property"

unfoldable pub property_name_from_source : Bytes → Parsed Bytes
unfolding map_verapdf_property new_identifier
property_name_from_source value = property_of (new_identifier (map_verapdf_property value))

unfoldable pub builtin_function : Bytes → Parsed BuiltinFunction
unfolding bytes_eq
builtin_function value =
    if bytes_eq value (codes "hasParseFact")
    then ok BuiltinFunction.has_parse_fact
    else if bytes_eq value (codes "size")
    then ok BuiltinFunction.size
    else if bytes_eq value (codes "isEmpty")
    then ok BuiltinFunction.is_empty
    else if bytes_eq value (codes "contains")
    then ok BuiltinFunction.contains
    else if bytes_eq value (codes "all")
    then ok BuiltinFunction.all
    else if bytes_eq value (codes "exists")
    then ok BuiltinFunction.exists
    else if bytes_eq value (codes "matches")
    then ok BuiltinFunction.matches
    else refused "unsupported built-in function"

module _ {R : Type 0} where
  unfoldable pub append_property_member : RuleExpr R → Bytes → Parsed (RuleExpr R)
  unfolding property_name_from_source
  append_property_member (RuleExpr.property parts) member = do
    name ← property_name_from_source member
    ok (RuleExpr.property (parts ++ name ∷ []))
  append_property_member _ member = refused "unsupported postfix property target"

  unfoldable pub is_math_receiver : RuleExpr R → Bool
  unfolding bytes_eq
  is_math_receiver (RuleExpr.property (part ∷ [])) = bytes_eq part (codes "Math")
  is_math_receiver _ = false

  -- `expected_args` is 1 in each call.
  unfoldable pub receiver_first_call :
      BuiltinFunction → RuleExpr R → RuleArgs R → Parsed (RuleExpr R)
  receiver_first_call function receiver (RuleArgs.cons argument RuleArgs.nil) =
      ok (RuleExpr.call function (RuleArgs.cons receiver (RuleArgs.cons argument RuleArgs.nil)))
  receiver_first_call function receiver _ = refused "wrong method argument count"

  abbrev abs_call : RuleArgs R → Parsed (RuleExpr R)
  abs_call (RuleArgs.cons argument RuleArgs.nil) =
      ok (RuleExpr.call BuiltinFunction.abs (RuleArgs.cons argument RuleArgs.nil))
  abs_call _ = refused "Math.abs requires one argument"

  abbrev length_call : RuleExpr R → RuleArgs R → Parsed (RuleExpr R)
  length_call receiver RuleArgs.nil =
      ok (RuleExpr.call BuiltinFunction.size (RuleArgs.cons receiver RuleArgs.nil))
  length_call receiver _ = refused "length requires no arguments"

  abbrev test_call : RuleExpr R → RuleArgs R → Parsed (RuleExpr R)
  test_call receiver (RuleArgs.cons haystack RuleArgs.nil) = ok (
      RuleExpr.call BuiltinFunction.matches
        (RuleArgs.cons receiver (RuleArgs.cons haystack RuleArgs.nil)))
  test_call receiver _ = refused "test requires one argument"

  unfoldable pub method_call_expr : RuleExpr R → Bytes → RuleArgs R → Parsed (RuleExpr R)
  unfolding is_math_receiver receiver_first_call bytes_eq
  method_call_expr receiver method arguments =
      if is_math_receiver receiver && bytes_eq method (codes "abs")
      then abs_call arguments
      else if bytes_eq method (codes "length")
      then length_call receiver arguments
      else if bytes_eq method (codes "test")
      then test_call receiver arguments
      else if bytes_eq method (codes "contains")
      then receiver_first_call BuiltinFunction.contains receiver arguments
      else if bytes_eq method (codes "split")
      then receiver_first_call BuiltinFunction.split receiver arguments
      else if bytes_eq method (codes "slice")
      then receiver_first_call BuiltinFunction.slice receiver arguments
      else if bytes_eq method (codes "indexOf")
      then receiver_first_call BuiltinFunction.index_of receiver arguments
      else if bytes_eq method (codes "search")
      then receiver_first_call BuiltinFunction.search_text receiver arguments
      else refused "unsupported method call"
