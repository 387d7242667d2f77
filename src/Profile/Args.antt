-- ===== src/Profile/Args.antt =====
-- The argument helpers of `DefaultRuleEvaluator` in crates/core/src/profile.rs: `eval_single_arg`,
-- `eval_two_args`, `eval_two_string_args`, `eval_string_args` and `eval_boolean_fold`. An argument
-- is passed as the evaluation of it, which runs where the code calls `eval` on that argument.
use pdfv.Base.{Bytes, Bool, true, false, List, [], ◌∷◌, String, if◌then◌else◌}
use pdfv.Profile.Failure.{Checked, ok, mismatch}
use pdfv.Profile.Value.{ModelValue, expect_bool}
use pdfv.Profile.Budget.{Evaluation, ◌>>=◌, lift}

module _ {R : Type 0} where
  abbrev pub bool_of : Evaluation (ModelValue R) → Evaluation Bool
  bool_of operand = do value ← operand; lift (expect_bool value)

  unfoldable pub eval_single_arg : List (Evaluation (ModelValue R)) → Evaluation (ModelValue R)
  eval_single_arg (argument ∷ []) = argument
  eval_single_arg _ = lift (mismatch "built-in requires exactly one argument")

  unfoldable pub eval_two_args :
      List (Evaluation (ModelValue R)) → Evaluation (ModelValue R × ModelValue R)
  eval_two_args (left ∷ right ∷ []) = do a ← left; b ← right; lift (ok (a, b))
  eval_two_args _ = lift (mismatch "built-in requires two arguments")

  unfoldable pub two_strings : ModelValue R → ModelValue R → Checked (Bytes × Bytes)
  two_strings (ModelValue.string a) (ModelValue.string b) = ok (a, b)
  two_strings _ _ = mismatch "built-in requires string arguments"

  unfoldable pub eval_two_string_args :
      List (Evaluation (ModelValue R)) → Evaluation (Bytes × Bytes)
  unfolding eval_two_args two_strings
  eval_two_string_args arguments = do (a, b) ← eval_two_args arguments; lift (two_strings a b)

  unfoldable pub expect_string : String → ModelValue R → Checked Bytes
  expect_string message (ModelValue.string value) = ok value
  expect_string message _ = mismatch message

  unfoldable pub eval_string_args :
      String → List (Evaluation (ModelValue R)) → Evaluation (List Bytes)
  unfolding expect_string
  eval_string_args message [] = lift (ok [])
  eval_string_args message (argument ∷ arguments) = do
    v ← argument
    value ← lift (expect_string message v)
    values ← eval_string_args message arguments
    lift (ok (value ∷ values))

  -- The loop of `eval_boolean_fold`, which stops as soon as the result is settled.
  unfoldable pub eval_boolean_fold :
      Bool → List (Evaluation (ModelValue R)) → Evaluation (ModelValue R)
  eval_boolean_fold all_required [] = lift (ok (ModelValue.bool all_required))
  eval_boolean_fold true (argument ∷ arguments) = do
    value ← bool_of argument
    if value then eval_boolean_fold true arguments else lift (ok (ModelValue.bool false))
  eval_boolean_fold false (argument ∷ arguments) = do
    value ← bool_of argument
    if value then lift (ok (ModelValue.bool true)) else eval_boolean_fold false arguments
