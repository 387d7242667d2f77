-- ===== src/Profile/Eval.antt =====
-- `DefaultRuleEvaluator` of crates/core/src/profile.rs: `eval`, `eval_binary`, `eval_call` and the
-- built-in functions, and `evaluate`. An operand is passed as the evaluation of it, which runs when
-- the code calls `eval` on that operand.
use pdfv.Base.{ℕ, Bytes, true, false, not, Option, List, [], ◌∷◌, String, ◌==◌, if◌then◌else◌}
use pdfv.Int.{ℤ}
use pdfv.Fact.{ParseFact}
use pdfv.Error.{from_bytes}
use pdfv.Limits.{ResourceLimits}
use pdfv.Profile.Failure.{Checked, ok, err, mismatch, profile, unsupported_rule}
use pdfv.Profile.Failure as Failure
use pdfv.Profile.Arithmetic.{Arithmetic, RegexEngine}
use pdfv.Profile.Rule.{BinaryOp, BuiltinFunction, RuleExpr, RuleArgs, UnaryOp}
use pdfv.Profile.Value.{
  ModelValue, expect_bool, expect_number, expect_non_negative_usize, usize_to_f64, i64_to_f64,
  from_list,
}
use pdfv.Profile.Texts.{split_string, regex_is_match, regex_find_index}
use pdfv.Profile.Functions.{
  has_parse_fact, collection_len, contains_value, filter_values, slice_value, index_of_value,
  find_index_equals, apply_binary,
}
use pdfv.Profile.Objects.{Objects, property}
use pdfv.Profile.Budget.{Evaluation, ◌>>=◌, lift, deeper, step}
use pdfv.Profile.Args.{
  bool_of, eval_single_arg, eval_two_args, eval_two_string_args, eval_string_args,
  eval_boolean_fold,
}

-- The outcome of a rule.
pub data RuleOutcome : Type 0 where
  passed failed : RuleOutcome

abbrev pub map_ok : {A B : Type 0} → (A → B) → Checked A → Checked B
map_ok f (ok a) = ok (f a)
map_ok f (err e) = err e

-- The two operators that may leave the right operand out.
module _ {R : Type 0} where
  unfoldable pub eval_and :
      Evaluation (ModelValue R) → Evaluation (ModelValue R) → Evaluation (ModelValue R)
  eval_and left right = do
    a ← bool_of left
    let second = bool_of right >>= λ b. lift (ok (ModelValue.bool b))
    if a then second else lift (ok (ModelValue.bool false))

  unfoldable pub eval_or :
      Evaluation (ModelValue R) → Evaluation (ModelValue R) → Evaluation (ModelValue R)
  eval_or left right = do
    a ← bool_of left
    let second = bool_of right >>= λ b. lift (ok (ModelValue.bool b))
    if a then lift (ok (ModelValue.bool true)) else second

  unfoldable pub apply_unary : UnaryOp → ModelValue R → Checked (ModelValue R)
  apply_unary UnaryOp.not (ModelValue.bool value) = ok (ModelValue.bool (not value))
  apply_unary UnaryOp.not _ = mismatch "unary operator requires boolean"

  abbrev strict :
      (ModelValue R → ModelValue R → Checked (ModelValue R))
      → Evaluation (ModelValue R)
      → Evaluation (ModelValue R)
      → Evaluation (ModelValue R)
  strict operator left right = do a ← left; b ← right; lift (operator a b)

  -- The part of each built-in function that follows the evaluation of its arguments.
  unfoldable pub fact_named : List ParseFact → ModelValue R → Checked (ModelValue R)
  fact_named facts (ModelValue.string content) = ok (ModelValue.bool (has_parse_fact facts content))
  fact_named facts _ = mismatch "hasParseFact requires string"

  unfoldable pub empty_of : ModelValue R → Checked (ModelValue R)
  empty_of value = map_ok (λ len. ModelValue.bool (len == 0)) (collection_len value)

  -- A collection, and the texts that the other arguments give.
  unfoldable pub eval_collection :
      String → String → List (Evaluation (ModelValue R)) → Evaluation (ModelValue R × List Bytes)
  eval_collection missing message [] = lift (mismatch missing)
  eval_collection missing message (argument ∷ arguments) = do
    collection ← argument
    predicates ← eval_string_args message arguments
    lift (ok (collection, predicates))

module _ (engine : RegexEngine) {R : Type 0} where
  unfoldable pub eval_filter :
      BuiltinFunction → List (Evaluation (ModelValue R)) → Evaluation (ModelValue R)
  eval_filter function arguments = do
    (collection, predicates) ← eval_collection "filter requires collection" "filter" arguments
    lift (
        map_ok (λ kept. ModelValue.list (from_list kept))
          (filter_values engine collection function predicates))

module _ (arithmetic : Arithmetic) where
  open arithmetic use {F64, f64_abs}

  unfoldable pub eval_binary :
      BinaryOp
      → Evaluation (ModelValue F64)
      → Evaluation (ModelValue F64)
      → Evaluation (ModelValue F64)
  eval_binary BinaryOp.and left right = eval_and left right
  eval_binary BinaryOp.or left right = eval_or left right
  eval_binary op left right = strict (apply_binary arithmetic op) left right

  unfoldable pub size_of : ModelValue F64 → Checked (ModelValue F64)
  size_of value =
      Failure.◌>>=◌ (collection_len value)
        λ len. map_ok ModelValue.number (usize_to_f64 arithmetic len)

  unfoldable pub abs_of : ModelValue F64 → Checked (ModelValue F64)
  abs_of value = map_ok (λ number. ModelValue.number (f64_abs number)) (expect_number value)

  unfoldable pub index_number : Checked ℤ → Checked (ModelValue F64)
  index_number result =
      Failure.◌>>=◌ result λ index. map_ok ModelValue.number (i64_to_f64 arithmetic index)

  unfoldable pub slice_of : ModelValue F64 → ModelValue F64 → Checked (ModelValue F64)
  slice_of collection start =
      Failure.◌>>=◌ (expect_non_negative_usize arithmetic start) (slice_value collection)

module _ (arithmetic : Arithmetic) (engine : RegexEngine) (limits : ResourceLimits) where
  open arithmetic use {F64}

  module _ (facts : List ParseFact) where
    unfoldable pub eval_call :
        BuiltinFunction → List (Evaluation (ModelValue F64)) → Evaluation (ModelValue F64)
    eval_call BuiltinFunction.has_parse_fact arguments =
        eval_single_arg arguments >>= λ value. lift (fact_named facts value)
    eval_call BuiltinFunction.size arguments =
        eval_single_arg arguments >>= λ value. lift (size_of arithmetic value)
    eval_call BuiltinFunction.is_empty arguments =
        eval_single_arg arguments >>= λ value. lift (empty_of value)
    eval_call BuiltinFunction.abs arguments =
        eval_single_arg arguments >>= λ value. lift (abs_of arithmetic value)
    eval_call BuiltinFunction.contains arguments = do
      (haystack, needle) ← eval_two_args arguments
      lift (map_ok ModelValue.bool (contains_value arithmetic haystack needle))
    eval_call BuiltinFunction.slice arguments = do
      (collection, start) ← eval_two_args arguments
      lift (slice_of arithmetic collection start)
    eval_call BuiltinFunction.index_of arguments = do
      (collection, needle) ← eval_two_args arguments
      lift (index_number arithmetic (index_of_value arithmetic collection needle))
    eval_call BuiltinFunction.matches arguments = do
      (pattern_text, haystack) ← eval_two_string_args arguments
      lift (map_ok ModelValue.bool (regex_is_match engine pattern_text haystack))
    eval_call BuiltinFunction.search_text arguments = do
      (haystack, pattern_text) ← eval_two_string_args arguments
      lift (index_number arithmetic (regex_find_index engine pattern_text haystack))
    eval_call BuiltinFunction.split arguments = do
      (value, separator) ← eval_two_string_args arguments
      lift (
          map_ok (λ parts. ModelValue.list (from_list parts))
            (split_string value separator limits.max_array_len))
    eval_call BuiltinFunction.find_index_equals arguments = do
      (collection, predicates) ←
          eval_collection "findIndex requires collection" "findIndex" arguments
      lift (index_number arithmetic (find_index_equals collection predicates))
    eval_call BuiltinFunction.all arguments = eval_boolean_fold true arguments
    eval_call BuiltinFunction.exists arguments = eval_boolean_fold false arguments
    eval_call function arguments = eval_filter engine function arguments

  module _ (objects : Objects F64) (graph : Option objects.Graph) (object : objects.Object) where
    unfoldable mutual
      pub eval : RuleExpr F64 → ℕ → Evaluation (ModelValue F64)
      eval (RuleExpr.bool value) depth = step limits depth (lift (ok (ModelValue.bool value)))
      eval (RuleExpr.number value) depth = step limits depth (lift (ok (ModelValue.number value)))
      eval (RuleExpr.string value) depth = step limits depth (lift (ok (ModelValue.string value)))
      eval RuleExpr.null depth = step limits depth (lift (ok ModelValue.null))
      eval (RuleExpr.property path) depth =
          step limits depth (lift (property objects limits graph object path))
      eval (RuleExpr.unary op operand) depth =
          step limits depth (eval operand (deeper depth) >>= λ value. lift (apply_unary op value))
      eval (RuleExpr.binary op left right) depth =
          step limits depth
            (eval_binary arithmetic op (eval left (deeper depth)) (eval right (deeper depth)))
      eval (RuleExpr.conditional condition when_true when_false) depth =
          let first = eval when_true (deeper depth) in
          let second = eval when_false (deeper depth) in
          step limits depth
            (bool_of (eval condition (deeper depth)) >>= λ value. if value then first else second)
      eval (RuleExpr.call function arguments) depth =
          step limits depth
            (eval_call (objects.parse_facts object) function (eval_args arguments (deeper depth)))
      eval (RuleExpr.unsupported fragment reason) depth =
          step limits depth (lift (err (profile (unsupported_rule (from_bytes reason)))))

      -- The evaluations of the arguments, none of which runs here.
      pub eval_args : RuleArgs F64 → ℕ → List (Evaluation (ModelValue F64))
      eval_args RuleArgs.nil depth = []
      eval_args (RuleArgs.cons argument arguments) depth =
          eval argument depth ∷ eval_args arguments depth

    unfoldable pub evaluate : RuleExpr F64 → Checked RuleOutcome
    evaluate test =
        Failure.◌>>=◌ (eval test 0 0).0
          λ value. Failure.◌>>=◌ (expect_bool value) λ holds. ok (if holds then passed else failed)
