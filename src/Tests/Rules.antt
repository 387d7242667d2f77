-- ===== src/Tests/Rules.antt =====
-- Rule expressions of crates/core/src/profile.rs at concrete inputs. Numbers are integers.
use pdfv.Base.{
  ℕ, ◌+◌, ◌*◌, ◌≤◌, Bytes, Bool, true, none, some, List, [], ◌∷◌, ◌≡◌, ◌↔◌, refl, arith, All,
  length, ltb, leb, ◌==◌, inr,
}
use pdfv.Int.{ℤ, pos, negsuc, ◌-ℤ◌, pos_part, neg_part}
use pdfv.Int as Int
use pdfv.Name.{codes}
use pdfv.Cursor.{is_prefix}
use pdfv.Profile.Failure.{ok}
use pdfv.Profile.Arithmetic.{Arithmetic, RegexEngine}
use pdfv.Profile.Rule.{BinaryOp, BuiltinFunction, RuleExpr, RuleArgs}
use pdfv.Profile.Value.{ModelValue, expect_bool, usize_to_f64}
use pdfv.Profile.Texts.{split_string, find_text}
use pdfv.Profile.Texts.Splits as Splits
use pdfv.Profile.Texts.Splits.{join, split_string_parts}
use pdfv.Profile.Functions.{collection_len, contains_value, apply_binary}
use pdfv.Profile.Objects.{Objects, property}
use pdfv.Profile.Budget.{step}
use pdfv.Profile.Args.{eval_single_arg, eval_two_args, eval_two_string_args}
use pdfv.Profile.Eval.{evaluate, eval, eval_args, passed, eval_binary, eval_and, eval_call, size_of}
use pdfv.Profile.Meaning as Meaning
use pdfv.Profile.Meaning.Height.{height, heights}
use pdfv.Profile.Meaning.Verdict.{
  Means, run, verdict, eval-count-le, eval-Means, Means-eval, evaluate-verdict_iff,
}
use pdfv.Tests.{test_limits}

abbrev pub int_lt : ℤ → ℤ → Bool
int_lt a b = ltb (pos_part a + neg_part b) (pos_part b + neg_part a)

abbrev pub test_arithmetic : Arithmetic
test_arithmetic = record {
  F64 = ℤ;
  f64_eq = λ (a b : ℤ). pos_part a == pos_part b;
  f64_lt = λ (a b : ℤ). int_lt a b;
  f64_le = λ (a b : ℤ). leb (pos_part a + neg_part b) (pos_part b + neg_part a);
  add = λ (a b : ℤ). a -ℤ (pos 0 -ℤ b);
  sub = λ (a b : ℤ). a -ℤ b;
  mul = λ (a b : ℤ). pos (Int.abs a * Int.abs b);
  div = λ (a b : ℤ). pos 0;
  rem = λ (a b : ℤ). pos 0;
  f64_abs = λ (a : ℤ). pos (Int.abs a);
  fract = λ (a : ℤ). pos 0;
  is_finite = λ (a : ℤ). true;
  epsilon = pos 1;
  from_int = λ (a : ℤ). a;
  integral = λ (a : ℤ). some a;
}

-- A pattern matches where its text stands.
abbrev pub test_engine : RegexEngine
test_engine = record {
  Regex = Bytes;
  build = λ (source : Bytes). inr source;
  is_match = λ (source haystack : Bytes). is_prefix source haystack;
  find = λ (source haystack : Bytes). find_text source haystack;
}

abbrev pub test_objects : Objects ℤ
test_objects = record {
  Object = Unit {0};
  Graph = Unit {0};
  object_type = λ (object : Unit {0}). codes "PDDocument";
  object_property = λ (object : Unit {0}) (key : Bytes). ok (ModelValue.number (pos 7));
  links = λ (object : Unit {0}). [];
  linked_objects = λ (object graph : Unit {0}) (max : ℕ). ok [];
  link_target = λ (family link : Bytes). none;
  parse_facts = λ (object : Unit {0}). [];
}

abbrev both_true : RuleExpr ℤ
both_true = RuleExpr.binary BinaryOp.and (RuleExpr.bool true) (RuleExpr.bool true)

-- size("ab") <= pages && contains(split("a,b", ","), "b")
abbrev two_checks : RuleExpr ℤ
two_checks =
    RuleExpr.binary BinaryOp.and
      (RuleExpr.binary BinaryOp.le
        (RuleExpr.call BuiltinFunction.size
          (RuleArgs.cons (RuleExpr.string (codes "ab")) RuleArgs.nil))
        (RuleExpr.property (codes "pages" ∷ [])))
      (RuleExpr.call BuiltinFunction.contains (
        RuleArgs.cons
          (RuleExpr.call BuiltinFunction.split (
            RuleArgs.cons (RuleExpr.string (codes "a,b"))
              (RuleArgs.cons (RuleExpr.string (codes ",")) RuleArgs.nil)))
          (RuleArgs.cons (RuleExpr.string (codes "b")) RuleArgs.nil)))

two_checks_pass :
    evaluate test_arithmetic test_engine test_limits test_objects none tt two_checks ≡ ok passed
unfolding evaluate eval eval_args step eval_binary eval_and eval_call expect_bool eval_two_args
    eval_two_string_args eval_single_arg apply_binary size_of collection_len contains_value
    split_string usize_to_f64 property
two_checks_pass = refl

evaluate-verdict_iff_example :
    (evaluate test_arithmetic test_engine test_limits test_objects none tt two_checks
      ≡ ok (verdict true))
    ↔ ((c : ℕ) × (c ≤ 512)
        × Means test_arithmetic test_engine test_limits test_objects none tt two_checks
            (ModelValue.bool true)
            c)
unfolding height heights
evaluate-verdict_iff_example =
    evaluate-verdict_iff test_arithmetic test_engine test_limits test_objects none tt two_checks
      true (omega arith, omega arith)

Means-eval_example :
    run test_arithmetic test_engine test_limits test_objects none tt both_true 1 7
    ≡ (ok (ModelValue.bool true), 10)
unfolding height
Means-eval_example =
    Means-eval test_arithmetic test_engine test_limits test_objects none tt 1 7
      (Meaning.Means.and_both Meaning.Means.bool Meaning.Means.bool) (omega arith, omega arith)
      (omega arith)

eval-count-le_example :
    (511 ≤ (run test_arithmetic test_engine test_limits test_objects none tt both_true 1 511).1)
    × ((run test_arithmetic test_engine test_limits test_objects none tt both_true 1 511).1 ≤ 513)
eval-count-le_example =
    eval-count-le test_arithmetic test_engine test_limits test_objects none tt both_true 1 511
      (omega arith)

eval-Means_example :
    (c : ℕ) × (10 ≡ 7 + c)
    × (10 ≤ 512)
    × Means test_arithmetic test_engine test_limits test_objects none tt both_true
        (ModelValue.bool true)
        c
unfolding eval step eval_binary eval_and expect_bool
eval-Means_example =
    eval-Means test_arithmetic test_engine test_limits test_objects none tt both_true 1 7
      (omega arith) refl

split_string_parts_example :
    (parts : List Bytes) × (Splits.strings {R = ℤ} (codes "a" ∷ codes "b" ∷ [])
      ≡ Splits.strings parts)
    × (join (codes ",") parts ≡ codes "a,b")
    × All (λ part. find_text (codes ",") part ≡ none) parts
    × (length parts ≤ 3)
unfolding split_string
split_string_parts_example = split_string_parts (codes "a,b") (codes ",") 3 refl
