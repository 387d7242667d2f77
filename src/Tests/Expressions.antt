-- ===== src/Tests/Expressions.antt =====
-- The parser of rule expressions of crates/core/src/profile.rs at concrete texts. A number is read
-- as its length.
use pdfv.Base.{ℕ, Bytes, Option, String, some, [], ◌∷◌, ◌++◌, ◌≡◌, refl, arith, length}
use pdfv.Name.{codes}
use pdfv.Profile.Rule.{RuleExpr, RuleArgs, BinaryOp, UnaryOp, BuiltinFunction}
use pdfv.Profile.Parser.Outcome.{Parsed, ok, refused, panicked}
use pdfv.Profile.Parser.Run.{done}
use pdfv.Profile.Parser.Lambda.{parse_lambda, regex_not_matches}
use pdfv.Profile.Parser.Tokens.{parse_string, number_text, take_call_content_after_open}
use pdfv.Profile.Parser.Tokens.Quotes.{parse_string-write, parse_string_panic}
use pdfv.Profile.Parser.Grammar.{parse_imported_expr}
use pdfv.Profile.Parser.Grammar.Total.{parse_imported_expr_total}

abbrev digits_length : Bytes → Option ℕ
digits_length digits = some (length digits)

abbrev name : String → RuleExpr ℕ
name s = RuleExpr.property (codes s ∷ [])

precedence :
    parse_imported_expr digits_length (codes "a || b && c & d >> 1 + 22 * 333 != 4")
    ≡ done (
        ok (
          RuleExpr.binary BinaryOp.or (name "a") (
            RuleExpr.binary BinaryOp.and (name "b") (
              RuleExpr.binary BinaryOp.ne
                (RuleExpr.binary BinaryOp.bit_and (name "c") (
                  RuleExpr.binary BinaryOp.shr (name "d") (
                    RuleExpr.binary BinaryOp.add
                      (RuleExpr.number 1)
                      (RuleExpr.binary BinaryOp.mul (RuleExpr.number 2) (RuleExpr.number 3)))))
                (RuleExpr.number 1)))))
unfolding parse_imported_expr
precedence = refl

left_to_right :
    parse_imported_expr digits_length (codes "a - b - c")
    ≡ done (
        ok (
          RuleExpr.binary BinaryOp.sub
            (RuleExpr.binary BinaryOp.sub (name "a") (name "b"))
            (name "c")))
unfolding parse_imported_expr
left_to_right = refl

filter_length :
    parse_imported_expr digits_length (codes "!xs.filter(x => x == 'a' || x == 'b').length")
    ≡ done (
        ok (
          RuleExpr.unary UnaryOp.not (
            RuleExpr.call BuiltinFunction.size (
              RuleArgs.cons
                (RuleExpr.call BuiltinFunction.filter_equals (
                  RuleArgs.cons (name "xs") (
                    RuleArgs.cons
                      (RuleExpr.string (codes "a"))
                      (RuleArgs.cons (RuleExpr.string (codes "b")) RuleArgs.nil))))
                RuleArgs.nil))))
unfolding parse_imported_expr
filter_length = refl

regex_test :
    parse_imported_expr digits_length (codes "a.b ? /x.y/.test(Length) : null")
    ≡ done (
        ok (
          RuleExpr.conditional
            (RuleExpr.property (codes "a" ∷ codes "b" ∷ []))
            (RuleExpr.call BuiltinFunction.matches (
              RuleArgs.cons
                (RuleExpr.string (codes "x.y"))
                (RuleArgs.cons (name "declaredLength") RuleArgs.nil)))
            RuleExpr.null))
unfolding parse_imported_expr
regex_test = refl

-- A property whose name starts with the word `true`.
true_prefix :
    parse_imported_expr digits_length (codes "trueColor == 1")
    ≡ done (refused "trailing expression input")
unfolding parse_imported_expr
true_prefix = refl

-- A value that is the separator of the alternatives.
separator_value :
    parse_imported_expr digits_length (codes "xs.filter(x => x == '||')") ≡ done panicked
unfolding parse_imported_expr
separator_value = refl

unclosed :
    parse_imported_expr digits_length (codes "size(a, b")
    ≡ done (refused "missing function argument separator")
unfolding parse_imported_expr
unclosed = refl

negated_pattern :
    parse_lambda (codes " x => ! /^a\\/b$/.test(x) ") ≡ ok (regex_not_matches (codes "^a\\/b$"))
unfolding parse_lambda
negated_pattern = refl

exponent : number_text (codes "-1.5e+10]") ≡ ok (codes "-1.5e+10", codes "]")
unfolding number_text
exponent = refl

nested_call :
    take_call_content_after_open (codes "f(')') / 1) + 2")
    ≡ refused "missing call closing parenthesis"
unfolding take_call_content_after_open
nested_call = refl

parse_imported_expr_total_example :
    (p : Parsed (RuleExpr ℕ)) × (parse_imported_expr digits_length
        (codes "a.b == 7 && !(size(x) > 2)")
      ≡ done p)
parse_imported_expr_total_example =
    parse_imported_expr_total digits_length (codes "a.b == 7 && !(size(x) > 2)")

parse_string-write_example :
    parse_string (b'"' ∷ codes "a'b" ++ b'"' ∷ codes " == x") ≡ ok (codes "a'b", codes " == x")
parse_string-write_example =
    parse_string-write b'"' (codes "a'b") (codes " == x") (omega arith)
      (
        (omega arith, ground arith),
        ((omega arith, ground arith), ((omega arith, ground arith), tt)),
      )
      (omega arith)

parse_string_panic_example :
    parse_string (b'\'' ∷ codes "caf" ++ 0xc3 ∷ 0xa9 ∷ codes "'") ≡ panicked
parse_string_panic_example =
    parse_string_panic b'\'' (codes "caf") 0xc3 0xa9 (codes "'") (omega arith)
      (
        (omega arith, ground arith),
        ((omega arith, ground arith), ((omega arith, ground arith), tt)),
      )
      (omega arith) (omega arith) (omega arith)
