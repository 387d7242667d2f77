-- ===== src/Profile/Parser/Grammar/Primary.antt =====
-- The primary, postfix and unary expressions of crates/core/src/profile.rs, on texts that are short
-- enough for the fuel.
use pdfv.Base.{ℕ, zero, suc, ◌≤◌, ◌<◌, Bytes, ◌||◌, Option, ◌==◌, arith, length, length-drop}
use pdfv.Bytes.{is_ascii_digit}
use pdfv.Cursor.{is_prefix}
use pdfv.Name.{codes, bytes_eq}
use pdfv.Profile.Rule.{RuleExpr}
use pdfv.Profile.Parser.Outcome.{Parsed}
use pdfv.Profile.Parser.Run.{Run}
use pdfv.Profile.Parser.Lambda.{parse_lambda, into_filter_call_args, into_find_index_call_args}
use pdfv.Profile.Parser.Tokens.Progress.{
  parse_identifier-Leaves, parse_string-Leaves, parse_regex_literal-Leaves,
  take_call_content_after_open-Leaves,
}
use pdfv.Profile.Parser.Builtins.{
  property_name_from_source, builtin_function, append_property_member, method_call_expr,
}
use pdfv.Profile.Parser.Meets.{
  Leaves, Answers, Meets, answered, returned, raised, Meets-if, Meets-bind, Meets-then,
  Answers-less, Meets-less,
}
use pdfv.Profile.Parser.Grammar.{
  parse_property, literal, first_is, parse_primary, parse_method_call, member_of, postfix_loop,
  parse_postfix, unary_loop, parse_unary,
}
use pdfv.Profile.Parser.Grammar.Ends.{
  if_taken-Meets, Ends, parse_number-Ends, members_loop-Meets, parse_call_args_after_open-Ends,
}

module _ {R : Type 0} (parse_f64 : Bytes → Option R) where
  module _ (n : ℕ) (conditional : Bytes → Run (RuleExpr R × Bytes))
      (ends : (text : Bytes)
        → length text < n
        → Meets (Leaves (length text)) (conditional text)) where
    parse_property-Ends : Ends parse_f64 n (parse_property parse_f64 conditional)
    unfolding parse_property
    parse_property-Ends text small =
        Meets-bind _ (answered (parse_identifier-Leaves text)) λ (first, rest) h.
          if_taken-Meets (codes "(") rest _ _
            (λ after less.
              Meets-bind _
                (parse_call_args_after_open-Ends parse_f64 n conditional ends after (omega arith))
                λ (arguments, last) k.
                  Meets-then (builtin_function first) _ λ function. returned (omega arith))
            λ after less. Meets-then (property_name_from_source first) _ λ name.
              Meets-bind _
                (members_loop-Meets parse_f64 (suc (length after)) after (length text) (omega arith)
                  (omega arith))
                λ (names, last) k. returned k

    literal-Meets :
        (bound : ℕ) (m : Parsed (Bytes × Bytes))
        → Answers (Leaves bound) m
        → Meets (Leaves bound) (literal parse_f64 conditional m)
    literal-Meets bound m h = Meets-bind _ (answered h) (λ (value, after) k. returned k)

    parse_primary-Ends : Ends parse_f64 n (parse_primary parse_f64 conditional)
    unfolding parse_primary
    parse_primary-Ends text small =
        if_taken-Meets (codes "(") text _ _
          (λ after less. Meets-bind _ (ends after (omega arith)) λ (e, rest) h.
            if_taken-Meets (codes ")") rest _ _ (λ last fewer. returned (omega arith))
              (λ _ _. raised))
          λ after less.
            Meets-if (is_prefix (codes "/") after)
              (λ _. literal-Meets _ _ (Answers-less less (parse_regex_literal-Leaves after)))
              λ _.
                Meets-if (is_prefix (codes "\"") after || is_prefix (codes "'") after)
                  (λ _. literal-Meets _ _ (Answers-less less (parse_string-Leaves after)))
                  λ _.
                    Meets-if (is_prefix (codes "true") after)
                      (λ _. returned (omega (arith, length-drop 4 after)))
                      λ _.
                        Meets-if (is_prefix (codes "false") after)
                          (λ _. returned (omega (arith, length-drop 5 after)))
                          λ _.
                            Meets-if (is_prefix (codes "null") after)
                              (λ _. returned (omega (arith, length-drop 4 after)))
                              λ _.
                                Meets-if
                                  (first_is parse_f64 conditional
                                    (λ b. is_ascii_digit b || b == b'-') after)
                                  (λ _. Meets-less less (parse_number-Ends parse_f64 after))
                                  (λ _. Meets-less less (parse_property-Ends after (omega arith)))

    parse_method_call-Ends :
        (receiver : RuleExpr R) (method text : Bytes)
        → length text < n
        → Meets
            (Leaves (length text))
            (parse_method_call parse_f64 conditional receiver method text)
    unfolding parse_method_call
    parse_method_call-Ends receiver method text small =
        Meets-if (bytes_eq method (codes "filter"))
          (λ _.
            Meets-bind _ (answered (take_call_content_after_open-Leaves text)) λ (content, after) h.
              Meets-then (parse_lambda content) _ λ predicate.
                Meets-then (into_filter_call_args predicate) _ λ (function, arguments). returned h)
          λ _.
            Meets-if (bytes_eq method (codes "findIndex"))
              (λ _.
                Meets-bind _ (answered (take_call_content_after_open-Leaves text))
                  λ (content, after) h. Meets-then (parse_lambda content) _ λ predicate.
                    Meets-then (into_find_index_call_args predicate receiver) _
                      λ arguments. returned h)
              λ _.
                Meets-bind _
                  (parse_call_args_after_open-Ends parse_f64 n conditional ends text small)
                  λ (arguments, after) h.
                    Meets-then (method_call_expr receiver method arguments) _ λ e. returned h

    member_of-Meets :
        (e : RuleExpr R) (member : Bytes)
        → Ends parse_f64 n (member_of parse_f64 conditional e member)
    member_of-Meets e member rest small =
        if_taken-Meets (codes "(") rest _ _
          (λ after less.
            Meets-less (omega arith) (parse_method_call-Ends e member after (omega arith)))
          λ after less.
            Meets-if (bytes_eq member (codes "length")) (λ _. returned less)
              λ _. Meets-then (append_property_member e member) _ (λ e'. returned less)

    postfix_loop-Meets :
        (fuel : ℕ) (e : RuleExpr R) (text : Bytes) (bound : ℕ)
        → length text < fuel
        → length text ≤ n
        → length text ≤ bound
        → Meets (Leaves bound) (postfix_loop parse_f64 conditional fuel e text)
    unfolding postfix_loop
    postfix_loop-Meets zero e text bound h small le = absurd (omega arith)
    postfix_loop-Meets (suc fuel) e text bound h small le =
        if_taken-Meets (codes ".") text _ _
          (λ after less. Meets-bind _ (answered (parse_identifier-Leaves after)) λ (member, rest) k.
            Meets-bind _ (member_of-Meets e member rest (omega arith)) λ (e', last) l.
              postfix_loop-Meets fuel e' last bound (omega arith) (omega arith) (omega arith))
          (λ after less. returned (omega arith))

    parse_postfix-Ends : Ends parse_f64 n (parse_postfix parse_f64 conditional)
    unfolding parse_postfix
    parse_postfix-Ends text small = Meets-bind _ (parse_primary-Ends text small) λ (e, rest) h.
        postfix_loop-Meets (suc (length rest)) e rest (length text) (omega arith) (omega arith) h

    unary_loop-Meets :
        (fuel : ℕ) (text : Bytes) (bound : ℕ)
        → length text < fuel
        → length text ≤ n
        → length text ≤ bound
        → Meets (Leaves bound) (unary_loop parse_f64 conditional fuel text)
    unfolding unary_loop
    unary_loop-Meets zero text bound h small le = absurd (omega arith)
    unary_loop-Meets (suc fuel) text bound h small le =
        if_taken-Meets (codes "!") text _ _
          (λ after less.
            Meets-bind _
              (unary_loop-Meets fuel after bound (omega arith) (omega arith) (omega arith))
              λ (e, rest) k. returned k)
          (λ after less. Meets-less (omega arith) (parse_postfix-Ends after (omega arith)))

    pub parse_unary-Ends : Ends parse_f64 n (parse_unary parse_f64 conditional)
    unfolding parse_unary
    parse_unary-Ends text small =
        unary_loop-Meets (suc (length text)) text (length text) (omega arith) small (omega arith)
