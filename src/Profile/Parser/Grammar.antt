-- ===== src/Profile/Parser/Grammar.antt =====
-- The grammar of `ExprParser` in crates/core/src/profile.rs, from `parse_primary` up to
-- `parse_conditional`. The loops have fuel for the bytes that are left.
pub mod Ends
pub mod Primary
pub mod Total
use pdfv.Base.{
  ℕ, zero, suc, Bytes, Bool, true, false, not, ◌&&◌, ◌||◌, Option, none, some, List, [], ◌∷◌, ◌⊎◌,
  inl, inr, ◌==◌, if◌then◌else◌, length, drop,
}
use pdfv.Bytes.{is_ascii_digit}
use pdfv.Cursor.{is_prefix}
use pdfv.Name.{codes, bytes_eq}
use pdfv.Profile.Rule.{RuleExpr, RuleArgs, BinaryOp, UnaryOp, BuiltinFunction}
use pdfv.Profile.Parser.Outcome.{Parsed}
use pdfv.Profile.Parser.Run.{Run, done, diverged, ◌>>=◌, answer, refuse}
use pdfv.Profile.Parser.Lambda.{parse_lambda, into_filter_call_args, into_find_index_call_args}
use pdfv.Profile.Parser.Tokens.{
  skip_ws, consume, read_operator, parse_identifier, parse_string, parse_regex_literal, number_text,
  take_call_content_after_open,
}
use pdfv.Profile.Parser.Builtins.{
  property_name_from_source, builtin_function, append_property_member, method_call_expr,
}

-- What follows a token that comes next, or one that does not.
abbrev pub if_taken {ℓ} : {B : Type ℓ} → Bool × Bytes → (Bytes → Run B) → (Bytes → Run B) → Run B
if_taken (true, after) go stop = go after
if_taken (false, after) go stop = stop after

abbrev pub if_operator {ℓ} :
    {B : Type ℓ} → (BinaryOp × Bytes) ⊎ Bytes → (BinaryOp → Bytes → Run B) → (Bytes → Run B) → Run B
if_operator (inl (op, after)) go stop = go op after
if_operator (inr after) go stop = stop after

-- The operators of each level.
abbrev pub Operators : Type 0
Operators = List (Bytes × BinaryOp)

abbrev pub multiplicative_operators : Operators
multiplicative_operators =
    (codes "*", BinaryOp.mul) ∷ (codes "/", BinaryOp.div) ∷ (codes "%", BinaryOp.rem) ∷ []

abbrev pub additive_operators : Operators
additive_operators = (codes "+", BinaryOp.add) ∷ (codes "-", BinaryOp.sub) ∷ []

abbrev pub shift_operators : Operators
shift_operators = (codes ">>", BinaryOp.shr) ∷ []

abbrev pub comparison_operators : Operators
comparison_operators =
    (codes "==", BinaryOp.eq)
    ∷ (codes "!=", BinaryOp.ne)
    ∷ (codes "<=", BinaryOp.le)
    ∷ (codes ">=", BinaryOp.ge)
    ∷ (codes "<", BinaryOp.lt)
    ∷ (codes ">", BinaryOp.gt)
    ∷ []

abbrev pub and_operators : Operators
and_operators = (codes "&&", BinaryOp.and) ∷ []

abbrev pub or_operators : Operators
or_operators = (codes "||", BinaryOp.or) ∷ []

-- A single `&`.
unfoldable pub bitwise_operator : Bytes → (BinaryOp × Bytes) ⊎ Bytes
unfolding skip_ws is_prefix
bitwise_operator text =
    let after = skip_ws text in
    if is_prefix (codes "&") after && not (is_prefix (codes "&&") after)
    then inl (BinaryOp.bit_and, drop 1 after)
    else inr after

module _ {R : Type 0} (parse_f64 : Bytes → Option R) where
  -- A parser gives an expression and the text after it.
  abbrev pub Reader : Type 0
  Reader = Bytes → Run (RuleExpr R × Bytes)

  -- `operand (operator operand)*`, from the left.
  unfoldable pub chain_loop :
      (Bytes → (BinaryOp × Bytes) ⊎ Bytes) → Reader → ℕ → RuleExpr R → Reader
  chain_loop operator operand zero left text = diverged
  chain_loop operator operand (suc fuel) left text =
      if_operator (operator text)
        (λ op after. operand after >>= (λ (right, rest).
          chain_loop operator operand fuel (RuleExpr.binary op left right) rest))
        (λ after. answer (left, after))

  unfoldable pub chain : (Bytes → (BinaryOp × Bytes) ⊎ Bytes) → Reader → Reader
  unfolding chain_loop
  chain operator operand text =
      operand text >>= (λ (left, rest). chain_loop operator operand (suc (length rest)) left rest)

  unfoldable pub parse_number : Reader
  unfolding number_text
  parse_number text = do
    (digits, after) ← done (number_text text)
    elim (parse_f64 digits) [
      | none ↦ refuse "invalid number literal"
      | some value ↦ answer (RuleExpr.number value, after)
    ]

  -- The members of a property path, up to a member that is called.
  unfoldable pub members_loop : ℕ → Bytes → Run (List Bytes × Bytes)
  unfolding consume parse_identifier property_name_from_source is_prefix skip_ws
  members_loop zero text = diverged
  members_loop (suc fuel) text =
      if_taken (consume (codes ".") text)
        (λ after. done (parse_identifier after) >>= (λ (member, after_member).
          if_taken (is_prefix (codes "(") (skip_ws after_member), after)
            (λ at_member. answer ([], b'.' ∷ at_member))
            (λ _. done (property_name_from_source member) >>= (λ name.
              members_loop fuel after_member >>= (λ (names, last). answer (name ∷ names, last))))))
        (λ after. answer ([], after))

  -- `conditional` is `parse_conditional` on what is left.
  module _ (conditional : Reader) where
    unfoldable pub arguments_loop : ℕ → Bytes → Run (RuleArgs R × Bytes)
    unfolding consume
    arguments_loop zero text = diverged
    arguments_loop (suc fuel) text = conditional text >>= (λ (argument, rest).
        if_taken (consume (codes ")") rest)
          (λ after. answer (RuleArgs.cons argument RuleArgs.nil, after))
          (λ after.
            if_taken (consume (codes ",") after)
              (λ next.
                arguments_loop fuel next
                >>= (λ (arguments, last). answer (RuleArgs.cons argument arguments, last)))
              (λ _. refuse "missing function argument separator")))

    unfoldable pub parse_call_args_after_open : Bytes → Run (RuleArgs R × Bytes)
    unfolding arguments_loop consume
    parse_call_args_after_open text =
        if_taken (consume (codes ")") text) (λ after. answer (RuleArgs.nil, after))
          (λ after. arguments_loop (suc (length after)) after)

    unfoldable pub parse_property : Reader
    unfolding parse_identifier consume parse_call_args_after_open builtin_function members_loop
        property_name_from_source
    parse_property text = done (parse_identifier text) >>= (λ (first, rest).
        if_taken (consume (codes "(") rest)
          (λ after. parse_call_args_after_open after >>= (λ (arguments, last).
            done (builtin_function first)
            >>= (λ function. answer (RuleExpr.call function arguments, last))))
          (λ after. done (property_name_from_source first) >>= (λ name.
            members_loop (suc (length after)) after
            >>= (λ (names, last). answer (RuleExpr.property (name ∷ names), last)))))

    abbrev pub in_parentheses : Reader
    in_parentheses text = conditional text >>= (λ (e, rest).
        if_taken (consume (codes ")") rest) (λ after. answer (e, after))
          (λ _. refuse "missing closing parenthesis"))

    abbrev pub literal : Parsed (Bytes × Bytes) → Run (RuleExpr R × Bytes)
    literal m = done m >>= (λ (value, after). answer (RuleExpr.string value, after))

    abbrev pub first_is : (ℕ → Bool) → Bytes → Bool
    first_is p [] = false
    first_is p (b ∷ rest) = p b

    unfoldable pub parse_primary : Reader
    unfolding consume parse_regex_literal parse_string is_prefix parse_number parse_property skip_ws
    parse_primary text = if_taken (consume (codes "(") text) in_parentheses (λ after.
        if is_prefix (codes "/") after
        then literal (parse_regex_literal after)
        else if is_prefix (codes "\"") after || is_prefix (codes "'") after
        then literal (parse_string after)
        else if is_prefix (codes "true") after
        then answer (RuleExpr.bool true, drop 4 after)
        else if is_prefix (codes "false") after
        then answer (RuleExpr.bool false, drop 5 after)
        else if is_prefix (codes "null") after
        then answer (RuleExpr.null, drop 4 after)
        else if first_is (λ b. is_ascii_digit b || b == b'-') after
        then parse_number after
        else parse_property after)

    abbrev pub lambda_filter : RuleExpr R → Reader
    lambda_filter receiver text = do
      (content, after) ← done (take_call_content_after_open text)
      predicate ← done (parse_lambda content)
      (function, arguments) ← done (into_filter_call_args predicate)
      answer (RuleExpr.call function (RuleArgs.cons receiver arguments), after)

    abbrev pub lambda_find_index : RuleExpr R → Reader
    lambda_find_index receiver text = do
      (content, after) ← done (take_call_content_after_open text)
      predicate ← done (parse_lambda content)
      arguments ← done (into_find_index_call_args predicate receiver)
      answer (RuleExpr.call BuiltinFunction.find_index_equals arguments, after)

    unfoldable pub parse_method_call : RuleExpr R → Bytes → Reader
    unfolding take_call_content_after_open parse_lambda into_filter_call_args
        into_find_index_call_args parse_call_args_after_open method_call_expr bytes_eq
    parse_method_call receiver method text =
        if bytes_eq method (codes "filter")
        then lambda_filter receiver text
        else if bytes_eq method (codes "findIndex")
        then lambda_find_index receiver text
        else (do
          (arguments, after) ← parse_call_args_after_open text
          e ← done (method_call_expr receiver method arguments)
          answer (e, after))

    abbrev pub member_of : RuleExpr R → Bytes → Reader
    member_of e member rest =
        if_taken (consume (codes "(") rest) (parse_method_call e member) (λ after.
          if bytes_eq member (codes "length")
          then answer (RuleExpr.call BuiltinFunction.size (RuleArgs.cons e RuleArgs.nil), after)
          else done (append_property_member e member) >>= (λ e'. answer (e', after)))

    unfoldable pub postfix_loop : ℕ → RuleExpr R → Reader
    unfolding consume parse_identifier parse_method_call append_property_member bytes_eq
    postfix_loop zero e text = diverged
    postfix_loop (suc fuel) e text =
        if_taken (consume (codes ".") text)
          (λ after. done (parse_identifier after) >>= (λ (member, rest).
            member_of e member rest >>= (λ (e', last). postfix_loop fuel e' last)))
          (λ after. answer (e, after))

    unfoldable pub parse_postfix : Reader
    unfolding parse_primary postfix_loop
    parse_postfix text =
        parse_primary text >>= (λ (e, rest). postfix_loop (suc (length rest)) e rest)

    unfoldable pub unary_loop : ℕ → Reader
    unfolding consume parse_postfix
    unary_loop zero text = diverged
    unary_loop (suc fuel) text =
        if_taken (consume (codes "!") text)
          (λ after.
            unary_loop fuel after >>= (λ (e, rest). answer (RuleExpr.unary UnaryOp.not e, rest)))
          parse_postfix

    unfoldable pub parse_unary : Reader
    unfolding unary_loop
    parse_unary text = unary_loop (suc (length text)) text

    unfoldable pub parse_multiplicative : Reader
    unfolding chain read_operator parse_unary
    parse_multiplicative = chain (read_operator multiplicative_operators) parse_unary

    unfoldable pub parse_additive : Reader
    unfolding chain read_operator parse_multiplicative
    parse_additive = chain (read_operator additive_operators) parse_multiplicative

    unfoldable pub parse_shift : Reader
    unfolding chain read_operator parse_additive
    parse_shift = chain (read_operator shift_operators) parse_additive

    unfoldable pub parse_bitwise_and : Reader
    unfolding chain bitwise_operator parse_shift
    parse_bitwise_and = chain bitwise_operator parse_shift

    unfoldable pub parse_comparison : Reader
    unfolding parse_bitwise_and read_operator
    parse_comparison text = parse_bitwise_and text >>= (λ (left, rest).
        if_operator (read_operator comparison_operators rest)
          (λ op after.
            parse_bitwise_and after
            >>= (λ (right, last). answer (RuleExpr.binary op left right, last)))
          (λ after. answer (left, after)))

    unfoldable pub parse_and : Reader
    unfolding chain read_operator parse_comparison
    parse_and = chain (read_operator and_operators) parse_comparison

    unfoldable pub parse_or : Reader
    unfolding chain read_operator parse_and
    parse_or = chain (read_operator or_operators) parse_and

  unfoldable pub parse_conditional : ℕ → Reader
  unfolding parse_or consume
  parse_conditional zero text = diverged
  parse_conditional (suc fuel) text = parse_or (parse_conditional fuel) text >>= (λ (e, rest).
      if_taken (consume (codes "?") rest)
        (λ after. parse_conditional fuel after >>= (λ (when_true, middle).
          if_taken (consume (codes ":") middle)
            (λ next. parse_conditional fuel next >>= (λ (when_false, last).
              answer (RuleExpr.conditional e when_true when_false, last)))
            (λ _. refuse "missing ternary separator")))
        (λ after. answer (e, after)))

  abbrev pub is_unsupported : RuleExpr R → Bool
  is_unsupported (RuleExpr.unsupported fragment reason) = true
  is_unsupported _ = false

  abbrev pub at_end : RuleExpr R → Bytes → Run (RuleExpr R)
  at_end e [] = answer e
  at_end e (b ∷ rest) = refuse "trailing expression input"

  unfoldable pub parse_imported_expr : Bytes → Run (RuleExpr R)
  unfolding parse_conditional skip_ws
  parse_imported_expr input =
      parse_conditional (suc (length input)) input
      >>= (λ (e, rest). if is_unsupported e then answer e else at_end e (skip_ws rest))
