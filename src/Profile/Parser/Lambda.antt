-- ===== src/Profile/Parser/Lambda.antt =====
-- The predicates of `filter` and `findIndex` in rule expressions: `LambdaPredicate` of
-- crates/core/src/profile.rs and the functions that it calls.
use mathlib.Core.List.{reverse}
use pdfv.Base.{
  ℕ, Bytes, Bool, true, false, not, ◌&&◌, ◌||◌, Option, none, some, List, [], ◌∷◌, ◌++◌, ◌==◌,
  if◌then◌else◌,
}
use pdfv.Bytes.{within, is_ascii_digit}
use pdfv.Name.{codes, bytes_eq}
use pdfv.Profile.Rule.{RuleExpr, RuleArgs, BuiltinFunction}
use pdfv.Profile.Texts.{max_profile_string_bytes, split_text}
use pdfv.Profile.Parser.Outcome.{Parsed, ok, refused, panicked, ◌>>=◌, bounded}
use pdfv.Profile.Parser.Strings.{trim, split_once, strip_prefix}

abbrev pub max_regex_pattern_bytes : ℕ
max_regex_pattern_bytes = 512

pub data LambdaPredicate : Type 0 where
  eq_any ne_all : List Bytes → LambdaPredicate
  regex_matches regex_not_matches : Bytes → LambdaPredicate

-- `u8::is_ascii_alphabetic` and `u8::is_ascii_alphanumeric`
abbrev is_ascii_alphabetic : ℕ → Bool
is_ascii_alphabetic b = within b'a' b'z' b || within b'A' b'Z' b

abbrev pub is_word_byte : ℕ → Bool
is_word_byte b = is_ascii_alphabetic b || is_ascii_digit b || b == b'_'

unfoldable pub all_word_bytes : Bytes → Bool
all_word_bytes [] = true
all_word_bytes (b ∷ rest) = is_word_byte b && all_word_bytes rest

unfoldable pub is_identifier : Bytes → Bool
unfolding all_word_bytes
is_identifier [] = false
is_identifier (first ∷ rest) = (is_ascii_alphabetic first || first == b'_') && all_word_bytes rest

-- The pattern before the slash that ends it, and the text after that slash.
unfoldable pub regex_end : Bool → Bytes → Parsed (Bytes × Bytes)
regex_end escaped [] = refused "unterminated regex lambda"
regex_end escaped (b ∷ rest) =
    let more = (do
      (pattern_text, suffix) ← regex_end (b == b'\\' && not escaped) rest
      ok (b ∷ pattern_text, suffix)) in
    if b == b'/' && not escaped then ok ([], rest) else more

abbrev regex_test : Bytes → Option Bytes → Parsed (Option Bytes)
regex_test variable none = ok none
regex_test variable (some rest) = do
  (pattern_text, suffix) ← regex_end false rest
  ok (
      if bytes_eq (trim suffix) (codes ".test(" ++ variable ++ codes ")")
      then some pattern_text
      else none)

abbrev negated_test : Bytes → Option Bytes → Parsed (Option Bytes)
negated_test variable none = ok none
negated_test variable (some expression) =
    regex_test variable (strip_prefix (trim expression) (codes "/"))

unfoldable pub regex_lambda_pattern : Bytes → Bytes → Bool → Parsed (Option Bytes)
unfolding regex_end trim strip_prefix bytes_eq
regex_lambda_pattern expression variable true =
    regex_test variable (strip_prefix (trim expression) (codes "/"))
regex_lambda_pattern expression variable false =
    negated_test variable (strip_prefix (trim expression) (codes "!"))

-- `input[1..input.len() - 1]`, for a text with this first byte after which `rest` comes backwards.
abbrev unquote : ℕ → Bytes → Parsed Bytes
unquote quote [] = panicked
unquote quote (last ∷ inner) =
    if last == quote then ok (reverse inner) else refused "expected string literal"

unfoldable pub parse_static_string : Bytes → Parsed Bytes
parse_static_string [] = refused "expected string literal"
parse_static_string (quote ∷ rest) =
    if quote == b'\'' || quote == b'"'
    then unquote quote (reverse rest)
    else refused "expected string literal"

abbrev comparison_sides : Bytes → Option (Bytes × Bytes) → Parsed (Option Bytes)
comparison_sides variable none = ok none
comparison_sides variable (some (left, right)) =
    if bytes_eq (trim left) variable
    then parse_static_string (trim right) >>= (λ value. ok (some value))
    else ok none

unfoldable pub comparison_lambda_value : Bytes → Bytes → Bytes → Parsed (Option Bytes)
unfolding parse_static_string trim split_once bytes_eq
comparison_lambda_value expression variable operator =
    comparison_sides variable (split_once expression operator)

abbrev after_value : Option Bytes → Parsed (Option (List Bytes)) → Parsed (Option (List Bytes))
after_value none more = ok none
after_value (some value) more = do
  values ← more
  ok (elim values [ none ↦ none | some vs ↦ some (value ∷ vs) ])

unfoldable pub comparison_values : Bytes → Bytes → List Bytes → Parsed (Option (List Bytes))
unfolding comparison_lambda_value
comparison_values variable operator [] = ok (some [])
comparison_values variable operator (part ∷ parts) =
    comparison_lambda_value (trim part) variable operator
    >>= (λ value. after_value value (comparison_values variable operator parts))

unfoldable pub comparison_lambda_values :
    Bytes → Bytes → Bytes → Bytes → Parsed (Option (List Bytes))
unfolding comparison_values split_text
comparison_lambda_values expression variable operator separator =
    comparison_values variable operator (split_text separator 0 expression)

-- The first alternative that applies.
abbrev or_else :
    {A : Type 0}
    → (A → LambdaPredicate)
    → Parsed (Option A)
    → Parsed LambdaPredicate
    → Parsed LambdaPredicate
or_else make first second = first >>= (λ found. elim found [ none ↦ second | some a ↦ ok (make a) ])

abbrev predicate_of : Bytes → Bytes → Parsed LambdaPredicate
predicate_of variable expression =
    or_else regex_matches (regex_lambda_pattern expression variable true) (
      or_else regex_not_matches (regex_lambda_pattern expression variable false) (
        or_else eq_any (comparison_lambda_values expression variable (codes "==") (codes "||")) (
          or_else ne_all (comparison_lambda_values expression variable (codes "!=") (codes "&&"))
            (refused "unsupported lambda predicate"))))

abbrev lambda_sides : Option (Bytes × Bytes) → Parsed LambdaPredicate
lambda_sides none = refused "expected lambda expression"
lambda_sides (some (variable, expression)) =
    if is_identifier (trim variable)
    then predicate_of (trim variable) (trim expression)
    else refused "invalid lambda parameter"

unfoldable pub parse_lambda : Bytes → Parsed LambdaPredicate
unfolding regex_lambda_pattern comparison_lambda_values is_identifier split_once trim
parse_lambda input = lambda_sides (split_once input (codes "=>"))

module _ {R : Type 0} where
  unfoldable pub string_args : List Bytes → Parsed (RuleArgs R)
  unfolding bounded
  string_args [] = ok RuleArgs.nil
  string_args (value ∷ values) = do
    kept ← bounded value max_profile_string_bytes "string literal exceeds limit"
    arguments ← string_args values
    ok (RuleArgs.cons (RuleExpr.string kept) arguments)

  abbrev regex_args : Bytes → Parsed (RuleArgs R)
  regex_args pattern_text = do
    kept ← bounded pattern_text max_regex_pattern_bytes "regex literal exceeds limit"
    ok (RuleArgs.cons (RuleExpr.string kept) RuleArgs.nil)

  unfoldable pub into_filter_call_args : LambdaPredicate → Parsed (BuiltinFunction × RuleArgs R)
  unfolding string_args bounded
  into_filter_call_args (eq_any values) =
      string_args values >>= (λ arguments. ok (BuiltinFunction.filter_equals, arguments))
  into_filter_call_args (ne_all values) =
      string_args values >>= (λ arguments. ok (BuiltinFunction.filter_not_equals, arguments))
  into_filter_call_args (regex_matches pattern_text) =
      regex_args pattern_text >>= (λ arguments. ok (BuiltinFunction.filter_matches, arguments))
  into_filter_call_args (regex_not_matches pattern_text) =
      regex_args pattern_text >>= (λ arguments. ok (BuiltinFunction.filter_not_matches, arguments))

  unfoldable pub into_find_index_call_args : LambdaPredicate → RuleExpr R → Parsed (RuleArgs R)
  unfolding string_args
  into_find_index_call_args (eq_any values) receiver = do
    arguments ← string_args values
    ok (RuleArgs.cons receiver arguments)
  into_find_index_call_args _ receiver = refused "unsupported findIndex predicate"
