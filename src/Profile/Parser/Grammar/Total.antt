-- ===== src/Profile/Parser/Grammar/Total.antt =====
-- The grammar of crates/core/src/profile.rs on all texts, from the operators up to
-- `parse_imported_expr`.
use pdfv.Base.{
  ℕ, zero, suc, ◌<◌, Bytes, Option, [], ◌∷◌, ◌≡◌, inl, inr, refl, arith, length, length-drop,
  Bool-cases,
}
use pdfv.Cursor.{is_prefix}
use pdfv.Cursor.Moves.{is_prefix-length}
use pdfv.Name.{codes}
use pdfv.Profile.Rule.{RuleExpr}
use pdfv.Profile.Parser.Outcome.{Parsed}
use pdfv.Profile.Parser.Run.{Run, done}
use pdfv.Profile.Parser.Tokens.{skip_ws}
use pdfv.Profile.Parser.Tokens.Progress.{skip_ws-le, Moves, read_operator-Moves}
use pdfv.Profile.Parser.Meets.{Leaves, Meets, answered, returned, raised, Meets-if, Meets-bind}
use pdfv.Profile.Parser.Grammar.{
  parse_multiplicative, parse_additive, parse_shift, bitwise_operator, parse_bitwise_and,
  parse_comparison, parse_and, parse_or,
}
use pdfv.Profile.Parser.Grammar.{
  parse_conditional, is_unsupported, at_end, parse_imported_expr, multiplicative_operators,
  additive_operators, shift_operators, comparison_operators, and_operators, or_operators,
}
use pdfv.Profile.Parser.Grammar.Ends.{if_taken-Meets, if_operator-Meets, Ends, chain-Ends}
use pdfv.Profile.Parser.Grammar.Primary.{parse_unary-Ends}

bitwise_operator-Moves : (text : Bytes) → Moves text (bitwise_operator text)
unfolding bitwise_operator
bitwise_operator-Moves text = elim (Bool-cases (is_prefix (codes "&") (skip_ws text))) [
  | inr absent ↦ rw absent (skip_ws-le text)
  | inl here ↦ elim (Bool-cases (is_prefix (codes "&&") (skip_ws text))) [
    | inl double ↦ rw (here, double) (skip_ws-le text)
    | inr single ↦
        rw (here, single)
          (omega (
            arith,
            is_prefix-length (codes "&") (skip_ws text) here,
            length-drop 1 (skip_ws text),
            skip_ws-le text,
          ))
  ]
]

module _ {R : Type 0} (parse_f64 : Bytes → Option R) where
  module _ (n : ℕ) (conditional : Bytes → Run (RuleExpr R × Bytes))
      (ends : (text : Bytes)
        → length text < n
        → Meets (Leaves (length text)) (conditional text)) where
    parse_shift-Ends : Ends parse_f64 n (parse_shift parse_f64 conditional)
    unfolding parse_shift parse_additive parse_multiplicative
    parse_shift-Ends =
        chain-Ends parse_f64 n _ _ (read_operator-Moves shift_operators (omega arith, tt)) (
          chain-Ends parse_f64 n _ _
            (read_operator-Moves additive_operators (omega arith, (omega arith, tt)))
            (chain-Ends parse_f64 n _ _
              (read_operator-Moves multiplicative_operators
                (omega arith, (omega arith, (omega arith, tt))))
              (parse_unary-Ends parse_f64 n conditional ends)))

    parse_bitwise_and-Ends : Ends parse_f64 n (parse_bitwise_and parse_f64 conditional)
    unfolding parse_bitwise_and
    parse_bitwise_and-Ends = chain-Ends parse_f64 n _ _ bitwise_operator-Moves parse_shift-Ends

    parse_comparison-Ends : Ends parse_f64 n (parse_comparison parse_f64 conditional)
    unfolding parse_comparison
    parse_comparison-Ends text small =
        Meets-bind _ (parse_bitwise_and-Ends text small) λ (left, rest) h.
          if_operator-Meets rest _ _ _
            (read_operator-Moves comparison_operators
              (
                omega arith,
                (omega arith, (omega arith, (omega arith, (omega arith, (omega arith, tt))))),
              )
              rest)
            (λ op after less.
              Meets-bind _ (parse_bitwise_and-Ends after (omega arith))
                λ (right, last) k. returned (omega arith))
            (λ after less. returned (omega arith))

    pub parse_or-Ends : Ends parse_f64 n (parse_or parse_f64 conditional)
    unfolding parse_or parse_and
    parse_or-Ends =
        chain-Ends parse_f64 n _ _ (read_operator-Moves or_operators (omega arith, tt)) (
          chain-Ends parse_f64 n _ _ (read_operator-Moves and_operators (omega arith, tt))
            parse_comparison-Ends)

  parse_conditional-Ends :
      (fuel : ℕ) (text : Bytes)
      → length text < fuel
      → Meets (Leaves (length text)) (parse_conditional parse_f64 fuel text)
  unfolding parse_conditional
  parse_conditional-Ends zero text h = absurd (omega arith)
  parse_conditional-Ends (suc fuel) text h =
      Meets-bind _
        (parse_or-Ends fuel (parse_conditional parse_f64 fuel) (parse_conditional-Ends fuel) text
          (omega arith))
        λ (e, rest) k.
          if_taken-Meets (codes "?") rest _ _
            (λ after less.
              Meets-bind _ (parse_conditional-Ends fuel after (omega arith))
                λ (when_true, middle) k'.
                  if_taken-Meets (codes ":") middle _ _
                    (λ next fewer.
                      Meets-bind _ (parse_conditional-Ends fuel next (omega arith))
                        λ (when_false, last) l. returned (omega arith))
                    (λ _ _. raised))
            (λ after less. returned (omega arith))

  at_end-Meets : (e : RuleExpr R) (rest : Bytes) → Meets (λ _. Unit {0}) (at_end parse_f64 e rest)
  at_end-Meets e [] = returned tt
  at_end-Meets e (b ∷ rest) = raised

  imported-Meets : (input : Bytes) → Meets (λ _. Unit {0}) (parse_imported_expr parse_f64 input)
  unfolding parse_imported_expr
  imported-Meets input =
      Meets-bind _ (parse_conditional-Ends (suc (length input)) input (omega arith)) λ (e, rest) h.
        Meets-if (is_unsupported parse_f64 e) (λ _. returned tt)
          (λ _. at_end-Meets e (skip_ws rest))

  ended : {A : Type 0} {P : A → Type 0} {m : Run A} → Meets P m → (p : Parsed A) × (m ≡ done p)
  ended (answered {m} h) = (m, refl)

  -- For every text the parser ends, whatever the reading of numbers is: the fuel of each loop is
  -- enough, and it answers with an expression, with a reason to refuse the text, or with the panic
  -- of a slice inside a character or of an empty quotation.
  pub parse_imported_expr_total :
      (input : Bytes) → (p : Parsed (RuleExpr R)) × (parse_imported_expr parse_f64 input ≡ done p)
  parse_imported_expr_total input = ended (imported-Meets input)
