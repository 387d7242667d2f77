-- ===== src/Profile/Parser/Grammar/Ends.antt =====
-- The loops of the grammar of crates/core/src/profile.rs on texts that are short enough for the fuel,
-- and the text that they leave.
use pdfv.Base.{
  ℕ, zero, suc, ◌+◌, ◌≤◌, ◌<◌, Bytes, Bool, true, false, Option, ◌≡◌, ◌⊎◌, inl, inr, refl, arith,
  length, Option-cases,
}
use pdfv.Cursor.{is_prefix}
use pdfv.Name.{codes}
use pdfv.Profile.Rule.{RuleExpr, BinaryOp}
use pdfv.Profile.Parser.Run.{Run}
use pdfv.Profile.Parser.Tokens.{skip_ws, consume}
use pdfv.Profile.Parser.Tokens.Progress.{
  consume-true, consume-le, Moves, parse_identifier-Leaves, number_text-Leaves,
}
use pdfv.Profile.Parser.Builtins.{property_name_from_source}
use pdfv.Profile.Parser.Meets.{Leaves, Meets, answered, returned, raised, Meets-bind, Meets-then}
use pdfv.Profile.Parser.Grammar.{
  if_taken, if_operator, chain_loop, chain, parse_number, members_loop, arguments_loop,
  parse_call_args_after_open,
}

module _ {B : Type 0} {P : B → Type 0} where
  pub if_taken-any :
      (taken : Bool × Bytes) (go stop : Bytes → Run B)
      → (taken.0 ≡ true → Meets P (go (taken.1)))
      → Meets P (stop (taken.1))
      → Meets P (if_taken taken go stop)
  if_taken-any (true, after) go stop h k = h refl
  if_taken-any (false, after) go stop h k = k

  -- A token takes its bytes.
  pub if_taken-Meets :
      (token text : Bytes) (go stop : Bytes → Run B)
      → ((after : Bytes) → length token + length after ≤ length text → Meets P (go after))
      → ((after : Bytes) → length after ≤ length text → Meets P (stop after))
      → Meets P (if_taken (consume token text) go stop)
  if_taken-Meets token text go stop h k =
      if_taken-any (consume token text) go stop (λ yes. h _ (consume-true token text yes))
        (k _ (consume-le token text))

  pub if_operator-Meets :
      (text : Bytes) (m : (BinaryOp × Bytes) ⊎ Bytes) (go : BinaryOp → Bytes → Run B)
      (stop : Bytes → Run B)
      → Moves text m
      → ((op : BinaryOp) (after : Bytes) → length after < length text → Meets P (go op after))
      → ((after : Bytes) → length after ≤ length text → Meets P (stop after))
      → Meets P (if_operator m go stop)
  if_operator-Meets text (inl (op, after)) go stop h k l = k op after h
  if_operator-Meets text (inr after) go stop h k l = l after h

module _ {R : Type 0} (parse_f64 : Bytes → Option R) where
  abbrev pub Ends : ℕ → (Bytes → Run (RuleExpr R × Bytes)) → Type 0
  Ends n reader = (text : Bytes) → length text ≤ n → Meets (Leaves (length text)) (reader text)

  module _ (n : ℕ) (operator : Bytes → (BinaryOp × Bytes) ⊎ Bytes)
      (operand : Bytes → Run (RuleExpr R × Bytes))
      (moves : (text : Bytes) → Moves text (operator text)) (ends : Ends n operand) where
    chain_loop-Meets :
        (fuel : ℕ) (left : RuleExpr R) (text : Bytes) (bound : ℕ)
        → length text < fuel
        → length text ≤ n
        → length text ≤ bound
        → Meets (Leaves bound) (chain_loop parse_f64 operator operand fuel left text)
    unfolding chain_loop
    chain_loop-Meets zero left text bound h small le = absurd (omega arith)
    chain_loop-Meets (suc fuel) left text bound h small le =
        if_operator-Meets text (operator text) _ _ (moves text)
          (λ op after less. Meets-bind _ (ends after (omega arith)) λ (right, rest) k.
            chain_loop-Meets fuel _ rest bound (omega arith) (omega arith) (omega arith))
          (λ after less. returned (omega arith))

    pub chain-Ends : Ends n (chain parse_f64 operator operand)
    unfolding chain
    chain-Ends text small = Meets-bind _ (ends text small) λ (left, rest) h.
        chain_loop-Meets (suc (length rest)) left rest (length text) (omega arith) (omega arith) h

  pub parse_number-Ends :
      (text : Bytes) → Meets (Leaves (length text)) (parse_number parse_f64 text)
  unfolding parse_number
  parse_number-Ends text = Meets-bind _ (answered (number_text-Leaves text)) λ (digits, after) h.
      elim (Option-cases (parse_f64 digits)) [
        | inl absent ↦ rw absent raised
        | inr (value, present) ↦ rw present (returned h)
      ]

  pub members_loop-Meets :
      (fuel : ℕ) (text : Bytes) (bound : ℕ)
      → length text < fuel
      → length text ≤ bound
      → Meets (Leaves bound) (members_loop parse_f64 fuel text)
  unfolding members_loop
  members_loop-Meets zero text bound h le = absurd (omega arith)
  members_loop-Meets (suc fuel) text bound h le =
      if_taken-Meets (codes ".") text _ _
        (λ after less.
          Meets-bind _ (answered (parse_identifier-Leaves after)) λ (member, after_member) k.
            if_taken-any (is_prefix (codes "(") (skip_ws after_member), after) _ _
              (λ _. returned (omega arith))
              (Meets-then (property_name_from_source member) _ λ name.
                Meets-bind _
                  (members_loop-Meets fuel after_member bound (omega arith) (omega arith))
                  λ (names, last) k. returned k))
        (λ after less. returned (omega arith))

  -- `conditional` ends on texts that are shorter.
  module _ (n : ℕ) (conditional : Bytes → Run (RuleExpr R × Bytes))
      (ends : (text : Bytes)
        → length text < n
        → Meets (Leaves (length text)) (conditional text)) where
    arguments_loop-Meets :
        (fuel : ℕ) (text : Bytes) (bound : ℕ)
        → length text < fuel
        → length text < n
        → length text ≤ bound
        → Meets (Leaves bound) (arguments_loop parse_f64 conditional fuel text)
    unfolding arguments_loop
    arguments_loop-Meets zero text bound h small le = absurd (omega arith)
    arguments_loop-Meets (suc fuel) text bound h small le =
        Meets-bind _ (ends text small) λ (argument, rest) k.
          if_taken-Meets (codes ")") rest _ _ (λ after less. returned (omega arith))
            λ after less.
              if_taken-Meets (codes ",") after _ _
                (λ next fewer.
                  Meets-bind _
                    (arguments_loop-Meets fuel next bound (omega arith) (omega arith) (omega arith))
                    λ (arguments, last) k'. returned k')
                (λ _ _. raised)

    pub parse_call_args_after_open-Ends :
        (text : Bytes)
        → length text < n
        → Meets (Leaves (length text)) (parse_call_args_after_open parse_f64 conditional text)
    unfolding parse_call_args_after_open
    parse_call_args_after_open-Ends text small =
        if_taken-Meets (codes ")") text _ _ (λ after less. returned (omega arith))
          λ after less.
            arguments_loop-Meets (suc (length after)) after (length text) (omega arith)
              (omega arith) less
