-- ===== src/Profile/Budget.antt =====
-- The monad of `DefaultRuleEvaluator` of crates/core/src/profile.rs: fallible code that counts the
-- instructions. The count is kept when an error is returned.
use pdfv.Base.{ℕ, ◌+◌, ◌||◌, Bool, ltb, if◌then◌else◌}
use Prim.Native.Nat.{min}
use pdfv.Error.{u64_modulus}
use pdfv.Limits.{ResourceLimits}
use pdfv.Profile.Failure.{Checked, ok, err, over_budget}

abbrev pub Evaluation : Type 0 → Type 0
Evaluation A = ℕ → Checked A × ℕ

abbrev pub resume : {A B : Type 0} → Checked A × ℕ → (A → Evaluation B) → Checked B × ℕ
resume (ok a, count) f = f a count
resume (err e, count) f = (err e, count)

infixl 5 ◌>>=◌
abbrev pub ◌>>=◌ : {A B : Type 0} → Evaluation A → (A → Evaluation B) → Evaluation B
◌>>=◌ m f count = resume (m count) f

-- Code that evaluates nothing.
abbrev pub lift : {A : Type 0} → Checked A → Evaluation A
lift result count = (result, count)

abbrev pub max_rule_instructions : ℕ
max_rule_instructions = 512

abbrev pub max_rule_depth : ℕ
max_rule_depth = 32

-- `depth.saturating_add(1)` on `u32`
abbrev pub deeper : ℕ → ℕ
deeper depth = min 4294967295 (depth + 1)

abbrev pub too_deep : ResourceLimits → ℕ → Bool
too_deep limits depth = ltb max_rule_depth depth || ltb limits.max_object_depth depth

-- The head of `eval`: counts one instruction, and checks both budgets.
unfoldable pub step : {A : Type 0} → ResourceLimits → ℕ → Evaluation A → Evaluation A
step limits depth body count =
    if ltb (count + 1) u64_modulus
    then if ltb max_rule_instructions (count + 1)
      then (err (over_budget "instructions"), count + 1)
      else if too_deep limits depth
      then (err (over_budget "depth"), count + 1)
      else body (count + 1)
    else (err (over_budget "instructions"), count)
