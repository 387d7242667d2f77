-- ===== src/Profile/Meaning/Verdict.antt =====
-- The runs and the verdicts of `DefaultRuleEvaluator` in crates/core/src/profile.rs against the
-- meaning of rule expressions.
use pdfv.Base.{
  ℕ, ◌+◌, ◌≤◌, Bool, true, false, Option, ◌≡◌, ◌↔◌, refl, ap, ◌∙◌, arith, if◌then◌else◌,
}
use pdfv.Limits.{ResourceLimits}
use pdfv.Profile.Failure.{Checked, ok}
use pdfv.Profile.Failure as Failure
use pdfv.Profile.Arithmetic.{Arithmetic, RegexEngine}
use pdfv.Profile.Rule.{RuleExpr}
use pdfv.Profile.Value.{ModelValue, expect_bool}
use pdfv.Profile.Objects.{Objects}
use pdfv.Profile.Budget.{Evaluation, max_rule_instructions}
use pdfv.Profile.Eval.{eval, evaluate, RuleOutcome, passed, failed}
use pdfv.Profile.Meaning as Meaning
use pdfv.Profile.Meaning.Runs.{Outcome, returned, raised}
use pdfv.Profile.Meaning.Sound.{eval-Found}
use pdfv.Profile.Meaning.Calls.{expect_bool-eq-ok}
use pdfv.Profile.Meaning.Complete.{eval-Runs}
use pdfv.Profile.Meaning.Height.{height, HasRoom}

module _ {A : Type 0} {P : A → ℕ → Type 0} {n : ℕ} where
  Outcome-value :
      {a : A} {k : ℕ}
      → Outcome P n (ok a, k)
      → (c : ℕ) × (k ≡ n + c) × (k ≤ max_rule_instructions) × P a c
  Outcome-value (returned c e room p) = (c, e, room, p)

  Outcome-count :
      {r : Checked A × ℕ} → Outcome P n r → (n ≤ r.1) × (r.1 ≤ max_rule_instructions + 1)
  Outcome-count (returned c e room p) = (omega arith, omega arith)
  Outcome-count (raised h k) = (h, k)

module _ {A : Type 0} {P : A → ℕ → Type 0} where
  Outcome-first :
      {r : Checked A × ℕ} {a : A}
      → Outcome P 0 r
      → r.0 ≡ ok a
      → (c : ℕ) × (c ≤ max_rule_instructions) × P a c
  Outcome-first (returned c e room p) h = (c, omega arith, rw (← Failure.ok-injective h) p)
  Outcome-first (raised h k) e = cc

abbrev pub verdict : Bool → RuleOutcome
verdict holds = if holds then passed else failed

verdict-injective : (a b : Bool) → verdict a ≡ verdict b → a ≡ b
verdict-injective true true h = refl
verdict-injective false false h = refl
verdict-injective true false h = cc
verdict-injective false true h = cc

verdict_of_bool :
    (R : Type 0) (b : Bool)
    → Failure.◌>>=◌ (expect_bool {R = R} (ModelValue.bool b)) (λ holds. ok (verdict holds))
      ≡ ok (verdict b)
unfolding expect_bool
verdict_of_bool R b = refl

module _ (arithmetic : Arithmetic) (engine : RegexEngine) (limits : ResourceLimits)
    (objects : Objects arithmetic.F64) (graph : Option objects.Graph)
    (object : objects.Object) where
  open arithmetic use {F64}

  abbrev pub Means : RuleExpr F64 → ModelValue F64 → ℕ → Type 0
  Means = Meaning.Means arithmetic engine limits objects graph object

  abbrev pub run : RuleExpr F64 → ℕ → Evaluation (ModelValue F64)
  run = eval arithmetic engine limits objects graph object

  outcome :
      (e : RuleExpr F64) (depth n : ℕ)
      → n ≤ max_rule_instructions
      → Outcome (Means e) n (run e depth n)
  outcome e depth = (eval-Found arithmetic engine limits objects graph object e depth).finds

  pub eval-count-le :
      (e : RuleExpr F64) (depth n : ℕ)
      → n ≤ max_rule_instructions
      → (n ≤ (run e depth n).1) × ((run e depth n).1 ≤ max_rule_instructions + 1)
  eval-count-le e depth n room = Outcome-count (outcome e depth n room)

  pub eval-Means :
      (e : RuleExpr F64) (depth n : ℕ) {v : ModelValue F64} {k : ℕ}
      → n ≤ max_rule_instructions
      → run e depth n ≡ (ok v, k)
      → (c : ℕ) × (k ≡ n + c) × (k ≤ max_rule_instructions) × Means e v c
  eval-Means e depth n room h = Outcome-value (rw (h) at (outcome e depth n room))

  pub Means-eval :
      {e : RuleExpr F64} {v : ModelValue F64} {c : ℕ} (depth n : ℕ)
      → Means e v c
      → HasRoom limits depth (height e)
      → n + c ≤ max_rule_instructions
      → run e depth n ≡ (ok v, n + c)
  Means-eval depth n D room enough =
      (eval-Runs arithmetic engine limits objects graph object depth D room).runs n enough

  pub evaluate-verdict_iff :
      (test : RuleExpr F64) (holds : Bool)
      → HasRoom limits 0 (height test)
      → (evaluate arithmetic engine limits objects graph object test ≡ ok (verdict holds))
        ↔ ((c : ℕ) × (c ≤ max_rule_instructions) × Means test (ModelValue.bool holds) c)
  unfolding evaluate
  evaluate-verdict_iff test holds room = (
    (λ h.
        let (v, first, rest) = Failure.>>=-eq-ok (run test 0 0).0 _ h in
        let (b, second, last) = Failure.>>=-eq-ok (expect_bool v) _ rest in
        let (c, enough, D) = Outcome-first (outcome test 0 0 (omega arith)) first in
        let same : v ≡ ModelValue.bool holds =
          expect_bool-eq-ok v second
          ∙ ap (λ b. ModelValue.bool b) (verdict-injective b holds (Failure.ok-injective last)) in
        (c, enough, rw (← same) D)),
    (λ (c, enough, D). rw (Means-eval 0 0 D room (omega arith)) (verdict_of_bool F64 holds)),
  )
