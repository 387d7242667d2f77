-- ===== src/Profile/Meaning/Sound.antt =====
-- What a successful run of the evaluator of crates/core/src/profile.rs has computed, for every
-- expression.
use pdfv.Base.{ℕ, suc, ◌+◌, Bool, Option, List, ◌≡◌, arith}
use pdfv.Limits.{ResourceLimits}
use pdfv.Profile.Failure.{Checked, ok}
use pdfv.Profile.Failure as Failure
use pdfv.Profile.Arithmetic.{Arithmetic, RegexEngine}
use pdfv.Profile.Rule.{BinaryOp, RuleExpr, RuleArgs}
use pdfv.Profile.Value.{ModelValue}
use pdfv.Profile.Objects.{Objects}
use pdfv.Profile.Budget.{Evaluation, ◌>>=◌, lift, deeper, step}
use pdfv.Profile.Args.{bool_of}
use pdfv.Profile.Eval.{eval_and, eval_or, eval_binary, eval, eval_args}
use pdfv.Profile.Meaning as Meaning
use pdfv.Profile.Meaning.{
  NeedsAll, NeedsBoth, one_of, pair_of, string_pair_of, strings_of, collection_of, apply_call,
  filter_of,
}
use pdfv.Profile.Meaning.Runs.{
  Found, Found-bind, Found-lift, Found-mono, Found-step, Found-then, Found-if,
}
use pdfv.Profile.Meaning.Calls as Calls
use pdfv.Profile.Meaning.Calls.{found_nil, found_cons, bool_of-Found, eval_call-Found}

module _ (arithmetic : Arithmetic) (engine : RegexEngine) (limits : ResourceLimits)
    (objects : Objects arithmetic.F64) (graph : Option objects.Graph)
    (object : objects.Object) where
  open arithmetic use {F64}

  abbrev Means : RuleExpr F64 → ModelValue F64 → ℕ → Type 0
  Means = Meaning.Means arithmetic engine limits objects graph object

  abbrev FoundAll : RuleArgs F64 → List (Evaluation (ModelValue F64)) → Type 0
  FoundAll = Calls.FoundAll arithmetic engine limits objects graph object

  -- The value that an operator returns without its right operand.
  left_only :
      {e : RuleExpr F64} {b : Bool} {c : ℕ} (v : ModelValue F64)
      → Means e (ModelValue.bool b) (suc c)
      → ◌≡◌ {A = Checked (ModelValue F64)} (ok (ModelValue.bool b)) (ok v)
      → Means e v (suc (c + 0))
  left_only {c} v D e =
      let same : c ≡ c + 0 = omega arith in rw (← Failure.ok-injective e, ← same) D

  right_bool :
      {e r : RuleExpr F64} {m : Evaluation (ModelValue F64)} (c : ℕ)
      → Found (Means r) m
      → ((b : Bool) (d : ℕ)
          → Means r (ModelValue.bool b) d
          → Means e (ModelValue.bool b) (suc (c + d)))
      → Found (λ v d. Means e v (suc (c + d))) (bool_of m >>= λ b. lift (ok (ModelValue.bool b)))
  right_bool c h k =
      Found-then _ (bool_of-Found arithmetic engine limits objects graph object h)
        (λ b c v D e. rw (← Failure.ok-injective e) (k b c D))

  eval_and-Found :
      {l r : RuleExpr F64} {m n : Evaluation (ModelValue F64)}
      → Found (Means l) m
      → Found (Means r) n
      → Found (λ v c. Means (RuleExpr.binary BinaryOp.and l r) v (suc c)) (eval_and m n)
  unfolding eval_and
  eval_and-Found h k =
      Found-bind _ (bool_of-Found arithmetic engine limits objects graph object h) λ b c D.
        Found-if b (λ e. right_bool _ k (λ b' d E. Meaning.Means.and_both (rw (e) at D) E))
          (λ e. Found-lift (λ v g. left_only v (Meaning.Means.and_left (rw (e) at D)) g))

  eval_or-Found :
      {l r : RuleExpr F64} {m n : Evaluation (ModelValue F64)}
      → Found (Means l) m
      → Found (Means r) n
      → Found (λ v c. Means (RuleExpr.binary BinaryOp.or l r) v (suc c)) (eval_or m n)
  unfolding eval_or
  eval_or-Found h k =
      Found-bind _ (bool_of-Found arithmetic engine limits objects graph object h) λ b c D.
        Found-if b (λ e. Found-lift (λ v g. left_only v (Meaning.Means.or_left (rw (e) at D)) g))
          (λ e. right_bool _ k (λ b' d E. Meaning.Means.or_both (rw (e) at D) E))

  eval_binary-Found :
      (op : BinaryOp) {l r : RuleExpr F64} {m n : Evaluation (ModelValue F64)}
      → Found (Means l) m
      → Found (Means r) n
      → Found (λ v c. Means (RuleExpr.binary op l r) v (suc c)) (eval_binary arithmetic op m n)
  unfolding eval_binary
  eval_binary-Found BinaryOp.and h k = eval_and-Found h k
  eval_binary-Found BinaryOp.or h k = eval_or-Found h k
  eval_binary-Found BinaryOp.add h k =
      Found-bind _ h (λ v c D. Found-then _ k (λ w d u E e. Meaning.Means.both tt D E e))
  eval_binary-Found _ h k =
      Found-bind _ h (λ v c D. Found-then _ k (λ w d u E e. Meaning.Means.both tt D E e))

  -- A run of one expression counts that expression, and finds what it means.
  literal :
      {e : RuleExpr F64} {v : ModelValue F64} (depth : ℕ)
      → Means e v 1
      → Found (Means e) (step limits depth (lift (ok v)))
  literal depth D = Found-step _ _ _ (Found-lift (λ w e. rw (← Failure.ok-injective e) D))

  mutual
    unfolding eval eval_args

    pub eval-Found :
        (e : RuleExpr F64) (depth : ℕ)
        → Found (Means e) (eval arithmetic engine limits objects graph object e depth)
    eval-Found (RuleExpr.bool value) depth = literal depth Meaning.Means.bool
    eval-Found (RuleExpr.number value) depth = literal depth Meaning.Means.number
    eval-Found (RuleExpr.string value) depth = literal depth Meaning.Means.string
    eval-Found RuleExpr.null depth = literal depth Meaning.Means.null
    eval-Found (RuleExpr.property path) depth =
        Found-step _ _ _ (Found-lift (λ v e. Meaning.Means.property_value e))
    eval-Found (RuleExpr.unary op operand) depth =
        Found-step _ _ _
          (Found-then _ (eval-Found operand (deeper depth)) (λ v c w D e. Meaning.Means.unary D e))
    eval-Found (RuleExpr.binary op l r) depth =
        Found-step _ _ _
          (eval_binary-Found op (eval-Found l (deeper depth)) (eval-Found r (deeper depth)))
    eval-Found (RuleExpr.conditional condition t f) depth =
        let first = eval-Found t (deeper depth) in
        let second = eval-Found f (deeper depth) in
        Found-step _ _ _ (
          Found-bind _
            (bool_of-Found arithmetic engine limits objects graph object
              (eval-Found condition (deeper depth)))
            λ b c D.
              Found-if b (λ e. Found-mono first (λ v d E. Meaning.Means.when_true (rw (e) at D) E))
                (λ e. Found-mono second (λ v d E. Meaning.Means.when_false (rw (e) at D) E)))
    eval-Found (RuleExpr.call function arguments) depth = Found-step _ _ _ (
        eval_call-Found arithmetic engine limits objects graph object function
          (eval_args-Found arguments (deeper depth)))
    eval-Found (RuleExpr.unsupported fragment reason) depth =
        Found-step _ _ _ (Found-lift (λ v e. cc))

    eval_args-Found :
        (es : RuleArgs F64) (depth : ℕ)
        → FoundAll es (eval_args arithmetic engine limits objects graph object es depth)
    eval_args-Found RuleArgs.nil depth = found_nil
    eval_args-Found (RuleArgs.cons e es) depth =
        found_cons (eval-Found e depth) (eval_args-Found es depth)
