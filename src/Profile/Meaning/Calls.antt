-- ===== src/Profile/Meaning/Calls.antt =====
-- What a successful run of a call of crates/core/src/profile.rs has computed: the arguments, and
-- then what the function makes of their values.
use pdfv.Base.{
  ℕ, suc, ◌+◌, Bool, true, false, Option, List, [], ◌∷◌, ◌≡◌, refl, String, arith, if◌then◌else◌,
}
use pdfv.Limits.{ResourceLimits}
use pdfv.Profile.Failure.{Checked, ok}
use pdfv.Profile.Failure as Failure
use pdfv.Profile.Arithmetic.{Arithmetic, RegexEngine}
use pdfv.Profile.Rule.{BuiltinFunction, RuleExpr, RuleArgs}
use pdfv.Profile.Value.{ModelValue, expect_bool}
use pdfv.Profile.Objects.{Objects}
use pdfv.Profile.Budget.{Evaluation, ◌>>=◌, lift}
use pdfv.Profile.Args.{
  bool_of, eval_single_arg, eval_two_args, eval_two_string_args, eval_string_args,
  eval_boolean_fold, expect_string,
}
use pdfv.Profile.Eval.{eval_collection, eval_filter, eval_call}
use pdfv.Profile.Meaning as Meaning
use pdfv.Profile.Meaning.{
  NeedsAll, NeedsBoth, one_of, pair_of, string_pair_of, strings_of, collection_of, apply_call,
  filter_of,
}
use pdfv.Profile.Meaning.Runs.{Found, Found-bind, Found-lift, Found-mono, Found-then, Found-check}

module _ {R : Type 0} where
  pub expect_bool-eq-ok :
      (v : ModelValue R) {b : Bool} → expect_bool v ≡ ok b → v ≡ ModelValue.bool b
  unfolding expect_bool
  expect_bool-eq-ok (ModelValue.bool value) h = cc
  expect_bool-eq-ok _ h = cc

module _ (arithmetic : Arithmetic) (engine : RegexEngine) (limits : ResourceLimits)
    (objects : Objects arithmetic.F64) (graph : Option objects.Graph)
    (object : objects.Object) where
  open arithmetic use {F64}

  abbrev Means : RuleExpr F64 → ModelValue F64 → ℕ → Type 0
  Means = Meaning.Means arithmetic engine limits objects graph object

  abbrev MeansAll : RuleArgs F64 → List (ModelValue F64) → ℕ → Type 0
  MeansAll = Meaning.MeansAll arithmetic engine limits objects graph object

  abbrev MeansFold : Bool → RuleArgs F64 → Bool → ℕ → Type 0
  MeansFold = Meaning.MeansFold arithmetic engine limits objects graph object

  -- Each evaluation finds a value that its expression means.
  pub data FoundAll : RuleArgs F64 → List (Evaluation (ModelValue F64)) → Type 0 where
    found_nil : FoundAll RuleArgs.nil []
    found_cons :
        {e : RuleExpr F64} {es : RuleArgs F64} {m : Evaluation (ModelValue F64)}
        {ms : List (Evaluation (ModelValue F64))}
        → Found (Means e) m
        → FoundAll es ms
        → FoundAll (RuleArgs.cons e es) (m ∷ ms)

  -- Values of all the arguments, from which `f` makes `a`.
  abbrev From : {A : Type 0} → (List (ModelValue F64) → Checked A) → RuleArgs F64 → A → ℕ → Type 0
  From f es a c = (vs : List (ModelValue F64)) × MeansAll es vs c × (f vs ≡ ok a)

  recount :
      {es : RuleArgs F64} {vs : List (ModelValue F64)} {c d : ℕ}
      → c ≡ d
      → MeansAll es vs c
      → MeansAll es vs d
  recount e D = rw (← e) D

  pub bool_of-Found :
      {e : RuleExpr F64} {m : Evaluation (ModelValue F64)}
      → Found (Means e) m
      → Found (λ b. Means e (ModelValue.bool b)) (bool_of m)
  bool_of-Found h = Found-then expect_bool h (λ v c b D k. rw (← expect_bool-eq-ok v k) D)

  eval_single_arg-Found :
      {es : RuleArgs F64} {ms : List (Evaluation (ModelValue F64))}
      → FoundAll es ms
      → Found (From one_of es) (eval_single_arg ms)
  unfolding eval_single_arg
  eval_single_arg-Found (found_cons h found_nil) = Found-mono h (λ v c D.
      (v ∷ [], recount (omega arith) (Meaning.MeansAll.cons D Meaning.MeansAll.nil), refl))
  eval_single_arg-Found found_nil = Found-lift (λ a e. cc)
  eval_single_arg-Found (found_cons _ (found_cons _ _)) = Found-lift (λ a e. cc)

  eval_two_args-Found :
      {es : RuleArgs F64} {ms : List (Evaluation (ModelValue F64))}
      → FoundAll es ms
      → Found (From pair_of es) (eval_two_args ms)
  unfolding eval_two_args
  eval_two_args-Found (found_cons h (found_cons k found_nil)) = Found-bind _ h λ v c D.
      Found-then _ k λ w d r E e. (
        v ∷ w ∷ [],
        recount (omega arith)
            (Meaning.MeansAll.cons D (Meaning.MeansAll.cons E Meaning.MeansAll.nil)),
        e,
      )
  eval_two_args-Found found_nil = Found-lift (λ a e. cc)
  eval_two_args-Found (found_cons _ found_nil) = Found-lift (λ a e. cc)
  eval_two_args-Found (found_cons _ (found_cons _ (found_cons _ _))) = Found-lift (λ a e. cc)

  eval_two_string_args-Found :
      {es : RuleArgs F64} {ms : List (Evaluation (ModelValue F64))}
      → FoundAll es ms
      → Found (From string_pair_of es) (eval_two_string_args ms)
  unfolding eval_two_string_args
  eval_two_string_args-Found h =
      Found-then _ (eval_two_args-Found h) λ pair c r (vs, D, k) e. (vs, D, rw (k) e)

  eval_string_args-Found :
      (message : String) {es : RuleArgs F64} {ms : List (Evaluation (ModelValue F64))}
      → FoundAll es ms
      → Found (From (strings_of message) es) (eval_string_args message ms)
  unfolding eval_string_args
  eval_string_args-Found message found_nil = Found-lift (λ a e. ([], Meaning.MeansAll.nil, e))
  eval_string_args-Found message (found_cons h hs) = Found-bind _ h λ v c D.
      Found-check (expect_string message v) _ λ value e.
        Found-then _ (eval_string_args-Found message hs)
          λ values d r (vs, E, f) g. (v ∷ vs, Meaning.MeansAll.cons D E, rw (e, f) g)

  eval_collection-Found :
      (missing message : String) {es : RuleArgs F64} {ms : List (Evaluation (ModelValue F64))}
      → FoundAll es ms
      → Found (From (collection_of missing message) es) (eval_collection missing message ms)
  unfolding eval_collection
  eval_collection-Found missing message found_nil = Found-lift (λ a e. cc)
  eval_collection-Found missing message (found_cons h hs) = Found-bind _ h λ v c D.
      Found-then _ (eval_string_args-Found message hs)
        λ values d r (vs, E, f) g. (v ∷ vs, Meaning.MeansAll.cons D E, rw (f) g)

  -- A function of what the argument values give.
  then_apply :
      {A : Type 0} {es : RuleArgs F64} {m : Evaluation A} (f : List (ModelValue F64) → Checked A)
      (g : A → Checked (ModelValue F64))
      → Found (From f es) m
      → Found (From (λ vs. Failure.◌>>=◌ (f vs) g) es) (m >>= λ a. lift (g a))
  then_apply f g h = Found-then g h (λ a c b (vs, D, e) k. (vs, D, rw (e) k))

  abbrev Folds : Bool → RuleArgs F64 → ModelValue F64 → ℕ → Type 0
  Folds all es v c = (b : Bool) × (v ≡ ModelValue.bool b) × MeansFold all es b c

  settled :
      {all b : Bool} {es : RuleArgs F64} {c : ℕ} (v : ModelValue F64)
      → MeansFold all es b c
      → ◌≡◌ {A = Checked (ModelValue F64)} (ok (ModelValue.bool b)) (ok v)
      → Folds all es v (c + 0)
  settled {all} {b} {es} {c} v D e =
      let same : c ≡ c + 0 = omega arith in (b, ground arith, rw (← same) D)

  after_true :
      {e : RuleExpr F64} {es : RuleArgs F64} {rest : Evaluation (ModelValue F64)} (b : Bool) {c : ℕ}
      → Found (Folds true es) rest
      → Means e (ModelValue.bool b) c
      → Found
          (λ v d. Folds true (RuleArgs.cons e es) v (c + d))
          (if b then rest else lift (ok (ModelValue.bool false)))
  after_true true h D = Found-mono h (λ v d (b, e, F). (b, e, Meaning.MeansFold.next D F))
  after_true false h D = Found-lift (λ v e. settled v (Meaning.MeansFold.settled_false D) e)

  after_false :
      {e : RuleExpr F64} {es : RuleArgs F64} {rest : Evaluation (ModelValue F64)} (b : Bool) {c : ℕ}
      → Found (Folds false es) rest
      → Means e (ModelValue.bool b) c
      → Found
          (λ v d. Folds false (RuleArgs.cons e es) v (c + d))
          (if b then lift (ok (ModelValue.bool true)) else rest)
  after_false false h D = Found-mono h (λ v d (b, e, F). (b, e, Meaning.MeansFold.next D F))
  after_false true h D = Found-lift (λ v e. settled v (Meaning.MeansFold.settled_true D) e)

  eval_boolean_fold-Found :
      (all : Bool) {es : RuleArgs F64} {ms : List (Evaluation (ModelValue F64))}
      → FoundAll es ms
      → Found (Folds all es) (eval_boolean_fold all ms)
  unfolding eval_boolean_fold
  eval_boolean_fold-Found true found_nil =
      Found-lift (λ a e. (true, ground arith, Meaning.MeansFold.none_left))
  eval_boolean_fold-Found false found_nil =
      Found-lift (λ a e. (false, ground arith, Meaning.MeansFold.none_left))
  eval_boolean_fold-Found true (found_cons h hs) =
      Found-bind _ (bool_of-Found h) (λ b c D. after_true b (eval_boolean_fold-Found true hs) D)
  eval_boolean_fold-Found false (found_cons h hs) =
      Found-bind _ (bool_of-Found h) (λ b c D. after_false b (eval_boolean_fold-Found false hs) D)

  -- What a call means, for any of the functions.
  abbrev Calls : BuiltinFunction → RuleArgs F64 → ModelValue F64 → ℕ → Type 0
  Calls function es v c = Means (RuleExpr.call function es) v (suc c)

  called :
      {function : BuiltinFunction} {es : RuleArgs F64} {m : Evaluation (ModelValue F64)}
      → NeedsAll function
      → Found (From (apply_call arithmetic engine limits objects graph object function) es) m
      → Found (Calls function es) m
  called n h = Found-mono h (λ v c (vs, D, e). Meaning.Means.call_values n D e)

  pub eval_call-Found :
      (function : BuiltinFunction) {es : RuleArgs F64} {ms : List (Evaluation (ModelValue F64))}
      → FoundAll es ms
      → Found
          (Calls function es)
          (eval_call arithmetic engine limits (objects.parse_facts object) function ms)
  unfolding eval_call apply_call eval_filter
  eval_call-Found BuiltinFunction.has_parse_fact h =
      called tt (then_apply _ _ (eval_single_arg-Found h))
  eval_call-Found BuiltinFunction.size h = called tt (then_apply _ _ (eval_single_arg-Found h))
  eval_call-Found BuiltinFunction.is_empty h = called tt (then_apply _ _ (eval_single_arg-Found h))
  eval_call-Found BuiltinFunction.abs h = called tt (then_apply _ _ (eval_single_arg-Found h))
  eval_call-Found BuiltinFunction.contains h = called tt (then_apply _ _ (eval_two_args-Found h))
  eval_call-Found BuiltinFunction.slice h = called tt (then_apply _ _ (eval_two_args-Found h))
  eval_call-Found BuiltinFunction.index_of h = called tt (then_apply _ _ (eval_two_args-Found h))
  eval_call-Found BuiltinFunction.matches h =
      called tt (then_apply _ _ (eval_two_string_args-Found h))
  eval_call-Found BuiltinFunction.search_text h =
      called tt (then_apply _ _ (eval_two_string_args-Found h))
  eval_call-Found BuiltinFunction.split h =
      called tt (then_apply _ _ (eval_two_string_args-Found h))
  eval_call-Found BuiltinFunction.find_index_equals h =
      called tt (then_apply _ _ (eval_collection-Found _ _ h))
  eval_call-Found BuiltinFunction.all h =
      Found-mono (eval_boolean_fold-Found true h) (λ v c (b, e, D). rw e (Meaning.Means.call_all D))
  eval_call-Found BuiltinFunction.exists h =
      Found-mono (eval_boolean_fold-Found false h)
        (λ v c (b, e, D). rw e (Meaning.Means.call_exists D))
  eval_call-Found BuiltinFunction.filter_equals h =
      called tt (then_apply _ _ (eval_collection-Found _ _ h))
  eval_call-Found BuiltinFunction.filter_not_equals h =
      called tt (then_apply _ _ (eval_collection-Found _ _ h))
  eval_call-Found BuiltinFunction.filter_matches h =
      called tt (then_apply _ _ (eval_collection-Found _ _ h))
  eval_call-Found BuiltinFunction.filter_not_matches h =
      called tt (then_apply _ _ (eval_collection-Found _ _ h))
