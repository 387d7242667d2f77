-- ===== src/Profile/Meaning/Complete.antt =====
-- Which runs of the evaluator of crates/core/src/profile.rs succeed: those of an expression with a
-- value, when the depth and the instructions that are left suffice.
use pdfv.Base.{ℕ, suc, ◌+◌, Bool, true, false, Option, List, [], ◌∷◌, ◌≡◌, refl, arith}
use pdfv.Limits.{ResourceLimits}
use pdfv.Profile.Failure.{ok}
use pdfv.Profile.Arithmetic.{Arithmetic, RegexEngine}
use pdfv.Profile.Rule.{RuleExpr, RuleArgs}
use pdfv.Profile.Value.{ModelValue}
use pdfv.Profile.Objects.{Objects}
use pdfv.Profile.Budget.{Evaluation, ◌>>=◌, lift, deeper, step}
use pdfv.Profile.Args.{bool_of, eval_boolean_fold}
use pdfv.Profile.Eval.{eval_and, eval_or, eval_binary, eval_call, eval, eval_args}
use pdfv.Profile.Meaning as Meaning
use pdfv.Profile.Meaning.{
  NeedsAll, NeedsBoth, one_of, pair_of, string_pair_of, strings_of, collection_of, apply_call,
  filter_of,
}
use pdfv.Profile.Meaning.Runs.{Runs, Runs-bind, Runs-lift, Runs-then, Runs-eq, Runs-step}
use pdfv.Profile.Meaning.Height.{
  height, heights, HasRoom, not_too_deep, deeper_room, left_room, right_room,
}
use pdfv.Profile.Meaning.Returns.{
  bool_of-Runs, RunsAll, runs_nil, runs_cons, eval_call-Runs, eval_binary-Runs,
}

module _ (arithmetic : Arithmetic) (engine : RegexEngine) (limits : ResourceLimits)
    (objects : Objects arithmetic.F64) (graph : Option objects.Graph)
    (object : objects.Object) where
  open arithmetic use {F64}

  abbrev Means : RuleExpr F64 → ModelValue F64 → ℕ → Type 0
  Means = Meaning.Means arithmetic engine limits objects graph object

  abbrev MeansAll : RuleArgs F64 → List (ModelValue F64) → ℕ → Type 0
  MeansAll = Meaning.MeansAll arithmetic engine limits objects graph object

  abbrev MeansFold : Bool → RuleArgs F64 → Bool → ℕ → Type 0
  MeansFold = Meaning.MeansFold arithmetic engine limits objects graph object

  abbrev run : RuleExpr F64 → ℕ → Evaluation (ModelValue F64)
  run = eval arithmetic engine limits objects graph object

  abbrev run_args : RuleArgs F64 → ℕ → List (Evaluation (ModelValue F64))
  run_args = eval_args arithmetic engine limits objects graph object

  one_step :
      {m : Evaluation (ModelValue F64)} {v : ModelValue F64} {c : ℕ} (depth height : ℕ)
      → HasRoom limits depth height
      → Runs m v c
      → Runs (step limits depth m) v (suc c)
  one_step depth height room h = Runs-step limits depth _ (not_too_deep limits depth height room) h

  bool_result-Runs :
      {m : Evaluation (ModelValue F64)} {b : Bool} {c : ℕ}
      → Runs m (ModelValue.bool b) c
      → Runs
          (◌>>=◌ {B = ModelValue F64} (bool_of m) (λ b. lift (ok (ModelValue.bool b))))
          (ModelValue.bool b)
          c
  bool_result-Runs h = Runs-then _ (bool_of-Runs h) refl

  -- A first operand that settles the result.
  settled :
      {m : Evaluation (ModelValue F64)} {b : Bool} {v : ModelValue F64} {c : ℕ}
      (f : Bool → Evaluation (ModelValue F64))
      → Runs m (ModelValue.bool b) c
      → f b ≡ lift (ok v)
      → Runs (bool_of m >>= f) v c
  settled f h e =
      Runs-eq (Runs-bind {d = 0} f (bool_of-Runs h) (rw e (Runs-lift refl))) (omega arith)

  none_left : (all : Bool) → Runs (eval_boolean_fold {R = F64} all []) (ModelValue.bool all) 0
  unfolding eval_boolean_fold
  none_left true = Runs-lift refl
  none_left false = Runs-lift refl

  fold_next :
      (all : Bool) {m : Evaluation (ModelValue F64)} (ms : List (Evaluation (ModelValue F64)))
      {b : Bool} {c d : ℕ}
      → Runs m (ModelValue.bool all) c
      → Runs (eval_boolean_fold all ms) (ModelValue.bool b) d
      → Runs (eval_boolean_fold all (m ∷ ms)) (ModelValue.bool b) (c + d)
  unfolding eval_boolean_fold
  fold_next true ms h k = Runs-bind _ (bool_of-Runs h) k
  fold_next false ms h k = Runs-bind _ (bool_of-Runs h) k

  mutual
    unfolding eval eval_args height heights eval_and eval_or eval_binary eval_call eval_boolean_fold

    pub eval-Runs :
        {e : RuleExpr F64} {v : ModelValue F64} {c : ℕ} (depth : ℕ)
        → Means e v c
        → HasRoom limits depth (height e)
        → Runs (run e depth) v c
    eval-Runs depth Meaning.Means.bool room = one_step depth _ room (Runs-lift refl)
    eval-Runs depth Meaning.Means.number room = one_step depth _ room (Runs-lift refl)
    eval-Runs depth Meaning.Means.string room = one_step depth _ room (Runs-lift refl)
    eval-Runs depth Meaning.Means.null room = one_step depth _ room (Runs-lift refl)
    eval-Runs depth (Meaning.Means.property_value e) room = one_step depth _ room (Runs-lift e)
    eval-Runs depth (Meaning.Means.unary D e) room =
        one_step depth _ room
          (Runs-then _ (eval-Runs (deeper depth) D (deeper_room limits depth _ room)) e)
    eval-Runs depth (Meaning.Means.and_left D) room = one_step depth _ room (
        settled _
          (eval-Runs (deeper depth) D (left_room limits _ _ _ (deeper_room limits depth _ room)))
          refl)
    eval-Runs depth (Meaning.Means.or_left D) room = one_step depth _ room (
        settled _
          (eval-Runs (deeper depth) D (left_room limits _ _ _ (deeper_room limits depth _ room)))
          refl)
    eval-Runs depth (Meaning.Means.and_both D E) room = one_step depth _ room (
        Runs-bind _
          (bool_of-Runs
            (eval-Runs (deeper depth) D (left_room limits _ _ _ (deeper_room limits depth _ room))))
          (bool_result-Runs (
            eval-Runs (deeper depth) E
              (right_room limits _ _ _ (deeper_room limits depth _ room)))))
    eval-Runs depth (Meaning.Means.or_both D E) room = one_step depth _ room (
        Runs-bind _
          (bool_of-Runs
            (eval-Runs (deeper depth) D (left_room limits _ _ _ (deeper_room limits depth _ room))))
          (bool_result-Runs (
            eval-Runs (deeper depth) E
              (right_room limits _ _ _ (deeper_room limits depth _ room)))))
    eval-Runs depth (Meaning.Means.both {op} needs D E e) room = one_step depth _ room (
        eval_binary-Runs arithmetic engine limits objects graph object op needs
          (eval-Runs (deeper depth) D (left_room limits _ _ _ (deeper_room limits depth _ room)))
          (eval-Runs (deeper depth) E (right_room limits _ _ _ (deeper_room limits depth _ room)))
          e)
    eval-Runs depth (Meaning.Means.when_true D E) room = one_step depth _ room (
        Runs-bind _
          (bool_of-Runs
            (eval-Runs (deeper depth) D (left_room limits _ _ _ (deeper_room limits depth _ room))))
          (eval-Runs (deeper depth) E
            (left_room limits _ _ _ (right_room limits _ _ _ (deeper_room limits depth _ room)))))
    eval-Runs depth (Meaning.Means.when_false D E) room = one_step depth _ room (
        Runs-bind _
          (bool_of-Runs
            (eval-Runs (deeper depth) D (left_room limits _ _ _ (deeper_room limits depth _ room))))
          (eval-Runs (deeper depth) E
            (right_room limits _ _ _ (right_room limits _ _ _ (deeper_room limits depth _ room)))))
    eval-Runs depth (Meaning.Means.call_values {function} needs D e) room = one_step depth _ room (
        eval_call-Runs arithmetic engine limits objects graph object function needs
          (eval_args-RunsAll (deeper depth) D (deeper_room limits depth _ room)) e)
    eval-Runs depth (Meaning.Means.call_all D) room =
        one_step depth _ room (eval_fold-Runs (deeper depth) D (deeper_room limits depth _ room))
    eval-Runs depth (Meaning.Means.call_exists D) room =
        one_step depth _ room (eval_fold-Runs (deeper depth) D (deeper_room limits depth _ room))

    eval_args-RunsAll :
        {es : RuleArgs F64} {vs : List (ModelValue F64)} {c : ℕ} (depth : ℕ)
        → MeansAll es vs c
        → HasRoom limits depth (heights es)
        → RunsAll (run_args es depth) vs c
    eval_args-RunsAll depth Meaning.MeansAll.nil room = runs_nil
    eval_args-RunsAll depth (Meaning.MeansAll.cons D E) room =
        runs_cons (eval-Runs depth D (left_room limits _ _ _ room))
          (eval_args-RunsAll depth E (right_room limits _ _ _ room))

    eval_fold-Runs :
        {all : Bool} {es : RuleArgs F64} {b : Bool} {c : ℕ} (depth : ℕ)
        → MeansFold all es b c
        → HasRoom limits depth (heights es)
        → Runs (eval_boolean_fold all (run_args es depth)) (ModelValue.bool b) c
    eval_fold-Runs depth (Meaning.MeansFold.none_left {all}) room = none_left all
    eval_fold-Runs depth (Meaning.MeansFold.settled_false D) room =
        settled _ (eval-Runs depth D (left_room limits _ _ _ room)) refl
    eval_fold-Runs depth (Meaning.MeansFold.settled_true D) room =
        settled _ (eval-Runs depth D (left_room limits _ _ _ room)) refl
    eval_fold-Runs depth (Meaning.MeansFold.next {all} D E) room =
        fold_next all (run_args _ depth) (eval-Runs depth D (left_room limits _ _ _ room))
          (eval_fold-Runs depth E (right_room limits _ _ _ room))
