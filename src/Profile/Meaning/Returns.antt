-- ===== src/Profile/Meaning/Returns.antt =====
-- Which calls of crates/core/src/profile.rs return, and which operators that need both operands.
use pdfv.Base.{ℕ, ◌+◌, Bytes, Bool, Option, List, [], ◌∷◌, ◌≡◌, refl, String, arith}
use pdfv.Limits.{ResourceLimits}
use pdfv.Profile.Failure.{Checked, ok}
use pdfv.Profile.Failure as Failure
use pdfv.Profile.Arithmetic.{Arithmetic, RegexEngine}
use pdfv.Profile.Rule.{BinaryOp, BuiltinFunction}
use pdfv.Profile.Value.{ModelValue, expect_bool}
use pdfv.Profile.Objects.{Objects}
use pdfv.Profile.Budget.{Evaluation}
use pdfv.Profile.Args.{
  bool_of, eval_single_arg, eval_two_args, eval_two_string_args, eval_string_args, expect_string,
}
use pdfv.Profile.Eval.{eval_binary, eval_collection, eval_filter, eval_call}
use pdfv.Profile.Meaning as Meaning
use pdfv.Profile.Meaning.{
  NeedsAll, NeedsBoth, one_of, pair_of, string_pair_of, strings_of, collection_of, apply_call,
  filter_of,
}
use pdfv.Profile.Meaning.Runs.{Runs, Runs-bind, Runs-lift, Runs-then, Runs-check, Runs-eq}

module _ {R : Type 0} where
  pub bool_of-Runs :
      {m : Evaluation (ModelValue R)} {b : Bool} {c : ℕ}
      → Runs m (ModelValue.bool b) c
      → Runs (bool_of m) b c
  unfolding expect_bool
  bool_of-Runs h = Runs-then expect_bool h refl

  -- The evaluations return these values, one after the other.
  pub data RunsAll : List (Evaluation (ModelValue R)) → List (ModelValue R) → ℕ → Type 0 where
    runs_nil : RunsAll [] [] 0
    runs_cons :
        {m : Evaluation (ModelValue R)} {ms : List (Evaluation (ModelValue R))} {v : ModelValue R}
        {vs : List (ModelValue R)} {c d : ℕ}
        → Runs m v c
        → RunsAll ms vs d
        → RunsAll (m ∷ ms) (v ∷ vs) (c + d)

  eval_single_arg-Runs :
      {ms : List (Evaluation (ModelValue R))} {vs : List (ModelValue R)} {a : ModelValue R} {c : ℕ}
      → RunsAll ms vs c
      → one_of vs ≡ ok a
      → Runs (eval_single_arg ms) a c
  unfolding eval_single_arg
  eval_single_arg-Runs (runs_cons h runs_nil) e =
      rw (← Failure.ok-injective e) (Runs-eq h (omega arith))
  eval_single_arg-Runs runs_nil e = cc
  eval_single_arg-Runs (runs_cons h (runs_cons _ _)) e = cc

  eval_two_args-Runs :
      {ms : List (Evaluation (ModelValue R))} {vs : List (ModelValue R)}
      {a : ModelValue R × ModelValue R} {c : ℕ}
      → RunsAll ms vs c
      → pair_of vs ≡ ok a
      → Runs (eval_two_args ms) a c
  unfolding eval_two_args
  eval_two_args-Runs (runs_cons h (runs_cons k runs_nil)) e =
      Runs-eq (Runs-bind _ h (Runs-then _ k e)) (omega arith)
  eval_two_args-Runs runs_nil e = cc
  eval_two_args-Runs (runs_cons h runs_nil) e = cc
  eval_two_args-Runs (runs_cons h (runs_cons _ (runs_cons _ _))) e = cc

  eval_two_string_args-Runs :
      {ms : List (Evaluation (ModelValue R))} {vs : List (ModelValue R)} {a : Bytes × Bytes} {c : ℕ}
      → RunsAll ms vs c
      → string_pair_of vs ≡ ok a
      → Runs (eval_two_string_args ms) a c
  unfolding eval_two_string_args
  eval_two_string_args-Runs {vs} h e =
      let (pair, first, second) = Failure.>>=-eq-ok (pair_of vs) _ e in
      Runs-then _ (eval_two_args-Runs h first) second

  eval_string_args-Runs :
      (message : String) {ms : List (Evaluation (ModelValue R))} {vs : List (ModelValue R)}
      (a : List Bytes) {c : ℕ}
      → RunsAll ms vs c
      → strings_of message vs ≡ ok a
      → Runs (eval_string_args message ms) a c
  unfolding eval_string_args
  eval_string_args-Runs message a runs_nil e = Runs-lift e
  eval_string_args-Runs message a (runs_cons {v} {vs} h hs) e =
      let (value, first, rest) = Failure.>>=-eq-ok (expect_string message v) _ e in
      let (values, second, last) = Failure.>>=-eq-ok (strings_of message vs) _ rest in
      Runs-bind _ h
        (Runs-check _ first (Runs-then _ (eval_string_args-Runs message values hs second) last))

  eval_collection-Runs :
      (missing message : String) {ms : List (Evaluation (ModelValue R))} {vs : List (ModelValue R)}
      {a : ModelValue R × List Bytes} {c : ℕ}
      → RunsAll ms vs c
      → collection_of missing message vs ≡ ok a
      → Runs (eval_collection missing message ms) a c
  unfolding eval_collection
  eval_collection-Runs missing message runs_nil e = cc
  eval_collection-Runs missing message (runs_cons {vs} h hs) e =
      let (values, second, last) = Failure.>>=-eq-ok (strings_of message vs) _ e in
      Runs-bind _ h (Runs-then _ (eval_string_args-Runs message values hs second) last)

module _ (arithmetic : Arithmetic) (engine : RegexEngine) (limits : ResourceLimits)
    (objects : Objects arithmetic.F64) (graph : Option objects.Graph)
    (object : objects.Object) where
  open arithmetic use {F64}

  pub eval_call-Runs :
      (function : BuiltinFunction) {ms : List (Evaluation (ModelValue F64))}
      {vs : List (ModelValue F64)} {v : ModelValue F64} {c : ℕ}
      → NeedsAll function
      → RunsAll ms vs c
      → apply_call arithmetic engine limits objects graph object function vs ≡ ok v
      → Runs (eval_call arithmetic engine limits (objects.parse_facts object) function ms) v c
  unfolding eval_call apply_call eval_filter
  eval_call-Runs BuiltinFunction.has_parse_fact {vs} n h e =
      let (a, first, last) = Failure.>>=-eq-ok (one_of vs) _ e in
      Runs-then _ (eval_single_arg-Runs h first) last
  eval_call-Runs BuiltinFunction.size {vs} n h e =
      let (a, first, last) = Failure.>>=-eq-ok (one_of vs) _ e in
      Runs-then _ (eval_single_arg-Runs h first) last
  eval_call-Runs BuiltinFunction.is_empty {vs} n h e =
      let (a, first, last) = Failure.>>=-eq-ok (one_of vs) _ e in
      Runs-then _ (eval_single_arg-Runs h first) last
  eval_call-Runs BuiltinFunction.abs {vs} n h e =
      let (a, first, last) = Failure.>>=-eq-ok (one_of vs) _ e in
      Runs-then _ (eval_single_arg-Runs h first) last
  eval_call-Runs BuiltinFunction.contains {vs} n h e =
      let (a, first, last) = Failure.>>=-eq-ok (pair_of vs) _ e in
      Runs-then _ (eval_two_args-Runs h first) last
  eval_call-Runs BuiltinFunction.slice {vs} n h e =
      let (a, first, last) = Failure.>>=-eq-ok (pair_of vs) _ e in
      Runs-then _ (eval_two_args-Runs h first) last
  eval_call-Runs BuiltinFunction.index_of {vs} n h e =
      let (a, first, last) = Failure.>>=-eq-ok (pair_of vs) _ e in
      Runs-then _ (eval_two_args-Runs h first) last
  eval_call-Runs BuiltinFunction.matches {vs} n h e =
      let (a, first, last) = Failure.>>=-eq-ok (string_pair_of vs) _ e in
      Runs-then _ (eval_two_string_args-Runs h first) last
  eval_call-Runs BuiltinFunction.search_text {vs} n h e =
      let (a, first, last) = Failure.>>=-eq-ok (string_pair_of vs) _ e in
      Runs-then _ (eval_two_string_args-Runs h first) last
  eval_call-Runs BuiltinFunction.split {vs} n h e =
      let (a, first, last) = Failure.>>=-eq-ok (string_pair_of vs) _ e in
      Runs-then _ (eval_two_string_args-Runs h first) last
  eval_call-Runs BuiltinFunction.find_index_equals {vs} n h e =
      let (a, first, last) =
        Failure.>>=-eq-ok (collection_of "findIndex requires collection" "findIndex" vs) _ e in
      Runs-then _ (eval_collection-Runs _ _ h first) last
  eval_call-Runs BuiltinFunction.all n h e = absurd n
  eval_call-Runs BuiltinFunction.exists n h e = absurd n
  eval_call-Runs BuiltinFunction.filter_equals {vs} n h e =
      let (a, first, last) =
        Failure.>>=-eq-ok (collection_of "filter requires collection" "filter" vs) _ e in
      Runs-then _ (eval_collection-Runs _ _ h first) last
  eval_call-Runs _ {vs} n h e =
      let (a, first, last) =
        Failure.>>=-eq-ok (collection_of "filter requires collection" "filter" vs) _ e in
      Runs-then _ (eval_collection-Runs _ _ h first) last

  pub eval_binary-Runs :
      (op : BinaryOp) {m n : Evaluation (ModelValue F64)} {v w u : ModelValue F64} {c d : ℕ}
      → NeedsBoth op
      → Runs m v c
      → Runs n w d
      → Meaning.apply_binary arithmetic op v w ≡ ok u
      → Runs (eval_binary arithmetic op m n) u (c + d)
  unfolding eval_binary
  eval_binary-Runs BinaryOp.and both h k e = absurd both
  eval_binary-Runs BinaryOp.or both h k e = absurd both
  eval_binary-Runs BinaryOp.add both h k e = Runs-bind _ h (Runs-then _ k e)
  eval_binary-Runs _ both h k e = Runs-bind _ h (Runs-then _ k e)
