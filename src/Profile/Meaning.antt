-- ===== src/Profile/Meaning.antt =====
-- A big-step semantics of the rule expressions of crates/core/src/profile.rs, with no budgets and no
-- state: which value an expression has, and how many expressions are evaluated for it. Operands
-- that `&&`, `||`, `all`, `exists` and a conditional leave out need not have a value.
pub mod Runs
pub mod Calls
pub mod Sound
pub mod Height
pub mod Returns
pub mod Complete
pub mod Verdict
use pdfv.Base.{ℕ, zero, suc, ◌+◌, Bytes, Bool, true, false, Option, List, [], ◌∷◌, ◌≡◌, String}
use pdfv.Limits.{ResourceLimits}
use pdfv.Profile.Failure.{Checked, ok, ◌>>=◌, mismatch}
use pdfv.Profile.Arithmetic.{Arithmetic, RegexEngine}
use pdfv.Profile.Rule.{BinaryOp, BuiltinFunction, RuleExpr, RuleArgs, UnaryOp}
use pdfv.Profile.Value.{ModelValue, from_list}
use pdfv.Profile.Texts.{split_string, regex_is_match, regex_find_index}
use pdfv.Profile.Functions.{
  contains_value, filter_values, index_of_value, find_index_equals, apply_binary,
}
use pdfv.Profile.Objects.{Objects, property}
use pdfv.Profile.Args.{two_strings, expect_string}
use pdfv.Profile.Eval.{
  map_ok, apply_unary, size_of, empty_of, abs_of, index_number, slice_of, fact_named,
}

-- Functions of values: what a built-in function takes its list of argument values for.
module _ {R : Type 0} where
  abbrev pub one_of : List (ModelValue R) → Checked (ModelValue R)
  one_of (v ∷ []) = ok v
  one_of _ = mismatch "built-in requires exactly one argument"

  abbrev pub pair_of : List (ModelValue R) → Checked (ModelValue R × ModelValue R)
  pair_of (v ∷ w ∷ []) = ok (v, w)
  pair_of _ = mismatch "built-in requires two arguments"

  abbrev pub string_pair_of : List (ModelValue R) → Checked (Bytes × Bytes)
  string_pair_of vs = pair_of vs >>= λ (v, w). two_strings v w

  abbrev pub strings_of : String → List (ModelValue R) → Checked (List Bytes)
  strings_of message [] = ok []
  strings_of message (v ∷ vs) = do
    value ← expect_string message v
    values ← strings_of message vs
    ok (value ∷ values)

  abbrev pub collection_of :
      String → String → List (ModelValue R) → Checked (ModelValue R × List Bytes)
  collection_of missing message [] = mismatch missing
  collection_of missing message (v ∷ vs) = do predicates ← strings_of message vs; ok (v, predicates)

-- The operators that need both operands, and the functions that need all of their arguments.
abbrev pub NeedsBoth : BinaryOp → Type 0
NeedsBoth BinaryOp.and = ⊥
NeedsBoth BinaryOp.or = ⊥
NeedsBoth _ = Unit

abbrev pub NeedsAll : BuiltinFunction → Type 0
NeedsAll BuiltinFunction.all = ⊥
NeedsAll BuiltinFunction.exists = ⊥
NeedsAll _ = Unit

module _ (arithmetic : Arithmetic) (engine : RegexEngine) (limits : ResourceLimits)
    (objects : Objects arithmetic.F64) (graph : Option objects.Graph)
    (object : objects.Object) where
  open arithmetic use {F64}

  abbrev pub filter_of : BuiltinFunction → List (ModelValue F64) → Checked (ModelValue F64)
  filter_of function vs =
      collection_of "filter requires collection" "filter" vs >>= λ (collection, predicates).
      map_ok (λ kept. ModelValue.list (from_list kept))
        (filter_values engine collection function predicates)

  unfoldable pub apply_call : BuiltinFunction → List (ModelValue F64) → Checked (ModelValue F64)
  apply_call BuiltinFunction.has_parse_fact vs =
      one_of vs >>= fact_named (objects.parse_facts object)
  apply_call BuiltinFunction.size vs = one_of vs >>= size_of arithmetic
  apply_call BuiltinFunction.is_empty vs = one_of vs >>= empty_of
  apply_call BuiltinFunction.abs vs = one_of vs >>= abs_of arithmetic
  apply_call BuiltinFunction.contains vs = pair_of vs >>= λ (haystack, needle).
      map_ok ModelValue.bool (contains_value arithmetic haystack needle)
  apply_call BuiltinFunction.slice vs =
      pair_of vs >>= λ (collection, start). slice_of arithmetic collection start
  apply_call BuiltinFunction.index_of vs = pair_of vs >>= λ (collection, needle).
      index_number arithmetic (index_of_value arithmetic collection needle)
  apply_call BuiltinFunction.matches vs = string_pair_of vs >>= λ (pattern_text, haystack).
      map_ok ModelValue.bool (regex_is_match engine pattern_text haystack)
  apply_call BuiltinFunction.search_text vs = string_pair_of vs >>= λ (haystack, pattern_text).
      index_number arithmetic (regex_find_index engine pattern_text haystack)
  apply_call BuiltinFunction.split vs = string_pair_of vs >>= λ (value, separator).
      map_ok (λ parts. ModelValue.list (from_list parts))
        (split_string value separator limits.max_array_len)
  apply_call BuiltinFunction.find_index_equals vs =
      collection_of "findIndex requires collection" "findIndex" vs >>= λ (collection, predicates).
      index_number arithmetic (find_index_equals collection predicates)
  apply_call function vs = filter_of function vs

  mutual
    -- The expression has this value, after so many evaluations.
    pub data Means : RuleExpr F64 → ModelValue F64 → ℕ → Type 0 where
      bool : {value : Bool} → Means (RuleExpr.bool value) (ModelValue.bool value) 1
      number : {value : F64} → Means (RuleExpr.number value) (ModelValue.number value) 1
      string : {value : Bytes} → Means (RuleExpr.string value) (ModelValue.string value) 1
      null : Means RuleExpr.null ModelValue.null 1
      property_value :
          {path : List Bytes} {v : ModelValue F64}
          → property objects limits graph object path ≡ ok v
          → Means (RuleExpr.property path) v 1
      unary :
          {op : UnaryOp} {e : RuleExpr F64} {v w : ModelValue F64} {c : ℕ}
          → Means e v c
          → apply_unary op v ≡ ok w
          → Means (RuleExpr.unary op e) w (suc c)
      and_left :
          {l r : RuleExpr F64} {c : ℕ}
          → Means l (ModelValue.bool false) c
          → Means (RuleExpr.binary BinaryOp.and l r) (ModelValue.bool false) (suc c)
      and_both :
          {l r : RuleExpr F64} {b : Bool} {c d : ℕ}
          → Means l (ModelValue.bool true) c
          → Means r (ModelValue.bool b) d
          → Means (RuleExpr.binary BinaryOp.and l r) (ModelValue.bool b) (suc (c + d))
      or_left :
          {l r : RuleExpr F64} {c : ℕ}
          → Means l (ModelValue.bool true) c
          → Means (RuleExpr.binary BinaryOp.or l r) (ModelValue.bool true) (suc c)
      or_both :
          {l r : RuleExpr F64} {b : Bool} {c d : ℕ}
          → Means l (ModelValue.bool false) c
          → Means r (ModelValue.bool b) d
          → Means (RuleExpr.binary BinaryOp.or l r) (ModelValue.bool b) (suc (c + d))
      both :
          {op : BinaryOp} {l r : RuleExpr F64} {v w u : ModelValue F64} {c d : ℕ}
          → NeedsBoth op
          → Means l v c
          → Means r w d
          → apply_binary arithmetic op v w ≡ ok u
          → Means (RuleExpr.binary op l r) u (suc (c + d))
      when_true :
          {condition t f : RuleExpr F64} {v : ModelValue F64} {c d : ℕ}
          → Means condition (ModelValue.bool true) c
          → Means t v d
          → Means (RuleExpr.conditional condition t f) v (suc (c + d))
      when_false :
          {condition t f : RuleExpr F64} {v : ModelValue F64} {c d : ℕ}
          → Means condition (ModelValue.bool false) c
          → Means f v d
          → Means (RuleExpr.conditional condition t f) v (suc (c + d))
      call_values :
          {function : BuiltinFunction} {es : RuleArgs F64} {vs : List (ModelValue F64)}
          {v : ModelValue F64} {c : ℕ}
          → NeedsAll function
          → MeansAll es vs c
          → apply_call function vs ≡ ok v
          → Means (RuleExpr.call function es) v (suc c)
      call_all :
          {es : RuleArgs F64} {b : Bool} {c : ℕ}
          → MeansFold true es b c
          → Means (RuleExpr.call BuiltinFunction.all es) (ModelValue.bool b) (suc c)
      call_exists :
          {es : RuleArgs F64} {b : Bool} {c : ℕ}
          → MeansFold false es b c
          → Means (RuleExpr.call BuiltinFunction.exists es) (ModelValue.bool b) (suc c)

    pub data MeansAll : RuleArgs F64 → List (ModelValue F64) → ℕ → Type 0 where
      nil : MeansAll RuleArgs.nil [] 0
      cons :
          {e : RuleExpr F64} {es : RuleArgs F64} {v : ModelValue F64} {vs : List (ModelValue F64)}
          {c d : ℕ}
          → Means e v c
          → MeansAll es vs d
          → MeansAll (RuleArgs.cons e es) (v ∷ vs) (c + d)

    -- The conjunction (`true`) or the disjunction (`false`) of the arguments, from the left.
    pub data MeansFold : Bool → RuleArgs F64 → Bool → ℕ → Type 0 where
      none_left : {all : Bool} → MeansFold all RuleArgs.nil all 0
      settled_false :
          {e : RuleExpr F64} {es : RuleArgs F64} {c : ℕ}
          → Means e (ModelValue.bool false) c
          → MeansFold true (RuleArgs.cons e es) false c
      settled_true :
          {e : RuleExpr F64} {es : RuleArgs F64} {c : ℕ}
          → Means e (ModelValue.bool true) c
          → MeansFold false (RuleArgs.cons e es) true c
      next :
          {all b : Bool} {e : RuleExpr F64} {es : RuleArgs F64} {c d : ℕ}
          → Means e (ModelValue.bool all) c
          → MeansFold all es b d
          → MeansFold all (RuleArgs.cons e es) b (c + d)
