-- ===== src/Profile/Rule.antt =====
-- `RuleExpr`, `UnaryOp`, `BinaryOp` and `BuiltinFunction` of crates/core/src/profile.rs. The type
-- of numbers is a parameter, a text is its bytes, and a property path is a list of names.
use pdfv.Base.{Bytes, Bool, List}

pub data UnaryOp : Type 0 where
  not : UnaryOp

pub data BinaryOp : Type 0 where
  eq ne le ge lt gt and or bit_and shr add sub mul div rem : BinaryOp

pub data BuiltinFunction : Type 0 where
  has_parse_fact size is_empty contains all exists matches split : BuiltinFunction
  filter_equals filter_not_equals filter_matches filter_not_matches : BuiltinFunction
  slice index_of find_index_equals search_text abs : BuiltinFunction

mutual
  pub data RuleExpr (R : Type 0) : Type 0 where
    bool : Bool → RuleExpr R
    number : R → RuleExpr R
    string : Bytes → RuleExpr R
    null : RuleExpr R
    property : List Bytes → RuleExpr R
    unary : UnaryOp → RuleExpr R → RuleExpr R
    binary : BinaryOp → RuleExpr R → RuleExpr R → RuleExpr R
    conditional : RuleExpr R → RuleExpr R → RuleExpr R → RuleExpr R
    call : BuiltinFunction → RuleArgs R → RuleExpr R
    -- the fragment and the reason
    unsupported : Bytes → Bytes → RuleExpr R

  pub data RuleArgs (R : Type 0) : Type 0 where
    nil : RuleArgs R
    cons : RuleExpr R → RuleArgs R → RuleArgs R
