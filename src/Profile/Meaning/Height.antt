-- ===== src/Profile/Meaning/Height.antt =====
-- The height of an expression of crates/core/src/profile.rs, and the depths that are left for it.
use pdfv.Base.{ℕ, suc, ◌+◌, ◌≤◌, false, ◌≡◌, arith}
use Prim.Native.Nat.{max}
use pdfv.Limits.{ResourceLimits}
use pdfv.Profile.Rule.{RuleExpr, RuleArgs}
use pdfv.Profile.Budget.{deeper, max_rule_depth, too_deep}

-- The levels of an expression below its root.
unfoldable mutual
  pub height : {R : Type 0} → RuleExpr R → ℕ
  height (RuleExpr.unary op e) = suc (height e)
  height (RuleExpr.binary op l r) = suc (max (height l) (height r))
  height (RuleExpr.conditional e t f) = suc (max (height e) (max (height t) (height f)))
  height (RuleExpr.call function es) = suc (heights es)
  height _ = 0

  pub heights : {R : Type 0} → RuleArgs R → ℕ
  heights RuleArgs.nil = 0
  heights (RuleArgs.cons e es) = max (height e) (heights es)

-- The depths down to the bottom of an expression of this height are allowed.
abbrev pub HasRoom : ResourceLimits → ℕ → ℕ → Type 0
HasRoom limits depth height =
    (depth + height ≤ max_rule_depth) × (depth + height ≤ limits.max_object_depth)

module _ (limits : ResourceLimits) where
  pub not_too_deep :
      (depth height : ℕ) → HasRoom limits depth height → too_deep limits depth ≡ false
  not_too_deep depth height h = ground arith

  pub deeper_room :
      (depth height : ℕ) → HasRoom limits depth (suc height) → HasRoom limits (deeper depth) height
  deeper_room depth height h = (omega arith, omega arith)

  pub left_room : (depth a b : ℕ) → HasRoom limits depth (max a b) → HasRoom limits depth a
  left_room depth a b h = (omega arith, omega arith)

  pub right_room : (depth a b : ℕ) → HasRoom limits depth (max a b) → HasRoom limits depth b
  right_room depth a b h = (omega arith, omega arith)
