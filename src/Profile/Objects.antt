-- ===== src/Profile/Objects.antt =====
-- What the evaluator of crates/core/src/profile.rs uses of the validation model
-- (crates/core/src/validation.rs), as an interface, and `DefaultRuleEvaluator::property`, which
-- follows the links of a property path.
use pdfv.Base.{ℕ, Bytes, Option, none, some, List, [], ◌∷◌, ◌++◌, ltb, if◌then◌else◌, length}
use pdfv.Name.{codes, bytes_eq}
use pdfv.Error.{text, from_bytes}
use pdfv.Limits.{ResourceLimits}
use pdfv.Fact.{ParseFact}
use pdfv.Profile.Failure.{
  Checked, ok, err, ◌>>=◌, profile, unknown_property, unsupported_rule, over_budget, bounded_text,
}
use pdfv.Profile.Value.{ModelValue, from_list}
use pdfv.Profile.Functions.{any}

-- `ModelObjectRef`, the model graph, and the links of the default registry.
pub record Objects (R : Type 0) : Type 1 where
  pub Object : Type 0
  pub Graph : Type 0
  pub object_type : Object → Bytes
  pub object_property : Object → Bytes → Checked (ModelValue R)
  pub links : Object → List Bytes
  pub linked_objects : Object → Graph → ℕ → Checked (List Object)
  pub link_target : Bytes → Bytes → Option Bytes
  pub parse_facts : Object → List ParseFact

-- `split_last` of a list that begins with `first`.
abbrev pub split_last : Bytes → List Bytes → List Bytes × Bytes
split_last first [] = ([], first)
split_last first (next ∷ rest) = let (before, last) = split_last next rest in (first ∷ before, last)

module _ {R : Type 0} (objects : Objects R) (limits : ResourceLimits) where
  open objects use {Object, Graph, object_type, object_property, links, linked_objects, link_target}

  -- `UnsupportedRule` with a text of at most 512 bytes.
  abbrev link_error : Bytes → Bytes → Bytes → Checked (List Object)
  link_error prefix link family = do
    reason ← bounded_text (prefix ++ link ++ codes " on " ++ family) 512
    err (profile (unsupported_rule (from_bytes reason)))

  unfoldable pub of_type : Bytes → List Object → List Object
  unfolding bytes_eq
  of_type target [] = []
  of_type target (linked ∷ rest) =
      if bytes_eq (object_type linked) target
      then linked ∷ of_type target rest
      else of_type target rest

  -- The objects that one candidate's link leads to.
  unfoldable pub follow_from : Graph → Bytes → Object → Checked (List Object)
  unfolding any of_type bytes_eq
  follow_from graph link candidate = elim (link_target (object_type candidate) link) [
    | none ↦ link_error (codes "unknown validation model link ") link (object_type candidate)
    | some target ↦
        if any (λ link_name. bytes_eq link_name link) (links candidate)
        then (do
          linked ← linked_objects candidate graph limits.max_objects
          ok (of_type target linked))
        else link_error (codes "unmaterialized validation model link ") link (object_type candidate)
  ]

  unfoldable pub follow_link : Graph → Bytes → List Object → Checked (List Object)
  unfolding follow_from
  follow_link graph link [] = ok []
  follow_link graph link (candidate ∷ current) = do
    linked ← follow_from graph link candidate
    rest ← follow_link graph link current
    ok (linked ++ rest)

  unfoldable pub follow_links : Graph → List Bytes → List Object → Checked (List Object)
  unfolding follow_link
  follow_links graph [] current = ok current
  follow_links graph (link ∷ path) current = do
    next ← follow_link graph link current
    let rest = follow_links graph path next
    if ltb limits.max_objects (length next) then err (over_budget "linked_objects") else rest

  unfoldable pub read_properties : Bytes → List Object → Checked (List (ModelValue R))
  read_properties terminal [] = ok []
  read_properties terminal (candidate ∷ current) = do
    value ← object_property candidate terminal
    values ← read_properties terminal current
    ok (value ∷ values)

  -- No object gives null, one gives its value, and several give a list.
  abbrev pub gather : List (ModelValue R) → ModelValue R
  gather [] = ModelValue.null
  gather (value ∷ []) = value
  gather values = ModelValue.list (from_list values)

  abbrev nested_property : Option Graph → Object → List Bytes → Bytes → Checked (ModelValue R)
  nested_property graph object [] terminal = object_property object terminal
  nested_property none object path terminal =
      err (profile (unsupported_rule (text "nested property path requires validation graph")))
  nested_property (some graph) object path terminal = do
    current ← follow_links graph path (object ∷ [])
    values ← read_properties terminal current
    ok (gather values)

  unfoldable pub property : Option Graph → Object → List Bytes → Checked (ModelValue R)
  unfolding follow_links read_properties
  property graph object [] = err (profile (unknown_property (text "empty")))
  property graph object (first ∷ rest) =
      let (path, terminal) = split_last first rest in nested_property graph object path terminal
