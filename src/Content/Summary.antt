-- ===== src/Content/Summary.antt =====
-- What a content stream is summarised to in crates/core/src/content.rs, and the state of the loop of
-- `summarize_content_stream`. Names are their bytes. The path of a location is kept as the two
-- parts that it is formatted from: the path of the stream and the number of the operator.
use pdfv.Base.{ℕ, Bytes, Bool, Option, List, [], ◌∷◌, ◌++◌}
use pdfv.Int.{ℤ}
use pdfv.Cos.{ObjectKey}
use pdfv.Error.{text}
use pdfv.Base.{String}
use pdfv.Fact.{ValidationWarning, general}
use pdfv.Content.Token.{Operand}

pub record OperatorLocation : Type 0 where
  pub object : ObjectKey
  pub offset : ℕ
  pub path : Bytes
  pub ordinal : ℕ

pub record BoundedOperands : Type 0 where
  pub count : ℕ
  pub bytes : ℕ

pub data OperatorFact : Type 0 where
  text_object text_state text_position graphics_state path compatibility :
      Bytes → OperatorLocation → OperatorFact
  text_show : Bytes → ℕ → OperatorLocation → OperatorFact
  marked_content : Bytes → Option ObjectKey → OperatorLocation → OperatorFact
  color : Bytes → BoundedOperands → OperatorLocation → OperatorFact
  x_object_invoke : Bytes → OperatorLocation → OperatorFact
  -- the width, the height, the color space, the bits per component, and the filters
  inline_image :
      Option ℕ → Option ℕ → Option Bytes → Option ℕ → List Bytes → OperatorLocation → OperatorFact
  unknown : Bytes → ℕ → OperatorLocation → OperatorFact

pub record MarkedContentSpan : Type 0 where
  pub tag : Bytes
  pub nesting_depth : ℕ
  pub mcid : Option ℤ
  pub properties : Option ObjectKey
  pub properties_name : Option Bytes
  pub has_text : Bool
  pub has_image : Bool
  pub location : OperatorLocation

pub data ResourceFamily : Type 0 where
  font color_space ext_g_state shading x_object : ResourceFamily

pub record ResourceUse : Type 0 where
  pub family : ResourceFamily
  pub name : Bytes
  pub operator_name : Bytes
  pub location : OperatorLocation

pub record ContentStreamSummary : Type 0 where
  pub source : ObjectKey
  pub operators_seen : ℕ
  pub facts : List OperatorFact
  pub marked_content : List MarkedContentSpan
  pub resource_uses : List ResourceUse
  pub warnings : List ValidationWarning
  pub truncated : Bool

-- The variables of the loop.
pub record Interpreter : Type 0 where
  pub operands : List Operand
  pub operand_bytes : ℕ
  pub graphics_depth : ℕ
  pub marked_depth : ℕ
  pub marked_stack : List ℕ
  pub summary : ContentStreamSummary

abbrev pub warn : String → ContentStreamSummary → ContentStreamSummary
warn message s = record s { warnings = s.warnings ++ general (text message) ∷ [] }

abbrev pub add_fact : OperatorFact → ContentStreamSummary → ContentStreamSummary
add_fact fact s = record s { facts = s.facts ++ fact ∷ [] }

abbrev pub add_use : ResourceUse → ContentStreamSummary → ContentStreamSummary
add_use use_of s = record s { resource_uses = s.resource_uses ++ use_of ∷ [] }
