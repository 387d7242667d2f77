-- ===== src/Content/Operators.antt =====
-- The operators of a content stream in crates/core/src/content.rs: `classify_operator` and the
-- functions that it calls.
pub mod Growth
pub mod Counts
use mathlib.Core.List.{reverse}
use pdfv.Base.{
  ℕ, zero, suc, ◌+◌, ◌-◌, ◌<◌, Bytes, Bool, true, false, not, ◌&&◌, ◌||◌, Option, none, some, List,
  [], ◌∷◌, ◌++◌, ltb, leb, ◌==◌, if◌then◌else◌, length, drop, String,
}
use Prim.Native.Nat.{min}
use pdfv.Int.{ℤ, pos, negsuc}
use pdfv.Bytes.{is_ascii_digit}
use pdfv.Name.{codes, bytes_eq}
use pdfv.Limits.{ResourceLimits}
use pdfv.Float.{Float}
use pdfv.Cos.{ObjectKey}
use pdfv.Error.{Result, ok, err, ◌>>=◌, ◌>>◌, ensure, text, limit_exceeded}
use pdfv.Fact.{general}
use pdfv.Source.{find_from}
use pdfv.Cursor.{Cursor}
use pdfv.Lexer.{take_while, name_limit}
use pdfv.Lexer.Number.{parse_i64}
use pdfv.Content.Token.{Operand, name_operand, integer_operand, composite_operand, keyword_operand}
use pdfv.Content.InlineImage.{InlineImageSummary, parse_inline_image}
use pdfv.Content.Summary.{
  OperatorLocation, BoundedOperands, OperatorFact, text_object, text_state, text_position,
  graphics_state, path, compatibility, text_show, marked_content, color, x_object_invoke,
  inline_image, unknown, MarkedContentSpan, ResourceFamily, ResourceUse, ContentStreamSummary,
  Interpreter, warn, add_fact, add_use,
}
use pdfv.Content.Kind.{
  OperatorKind, operator_kind, begin_image, text_boundary, font_operator, state_operator,
  position_operator, show_operator, begin_marked, marked_point, end_marked, save, restore,
  graphics_operator, ext_state, color_space_operator, color_operator, shading_operator, invoke,
  path_operator, compatibility_operator, other_operator,
}
use pdfv.Content.Operands.{first_name_operand, properties_name, inline_mcid, properties_reference}
use pdfv.Content.Marks.{mark_active_spans, span_text, span_image}

-- `u16::try_from(operands.len())`
abbrev pub operand_count : List Operand → Result ℕ
operand_count operands =
    if ltb (length operands) 65536
    then ok (length operands)
    else err (limit_exceeded "max_content_stream_operand_count")

unfoldable pub push_color_fact :
    Bytes → List Operand → ℕ → OperatorLocation → ContentStreamSummary → Result ContentStreamSummary
push_color_fact op operands operand_bytes location s = do
  count ← operand_count operands
  ok (add_fact (color op (record { count = count; bytes = operand_bytes }) location) s)

unfoldable pub push_unknown :
    Bytes → List Operand → OperatorLocation → ContentStreamSummary → Result ContentStreamSummary
push_unknown op operands location s = do
  count ← operand_count operands
  ok (add_fact (unknown op count location) s)

-- The use of a resource that the first name among the operands gives.
abbrev pub use_of :
    ResourceFamily
    → Bytes
    → OperatorLocation
    → Option Bytes
    → ContentStreamSummary
    → ContentStreamSummary
use_of family op location none s = s
use_of family op location (some name) s =
    add_use (record { family = family; name = name; operator_name = op; location = location }) s

-- `value.saturating_add(1)` on `u32`
abbrev pub saturating_inc : ℕ → ℕ
saturating_inc value = min 4294967295 (value + 1)

-- `marked_stack` keeps its last element first.
abbrev pub pop : List ℕ → List ℕ
pop [] = []
pop (index ∷ stack) = stack

abbrev pub with_summary : Interpreter → ContentStreamSummary → Interpreter
with_summary state s = record state { summary = s }

module _ (float : Float) (limits : ResourceLimits) where
  abbrev pub tag_or_unknown : Option Bytes → Result Bytes
  tag_or_unknown (some tag) = ok tag
  tag_or_unknown none = do name_limit limits (codes "Unknown"); ok (codes "Unknown")

  abbrev pub open_span : Bytes → OperatorLocation → Interpreter → Interpreter
  open_span tag location state =
      let span : MarkedContentSpan = record {
        tag = tag;
        nesting_depth = saturating_inc state.marked_depth;
        mcid = inline_mcid state.operands;
        properties = properties_reference state.operands;
        properties_name = properties_name state.operands;
        has_text = false;
        has_image = false;
        location = location;
      } in
      record state {
        marked_depth = saturating_inc state.marked_depth;
        marked_stack = length state.summary.marked_content ∷ state.marked_stack;
        summary = record (state.summary) {
          marked_content = state.summary.marked_content ++ span ∷ [];
        };
      }

  abbrev pub marked_fact : Bytes → OperatorLocation → Interpreter → Interpreter
  marked_fact tag location state =
      with_summary state
        (add_fact (marked_content tag (properties_reference state.operands) location) state.summary)

  abbrev image_fact : InlineImageSummary → OperatorLocation → OperatorFact
  image_fact image location =
      inline_image image.width image.height image.color_space image.bits_per_component image.filters
        location

  abbrev pub invoke_object :
      Option Bytes → Bytes → OperatorLocation → Interpreter → Result Interpreter
  invoke_object none op location state = do
    s ← push_unknown op state.operands location state.summary
    ok (with_summary state s)
  invoke_object (some name) op location state = ok (
      with_summary state (
        add_fact (x_object_invoke name location) (
          use_of ResourceFamily.x_object op location (some name)
            (mark_active_spans span_image state.marked_stack state.summary))))

  -- The arms that do not read the stream any further.
  unfoldable pub apply_operator :
      OperatorKind → Bytes → OperatorLocation → Interpreter → Result Interpreter
  unfolding push_color_fact push_unknown
  apply_operator text_boundary op location state =
      ok (with_summary state (add_fact (text_object op location) state.summary))
  apply_operator font_operator op location state = ok (
      with_summary state (
        add_fact (text_state op location) (
          use_of ResourceFamily.font op location (first_name_operand state.operands)
            state.summary)))
  apply_operator state_operator op location state =
      ok (with_summary state (add_fact (text_state op location) state.summary))
  apply_operator position_operator op location state =
      ok (with_summary state (add_fact (text_position op location) state.summary))
  apply_operator show_operator op location state = ok (
      with_summary state (
        add_fact (text_show op state.operand_bytes location)
          (mark_active_spans span_text state.marked_stack state.summary)))
  apply_operator begin_marked op location state = do
    tag ← tag_or_unknown (first_name_operand state.operands)
    ok (marked_fact tag location (open_span tag location state))
  apply_operator marked_point op location state = do
    tag ← tag_or_unknown (first_name_operand state.operands)
    ok (marked_fact tag location state)
  apply_operator end_marked op location state = do
    name_limit limits (codes "EMC")
    ok (record state {
      marked_depth = state.marked_depth - 1;
      marked_stack = pop state.marked_stack;
      summary = add_fact (marked_content (codes "EMC") none location) state.summary;
    })
  apply_operator save op location state =
      if leb limits.max_graphics_state_depth state.graphics_depth
      then ok (
          with_summary state (
            add_fact (graphics_state op location)
              (warn "graphics state depth cap reached" state.summary)))
      else ok (record state {
        graphics_depth = saturating_inc state.graphics_depth;
        summary = add_fact (graphics_state op location) state.summary;
      })
  apply_operator restore op location state = ok (record state {
    graphics_depth = state.graphics_depth - 1;
    summary = add_fact (graphics_state op location) state.summary;
  })
  apply_operator graphics_operator op location state =
      ok (with_summary state (add_fact (graphics_state op location) state.summary))
  apply_operator ext_state op location state = ok (
      with_summary state (
        add_fact (graphics_state op location) (
          use_of ResourceFamily.ext_g_state op location (first_name_operand state.operands)
            state.summary)))
  apply_operator color_space_operator op location state = do
    s ← push_color_fact op state.operands state.operand_bytes location (
        use_of ResourceFamily.color_space op location (first_name_operand state.operands)
          state.summary)
    ok (with_summary state s)
  apply_operator color_operator op location state = do
    s ← push_color_fact op state.operands state.operand_bytes location state.summary
    ok (with_summary state s)
  apply_operator shading_operator op location state = do
    s ← push_color_fact op state.operands state.operand_bytes location (
        use_of ResourceFamily.shading op location (first_name_operand state.operands) state.summary)
    ok (with_summary state s)
  apply_operator invoke op location state =
      invoke_object (first_name_operand state.operands) op location state
  apply_operator path_operator op location state =
      ok (with_summary state (add_fact (path op location) state.summary))
  apply_operator compatibility_operator op location state =
      ok (with_summary state (add_fact (compatibility op location) state.summary))
  apply_operator _ op location state = do
    s ← push_unknown op state.operands location state.summary
    ok (with_summary state s)

  -- An inline image is read from the stream.
  unfoldable pub begin_inline_image :
      OperatorLocation → Interpreter → Cursor → Result (Interpreter × Cursor)
  begin_inline_image location state c = do
    (image, after) ← parse_inline_image float limits c
    ok (
      with_summary state (
          add_fact (image_fact image location)
            (mark_active_spans span_image state.marked_stack state.summary)),
      after,
    )

  unfoldable pub dispatch :
      OperatorKind → Bytes → OperatorLocation → Interpreter → Cursor → Result (Interpreter × Cursor)
  dispatch begin_image op location state c = begin_inline_image location state c
  dispatch kind op location state c =
      apply_operator kind op location state >>= (λ state'. ok (state', c))

  unfoldable pub classify_operator :
      Bytes → OperatorLocation → Interpreter → Cursor → Result (Interpreter × Cursor)
  unfolding dispatch operator_kind
  classify_operator op location state c = dispatch (operator_kind op) op location state c
