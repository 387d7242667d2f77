-- ===== src/Content/Operators/Counts.antt =====
-- How an operator of crates/core/src/content.rs changes the state: what it adds to the summary, and
-- the depths and stacks it keeps.
use pdfv.Base.{
  ℕ, ◌+◌, ◌-◌, ◌≤◌, ◌<◌, Bytes, false, Option, none, some, List, [], ◌∷◌, ◌++◌, ◌≡◌, ◌∙◌, refl,
  arith, leb, All, length, length-append,
}
use pdfv.Name.{codes}
use pdfv.Limits.{ResourceLimits}
use pdfv.Float.{Float}
use pdfv.Error.Meets.{Meets, returned, Meets-bind, Meets-if}
use pdfv.Lexer.Moves.{name_limit-Meets}
use pdfv.Content.Summary.{
  OperatorLocation, OperatorFact, MarkedContentSpan, ResourceFamily, ContentStreamSummary,
  Interpreter, warn, add_fact,
}
use pdfv.Content.Operators.{
  use_of, saturating_inc, pop, with_summary, apply_operator, tag_or_unknown, open_span, marked_fact,
  invoke_object,
}
use pdfv.Content.Marks.{mark_active_spans, span_text, span_image}
use pdfv.Content.Operands.{first_name_operand}
use pdfv.Content.Kind.{OperatorKind}
use pdfv.Content.Operators.Growth.{
  Keeps, Grows, Keeps-same, Grows-add_fact, Keeps-mark, Keeps-use_of, push_color_fact-Grows,
  push_unknown-Grows,
}

module _ (limits : ResourceLimits) where
  -- Every operator that was counted gave one fact, but for `pending` ones; the caps hold, and the
  -- stack of open spans names spans that there are.
  pub record IsValid (pending : ℕ) (state : Interpreter) : Type 0 where
    pub counted : length state.summary.facts + pending ≡ state.summary.operators_seen
    pub capped : state.summary.operators_seen ≤ limits.max_content_stream_ops
    pub few_spans : length state.summary.marked_content + pending ≤ state.summary.operators_seen
    pub few_uses : length state.summary.resource_uses + pending ≤ state.summary.operators_seen
    pub graphics : state.graphics_depth ≤ limits.max_graphics_state_depth
    pub few_operands : length state.operands ≤ limits.max_content_stream_operand_count
    pub few_bytes : state.operand_bytes ≤ limits.max_content_stream_operand_bytes
    pub running : state.summary.truncated ≡ false
    pub nested : state.marked_depth ≤ length state.marked_stack
    pub named : All (λ index. index < length state.summary.marked_content) state.marked_stack

  pub IsValid-Grows :
      (state : Interpreter) (s : ContentStreamSummary)
      → IsValid 1 state
      → Grows state.summary s
      → IsValid 0 (with_summary state s)
  IsValid-Grows state s v (seen, facts, spans, uses, runs) = record {
    counted = omega (arith, v.counted);
    capped = rw seen v.capped;
    few_spans = omega (arith, v.few_spans);
    few_uses = omega (arith, v.few_uses);
    graphics = v.graphics;
    few_operands = v.few_operands;
    few_bytes = v.few_bytes;
    running = runs ∙ v.running;
    nested = v.nested;
    named = rw spans v.named;
  }

  -- A fact on top of a summary that keeps the counts.
  one_fact :
      (state : Interpreter)
      → IsValid 1 state
      → (fact : OperatorFact) (t : ContentStreamSummary) → Keeps state.summary t
      → IsValid 0 (with_summary state (add_fact fact t))
  one_fact state v fact t k =
      IsValid-Grows state (add_fact fact t) v (Grows-add_fact fact state.summary t k)

  All-mono :
      (m n : ℕ) (stack : List ℕ)
      → m ≤ n
      → All (λ index. index < m) stack
      → All (λ index. index < n) stack
  All-mono m n [] h a = tt
  All-mono m n (index ∷ stack) h (a, rest) = (omega arith, All-mono m n stack h rest)

  All-pop : (P : ℕ → Type 0) (stack : List ℕ) → All P stack → All P (pop stack)
  All-pop P [] a = tt
  All-pop P (index ∷ stack) a = a.1

  length-pop : (stack : List ℕ) → length (pop stack) ≡ length stack - 1
  length-pop [] = omega arith
  length-pop (index ∷ stack) = omega arith

  length-facts :
      (facts : List OperatorFact) (fact : OperatorFact)
      → length (facts ++ fact ∷ []) ≡ length facts + 1
  length-facts facts fact = length-append facts (fact ∷ [])

  length-spans :
      (spans : List MarkedContentSpan) (span : MarkedContentSpan)
      → length (spans ++ span ∷ []) ≡ length spans + 1
  length-spans spans span = length-append spans (span ∷ [])

  -- A span that is opened, with the fact of its operator still to come.
  module _ (float : Float) where
    begin_marked-IsValid :
        (tag : Bytes) (location : OperatorLocation) (state : Interpreter)
        → IsValid 1 state
        → IsValid 0
            (marked_fact float limits tag location (open_span float limits tag location state))
    begin_marked-IsValid tag location state v = record {
      counted = omega (arith, length-facts, v.counted);
      capped = v.capped;
      few_spans = omega (arith, length-spans, v.few_spans);
      few_uses = omega (arith, v.few_uses);
      graphics = v.graphics;
      few_operands = v.few_operands;
      few_bytes = v.few_bytes;
      running = v.running;
      nested = omega (arith, v.nested);
      named = (
        omega (arith, length-spans),
        All-mono _ _ state.marked_stack (omega (arith, length-spans)) v.named,
      );
    }

    tag-Meets :
        (name : Option Bytes) → Meets (λ (tag : Bytes). Unit {0}) (tag_or_unknown float limits name)
    tag-Meets (some tag) = returned tt
    tag-Meets none = name_limit-Meets limits (codes "Unknown") _ (λ _. returned tt)

    invoke_object-IsValid :
        (name : Option Bytes) (op : Bytes) (location : OperatorLocation) (state : Interpreter)
        → IsValid 1 state
        → Meets (IsValid 0) (invoke_object float limits name op location state)
    invoke_object-IsValid none op location state v =
        Meets-bind _ (push_unknown-Grows op state.operands location state.summary)
          λ s g. returned (IsValid-Grows state s v g)
    invoke_object-IsValid (some name) op location state v =
        let marked = mark_active_spans span_image state.marked_stack state.summary in
        returned (
          one_fact state v _ (use_of ResourceFamily.x_object op location (some name) marked) (
            Keeps-use_of ResourceFamily.x_object op location (some name) state.summary marked
              (Keeps-mark span_image state.marked_stack state.summary) refl))

    module _ (op : Bytes) (location : OperatorLocation) (state : Interpreter)
        (v : IsValid 1 state) where
      -- A fact, and the use that the first name among the operands gives.
      fact_only :
          (fact : OperatorFact) → IsValid 0 (with_summary state (add_fact fact state.summary))
      fact_only fact = one_fact state v fact state.summary (Keeps-same state.summary)

      abbrev with_use : ResourceFamily → ContentStreamSummary
      with_use family = use_of family op location (first_name_operand state.operands) state.summary

      used : (family : ResourceFamily) → Keeps state.summary (with_use family)
      used family =
          Keeps-use_of family op location (first_name_operand state.operands) state.summary
            state.summary (Keeps-same state.summary) refl

      fact_and_use :
          (family : ResourceFamily) (fact : OperatorFact)
          → IsValid 0 (with_summary state (add_fact fact (with_use family)))
      fact_and_use family fact = one_fact state v fact (with_use family) (used family)

      graphics_fact :
          (fact : OperatorFact) (depth : ℕ)
          → depth ≤ limits.max_graphics_state_depth
          → IsValid 0
              (record state { graphics_depth = depth; summary = add_fact fact state.summary })
      graphics_fact fact depth h = record {
        counted = omega (arith, length-facts, v.counted);
        capped = v.capped;
        few_spans = omega (arith, v.few_spans);
        few_uses = omega (arith, v.few_uses);
        graphics = h;
        few_operands = v.few_operands;
        few_bytes = v.few_bytes;
        running = v.running;
        nested = v.nested;
        named = v.named;
      }

      pub apply_operator-IsValid :
          (kind : OperatorKind)
          → Meets (IsValid 0) (apply_operator float limits kind op location state)
      unfolding apply_operator
      apply_operator-IsValid OperatorKind.text_boundary = returned (fact_only _)
      apply_operator-IsValid OperatorKind.font_operator =
          returned (fact_and_use ResourceFamily.font _)
      apply_operator-IsValid OperatorKind.state_operator = returned (fact_only _)
      apply_operator-IsValid OperatorKind.position_operator = returned (fact_only _)
      apply_operator-IsValid OperatorKind.show_operator = returned (
          one_fact state v _ (mark_active_spans span_text state.marked_stack state.summary)
            (Keeps-mark span_text state.marked_stack state.summary))
      apply_operator-IsValid OperatorKind.begin_marked =
          Meets-bind _ (tag-Meets (first_name_operand state.operands))
            λ tag _. returned (begin_marked-IsValid tag location state v)
      apply_operator-IsValid OperatorKind.marked_point =
          Meets-bind _ (tag-Meets (first_name_operand state.operands))
            λ tag _. returned (fact_only _)
      apply_operator-IsValid OperatorKind.end_marked = name_limit-Meets limits (codes "EMC") _ λ _.
          returned (record {
            counted = omega (arith, length-facts, v.counted);
            capped = v.capped;
            few_spans = omega (arith, v.few_spans);
            few_uses = omega (arith, v.few_uses);
            graphics = v.graphics;
            few_operands = v.few_operands;
            few_bytes = v.few_bytes;
            running = v.running;
            nested = omega (arith, v.nested, length-pop state.marked_stack);
            named = All-pop _ state.marked_stack v.named;
          })
      apply_operator-IsValid OperatorKind.save =
          Meets-if (leb limits.max_graphics_state_depth state.graphics_depth)
            (λ _. returned (
              one_fact state v _ (warn "graphics state depth cap reached" state.summary)
                (refl, refl, refl, omega arith, refl)))
            (λ below.
              returned (
                graphics_fact _ (saturating_inc state.graphics_depth) (ground (arith, v.graphics))))
      apply_operator-IsValid OperatorKind.restore =
          returned (graphics_fact _ (state.graphics_depth - 1) (omega (arith, v.graphics)))
      apply_operator-IsValid OperatorKind.graphics_operator = returned (fact_only _)
      apply_operator-IsValid OperatorKind.ext_state =
          returned (fact_and_use ResourceFamily.ext_g_state _)
      apply_operator-IsValid OperatorKind.color_space_operator =
          Meets-bind _
            (push_color_fact-Grows op state.operands state.operand_bytes location state.summary _
              (used ResourceFamily.color_space))
            λ s g. returned (IsValid-Grows state s v g)
      apply_operator-IsValid OperatorKind.color_operator =
          Meets-bind _
            (push_color_fact-Grows op state.operands state.operand_bytes location state.summary _
              (Keeps-same state.summary))
            λ s g. returned (IsValid-Grows state s v g)
      apply_operator-IsValid OperatorKind.shading_operator =
          Meets-bind _
            (push_color_fact-Grows op state.operands state.operand_bytes location state.summary _
              (used ResourceFamily.shading))
            λ s g. returned (IsValid-Grows state s v g)
      apply_operator-IsValid OperatorKind.invoke = invoke_object-IsValid _ op location state v
      apply_operator-IsValid OperatorKind.path_operator = returned (fact_only _)
      apply_operator-IsValid OperatorKind.compatibility_operator = returned (fact_only _)
      apply_operator-IsValid _ =
          Meets-bind _ (push_unknown-Grows op state.operands location state.summary)
            λ s g. returned (IsValid-Grows state s v g)
