-- ===== src/Content/Marks.antt =====
-- The marked spans of a content stream that are open: `mark_active_spans` of
-- crates/core/src/content.rs.
use pdfv.Base.{ℕ, zero, suc, true, List, [], ◌∷◌}
use pdfv.Content.Summary.{MarkedContentSpan, ContentStreamSummary}

pub data MarkedSpanFact : Type 0 where
  span_text span_image : MarkedSpanFact

abbrev pub mark_span : MarkedSpanFact → MarkedContentSpan → MarkedContentSpan
mark_span span_text span = record span { has_text = true }
mark_span span_image span = record span { has_image = true }

-- `if let Some(span) = spans.get_mut(index) { … }`
unfoldable pub mark_at : MarkedSpanFact → ℕ → List MarkedContentSpan → List MarkedContentSpan
mark_at fact index [] = []
mark_at fact zero (span ∷ spans) = mark_span fact span ∷ spans
mark_at fact (suc index) (span ∷ spans) = span ∷ mark_at fact index spans

unfoldable pub mark_spans :
    MarkedSpanFact → List ℕ → List MarkedContentSpan → List MarkedContentSpan
unfolding mark_at
mark_spans fact [] spans = spans
mark_spans fact (index ∷ stack) spans = mark_spans fact stack (mark_at fact index spans)

abbrev pub mark_active_spans : MarkedSpanFact → List ℕ → ContentStreamSummary → ContentStreamSummary
mark_active_spans fact stack s = record s {
  marked_content = mark_spans fact stack s.marked_content;
}
