-- ===== src/Content/Operators/Growth.antt =====
-- What an operator of crates/core/src/content.rs adds to the summary.
use pdfv.Base.{
  ℕ, zero, suc, ◌+◌, ◌≤◌, ◌<◌, Bytes, Option, none, some, List, [], ◌∷◌, ◌≡◌, refl, arith, ltb,
  length, length-append,
}
use pdfv.Error.Meets.{Meets, returned, raised, Meets-bind, Meets-if}
use pdfv.Content.Summary.{
  OperatorLocation, OperatorFact, MarkedContentSpan, ResourceFamily, ContentStreamSummary, add_fact,
}
use pdfv.Content.Operators.{operand_count, push_color_fact, push_unknown, use_of}
use pdfv.Content.Marks.{MarkedSpanFact, mark_at, mark_spans, mark_active_spans}
use pdfv.Content.Token.{Operand}

-- The same operators, facts and spans, and one more resource at most.
abbrev pub Keeps : ContentStreamSummary → ContentStreamSummary → Type 0
Keeps s t =
    (t.operators_seen ≡ s.operators_seen)
    × (length t.facts ≡ length s.facts)
    × (length t.marked_content ≡ length s.marked_content)
    × (length t.resource_uses ≤ length s.resource_uses + 1)
    × (t.truncated ≡ s.truncated)

-- One more fact besides.
abbrev pub Grows : ContentStreamSummary → ContentStreamSummary → Type 0
Grows s t =
    (t.operators_seen ≡ s.operators_seen)
    × (length t.facts ≡ length s.facts + 1)
    × (length t.marked_content ≡ length s.marked_content)
    × (length t.resource_uses ≤ length s.resource_uses + 1)
    × (t.truncated ≡ s.truncated)

pub Keeps-same : (s : ContentStreamSummary) → Keeps s s
Keeps-same s = (refl, refl, refl, omega arith, refl)

pub Grows-add_fact :
    (fact : OperatorFact) (s t : ContentStreamSummary) → Keeps s t → Grows s (add_fact fact t)
Grows-add_fact fact s t (seen, facts, spans, uses, runs) =
    (seen, omega (arith, length-append t.facts (fact ∷ []), facts), spans, uses, runs)

length-mark_at :
    (fact : MarkedSpanFact) (index : ℕ) (spans : List MarkedContentSpan)
    → length (mark_at fact index spans) ≡ length spans
unfolding mark_at
length-mark_at fact index [] = refl
length-mark_at fact zero (span ∷ spans) = refl
length-mark_at fact (suc index) (span ∷ spans) = omega (arith, length-mark_at fact index spans)

length-mark_spans :
    (fact : MarkedSpanFact) (stack : List ℕ) (spans : List MarkedContentSpan)
    → length (mark_spans fact stack spans) ≡ length spans
unfolding mark_spans
length-mark_spans fact [] spans = refl
length-mark_spans fact (index ∷ stack) spans = omega (
  arith,
  length-mark_spans fact stack (mark_at fact index spans),
  length-mark_at fact index spans,
)

pub Keeps-mark :
    (fact : MarkedSpanFact) (stack : List ℕ) (s : ContentStreamSummary)
    → Keeps s (mark_active_spans fact stack s)
Keeps-mark fact stack s =
    (refl, refl, length-mark_spans fact stack s.marked_content, omega arith, refl)

-- At most one use is added to a summary with the uses that there were.
pub Keeps-use_of :
    (family : ResourceFamily) (op : Bytes) (location : OperatorLocation) (name : Option Bytes)
    (s t : ContentStreamSummary)
    → Keeps s t
    → length t.resource_uses ≡ length s.resource_uses
    → Keeps s (use_of family op location name t)
Keeps-use_of family op location none s t k same = k
Keeps-use_of family op location (some name) s t (seen, facts, spans, uses, runs) same =
    (seen, facts, spans, omega (arith, length-append t.resource_uses (_ ∷ []), same), runs)

pub operand_count-Meets :
    (operands : List Operand) → Meets (λ (n : ℕ). n < 65536) (operand_count operands)
operand_count-Meets operands =
    Meets-if (ltb (length operands) 65536) (λ small. returned (ground arith)) (λ _. raised)

pub push_color_fact-Grows :
    (op : Bytes) (operands : List Operand) (bytes : ℕ) (location : OperatorLocation)
    (s t : ContentStreamSummary)
    → Keeps s t
    → Meets (Grows s) (push_color_fact op operands bytes location t)
unfolding push_color_fact
push_color_fact-Grows op operands bytes location s t k =
    Meets-bind _ (operand_count-Meets operands) (λ n _. returned (Grows-add_fact _ s t k))

pub push_unknown-Grows :
    (op : Bytes) (operands : List Operand) (location : OperatorLocation) (s : ContentStreamSummary)
    → Meets (Grows s) (push_unknown op operands location s)
unfolding push_unknown
push_unknown-Grows op operands location s =
    Meets-bind _ (operand_count-Meets operands)
      λ n _. returned (Grows-add_fact _ s s (Keeps-same s))
