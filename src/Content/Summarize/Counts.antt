-- ===== src/Content/Summarize/Counts.antt =====
-- What the loop of `summarize_content_stream` in crates/core/src/content.rs keeps.
use pdfv.Base.{
  ℕ, zero, suc, ◌+◌, ◌≤◌, ◌<◌, Bytes, false, ◌||◌, Option, none, some, List, [], ◌∷◌, ◌≡◌, ◌⊎◌,
  refl, arith, ltb, leb, length, length-append, inl, inr,
}
use pdfv.Limits.{ResourceLimits}
use pdfv.Float.{Float}
use pdfv.Cos.{ObjectKey}
use pdfv.Error.{Result, ParseError, ok, ◌>>=◌, u64_modulus, checked_add}
use pdfv.Error.Meets.{Meets, returned, raised, Meets-bind, Meets-if}
use pdfv.Cursor.{Cursor, at, remaining}
use pdfv.Cursor.Moves.{Moves, here, Moves-length}
use pdfv.Content.Token.{Operand, Token, operand, operator, byte_len}
use pdfv.Content.Tokenizer.Progress.{Takes, next_token-Meets}
use pdfv.Content.InlineImage.Progress.{parse_inline_image-Meets}
use pdfv.Content.Summary.{OperatorLocation, ContentStreamSummary, Interpreter}
use pdfv.Content.Operators.{begin_inline_image, dispatch, classify_operator, apply_operator}
use pdfv.Content.Marks.{span_image, mark_active_spans}
use pdfv.Content.Kind.{OperatorKind, operator_kind}
use pdfv.Content.Operators.Counts.{IsValid, IsValid-Grows, apply_operator-IsValid}
use pdfv.Content.Operators.Growth.{Grows-add_fact, Keeps-mark}
use pdfv.Content.Summarize.{
  clear_operands, push_operand, count_operator, run_operator, after_token, summarize_loop,
  no_operators, dangling, summarize_content_stream,
}

checked_add-Meets :
    (a b : ℕ) (e : ParseError) → Meets (λ (sum : ℕ). sum ≡ a + b) (checked_add a b e)
checked_add-Meets a b e = Meets-if (ltb (a + b) u64_modulus) (λ _. returned refl) (λ _. raised)

module _ (limits : ResourceLimits) where
  pub push_operand-IsValid :
      (value : Operand) (state : Interpreter)
      → IsValid limits 0 state
      → Meets (IsValid limits 0) (push_operand limits value state)
  unfolding push_operand
  push_operand-IsValid value state v =
      Meets-bind _ (checked_add-Meets state.operand_bytes (byte_len value) _) λ next_bytes _.
        Meets-if
          (leb limits.max_content_stream_operand_count (length state.operands)
            || ltb limits.max_content_stream_operand_bytes next_bytes)
          (λ _. returned (record {
            counted = v.counted;
            capped = v.capped;
            few_spans = v.few_spans;
            few_uses = v.few_uses;
            graphics = v.graphics;
            few_operands = omega arith;
            few_bytes = omega arith;
            running = v.running;
            nested = v.nested;
            named = v.named;
          }))
          (λ room. returned (record {
            counted = v.counted;
            capped = v.capped;
            few_spans = v.few_spans;
            few_uses = v.few_uses;
            graphics = v.graphics;
            few_operands = ground (arith, length-append state.operands (value ∷ []));
            few_bytes = ground arith;
            running = v.running;
            nested = v.nested;
            named = v.named;
          }))

-- One fact for each operator, no more operators than the cap and no more spans or uses than operators.
-- A run that was cut off has seen as many operators as the cap.
abbrev pub IsSummary : ResourceLimits → ContentStreamSummary → Type 0
IsSummary limits s =
    (length s.facts ≡ s.operators_seen)
    × (s.operators_seen ≤ limits.max_content_stream_ops)
    × (length s.marked_content ≤ s.operators_seen)
    × (length s.resource_uses ≤ s.operators_seen)
    × ((s.truncated ≡ false) ⊎ (s.operators_seen ≡ limits.max_content_stream_ops))

-- The state is well formed, and the cursor is not before this one.
abbrev Runs : ResourceLimits → Cursor → Interpreter × Cursor → Type 0
Runs limits c r = IsValid limits 0 r.0 × Moves c r.1

module _ (float : Float) (limits : ResourceLimits) (h : float.parse_f64 [] ≡ none) where
  begin_inline_image-Runs :
      (location : OperatorLocation) (state : Interpreter) (c : Cursor)
      → IsValid limits 1 state
      → Meets (Runs limits c) (begin_inline_image float limits location state c)
  unfolding begin_inline_image
  begin_inline_image-Runs location state c v =
      let marked = mark_active_spans span_image state.marked_stack state.summary in
      Meets-bind _ (parse_inline_image-Meets float limits h c) λ r moved. returned (
        IsValid-Grows limits state _ v (
            Grows-add_fact _ state.summary marked
              (Keeps-mark span_image state.marked_stack state.summary)),
        moved,
      )

  kind-Runs :
      (kind : OperatorKind) (op : Bytes) (location : OperatorLocation) (state : Interpreter)
      (c : Cursor)
      → IsValid limits 1 state
      → Meets
          (Runs limits c)
          (apply_operator float limits kind op location state >>= (λ state'. ok (state', c)))
  kind-Runs kind op location state c v =
      Meets-bind _ (apply_operator-IsValid limits float op location state v kind)
        λ state' v'. returned (v', here)

  dispatch-Runs :
      (kind : OperatorKind) (op : Bytes) (location : OperatorLocation) (state : Interpreter)
      (c : Cursor)
      → IsValid limits 1 state
      → Meets (Runs limits c) (dispatch float limits kind op location state c)
  unfolding dispatch
  dispatch-Runs OperatorKind.begin_image op location state c v =
      begin_inline_image-Runs location state c v
  dispatch-Runs kind op location state c v = kind-Runs kind op location state c v

  classify_operator-Runs :
      (op : Bytes) (location : OperatorLocation) (state : Interpreter) (c : Cursor)
      → IsValid limits 1 state
      → Meets (Runs limits c) (classify_operator float limits op location state c)
  unfolding classify_operator
  classify_operator-Runs op location state c v =
      dispatch-Runs (operator_kind op) op location state c v

  module _ (source : ObjectKey) (path : Bytes) where
    run_operator-Runs :
        (op : Bytes) (offset : ℕ) (state : Interpreter) (c : Cursor)
        → state.summary.operators_seen < limits.max_content_stream_ops
        → IsValid limits 0 state
        → Meets (Runs limits c) (run_operator float limits source path op offset state c)
    unfolding run_operator
    run_operator-Runs op offset state c below v =
        Meets-bind _ (checked_add-Meets state.summary.operators_seen 1 _) λ seen same.
          Meets-bind _
            (classify_operator-Runs op _ (count_operator state seen) c (counting seen same))
            λ r (v', moved). returned (cleared r.0 v', moved)
      where
        counting :
            (seen : ℕ)
            → seen ≡ state.summary.operators_seen + 1
            → IsValid limits 1 (count_operator state seen)
        counting seen same = record {
          counted = omega (arith, v.counted);
          capped = omega arith;
          few_spans = omega (arith, v.few_spans);
          few_uses = omega (arith, v.few_uses);
          graphics = v.graphics;
          few_operands = v.few_operands;
          few_bytes = v.few_bytes;
          running = v.running;
          nested = v.nested;
          named = v.named;
        }

        cleared :
            (state : Interpreter) → IsValid limits 0 state → IsValid limits 0 (clear_operands state)
        cleared state v = record {
          counted = v.counted;
          capped = v.capped;
          few_spans = v.few_spans;
          few_uses = v.few_uses;
          graphics = v.graphics;
          few_operands = omega arith;
          few_bytes = omega arith;
          running = v.running;
          nested = v.nested;
          named = v.named;
        }

    valid_summary : (state : Interpreter) → IsValid limits 0 state → IsSummary limits state.summary
    valid_summary state v = (
      omega (arith, v.counted),
      v.capped,
      omega (arith, v.few_spans),
      omega (arith, v.few_uses),
      inl v.running,
    )

    after_token-Meets :
        (again : Interpreter → Cursor → Result Interpreter) (state : Interpreter) (c : Cursor)
        (r : Option Token × Cursor)
        → IsValid limits 0 state
        → Takes float limits c r
        → ((state : Interpreter) (d : Cursor)
            → length (remaining d) < length (remaining c)
            → IsValid limits 0 state
            → Meets (λ (s : Interpreter). IsSummary limits s.summary) (again state d))
        → Meets
            (λ (s : Interpreter). IsSummary limits s.summary)
            (after_token float limits source path again state r)
    after_token-Meets again state c (none, after) v takes k = returned (valid_summary state v)
    after_token-Meets again state c (some (operand value), after) v takes k =
        Meets-bind _ (push_operand-IsValid limits value state v)
          (λ state' v'. k state' after takes.1 v')
    after_token-Meets again state c (some (operator op offset), after) v takes k =
        Meets-if (leb limits.max_content_stream_ops state.summary.operators_seen)
          (λ full. returned (
            omega (arith, v.counted),
            v.capped,
            omega (arith, v.few_spans),
            omega (arith, v.few_uses),
            inr (ground (arith, v.capped)),
          ))
          (λ room.
            Meets-bind _ (run_operator-Runs op offset state after (ground arith) v)
              λ r (v', moved). k r.0 r.1 (omega (arith, Moves-length moved, takes.1)) v')

    summarize_loop-Meets :
        (fuel : ℕ) (state : Interpreter) (c : Cursor)
        → length (remaining c) < fuel
        → IsValid limits 0 state
        → Meets
            (λ (s : Interpreter). IsSummary limits s.summary)
            (summarize_loop float limits source path fuel state c)
    unfolding summarize_loop
    summarize_loop-Meets zero state c enough v = absurd (omega arith)
    summarize_loop-Meets (suc fuel) state c enough v =
        Meets-bind _ (next_token-Meets float limits h c) λ r takes.
          after_token-Meets _ state c r v takes
            λ state' d less v'. summarize_loop-Meets fuel state' d (omega arith) v'

    no_operators-IsValid : IsValid limits 0 (no_operators float limits source path)
    no_operators-IsValid = record {
      counted = omega arith;
      capped = omega arith;
      few_spans = omega arith;
      few_uses = omega arith;
      graphics = omega arith;
      few_operands = omega arith;
      few_bytes = omega arith;
      running = refl;
      nested = omega arith;
      named = tt;
    }

    dangling-IsSummary :
        (operands : List Operand) (s : ContentStreamSummary)
        → IsSummary limits s
        → IsSummary limits (dangling float limits source path operands s)
    dangling-IsSummary [] s h = h
    dangling-IsSummary (_ ∷ _) s h = h

    pub summarize_content_stream-Meets :
        (decoded : Bytes)
        → Meets (IsSummary limits) (summarize_content_stream float limits source path decoded)
    unfolding summarize_content_stream
    summarize_content_stream-Meets decoded =
        Meets-bind _ (summarize_loop-Meets _ _ (at 0 decoded) (omega arith) no_operators-IsValid)
          λ state s. returned (dangling-IsSummary state.operands state.summary s)
