-- ===== src/Content/Summarize.antt =====
-- `summarize_content_stream` and `push_operand` of crates/core/src/content.rs.

pub mod Counts
use pdfv.Base.{
  ℕ, zero, suc, ◌+◌, Bytes, Bool, true, false, ◌||◌, Option, none, some, List, [], ◌∷◌, ◌++◌, ltb,
  leb, if◌then◌else◌, length,
}
use pdfv.Limits.{ResourceLimits}
use pdfv.Float.{Float}
use pdfv.Cos.{ObjectKey}
use pdfv.Error.{Result, ok, err, diverged, ◌>>=◌, arithmetic_overflow, checked_add}
use pdfv.Cursor.{Cursor, at, remaining}
use pdfv.Content.Token.{Operand, Token, operand, operator, byte_len}
use pdfv.Content.Tokenizer.{next_token}
use pdfv.Content.Summary.{OperatorLocation, ContentStreamSummary, Interpreter, warn}
use pdfv.Content.Operators.{classify_operator}

abbrev pub clear_operands : Interpreter → Interpreter
clear_operands state = record state { operands = []; operand_bytes = 0 }

-- Over a cap, all operands are dropped with a warning.
unfoldable pub push_operand : ResourceLimits → Operand → Interpreter → Result Interpreter
unfolding byte_len
push_operand limits value state = do
  next_bytes ←
      checked_add state.operand_bytes (byte_len value)
        (arithmetic_overflow "content stream operand bytes")
  if leb limits.max_content_stream_operand_count (length state.operands)
        || ltb limits.max_content_stream_operand_bytes next_bytes
      then ok (record state {
        operands = [];
        operand_bytes = 0;
        summary = warn "content stream operand cap reached" state.summary;
      })
      else ok (record state { operands = state.operands ++ value ∷ []; operand_bytes = next_bytes })

abbrev pub truncate : Interpreter → Interpreter
truncate state = record state {
  summary = record (warn "content stream operator cap reached" state.summary) { truncated = true };
}

abbrev pub count_operator : Interpreter → ℕ → Interpreter
count_operator state seen = record state {
  summary = record (state.summary) { operators_seen = seen };
}

abbrev pub operator_location : ObjectKey → Bytes → ℕ → ℕ → OperatorLocation
operator_location source path ordinal offset = record {
  object = source;
  offset = offset;
  path = path;
  ordinal = ordinal;
}

module _ (float : Float) (limits : ResourceLimits) (source : ObjectKey) (path : Bytes) where
  -- An operator below the cap: it is counted and classified, and its operands are dropped.
  unfoldable pub run_operator : Bytes → ℕ → Interpreter → Cursor → Result (Interpreter × Cursor)
  run_operator op offset state c = do
    seen ←
        checked_add state.summary.operators_seen 1
          (arithmetic_overflow "content stream operator count")
    (state', after) ←
        classify_operator float limits op (operator_location source path seen offset)
          (count_operator state seen) c
    ok (clear_operands state', after)

  abbrev pub after_token :
      (Interpreter → Cursor → Result Interpreter)
      → Interpreter
      → Option Token × Cursor
      → Result Interpreter
  after_token again state (none, after) = ok state
  after_token again state (some (operand value), after) =
      push_operand limits value state >>= λ state'. again state' after
  after_token again state (some (operator op offset), after) =
      if leb limits.max_content_stream_ops state.summary.operators_seen
      then ok (truncate state)
      else run_operator op offset state after >>= λ (state', rest). again state' rest

  -- The loop over the tokens; each takes a byte, and the fuel is for the bytes that are left.
  unfoldable pub summarize_loop : ℕ → Interpreter → Cursor → Result Interpreter
  summarize_loop zero state c = diverged
  summarize_loop (suc fuel) state c =
      next_token float limits c >>= after_token (summarize_loop fuel) state

  abbrev pub no_operators : Interpreter
  no_operators = record {
    operands = [];
    operand_bytes = 0;
    graphics_depth = 0;
    marked_depth = 0;
    marked_stack = [];
    summary = record {
      source = source;
      operators_seen = 0;
      facts = [];
      marked_content = [];
      resource_uses = [];
      warnings = [];
      truncated = false;
    };
  }

  abbrev pub dangling : List Operand → ContentStreamSummary → ContentStreamSummary
  dangling [] s = s
  dangling (_ ∷ _) s = warn "content stream ended with dangling operands" s

  unfoldable pub summarize_content_stream : Bytes → Result ContentStreamSummary
  summarize_content_stream decoded = do
    state ← summarize_loop (suc (length decoded)) no_operators (at 0 decoded)
    ok (dangling state.operands state.summary)
