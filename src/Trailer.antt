-- ===== src/Trailer.antt =====
-- Cross-reference tables and trailers: `parse_xref_and_trailer` and `parse_post_eof_fact` of
-- crates/core/src/parser.rs.
pub mod Total
use pdfv.Base.{
  ℕ, zero, suc, ◌+◌, ◌-◌, Bytes, Bool, true, false, not, ◌&&◌, ◌||◌, Option, none, some, List, [],
  ◌∷◌, ◌++◌, ltb, leb, ◌==◌, if◌then◌else◌, length,
}
use pdfv.Name.{codes}
use pdfv.Float.{Float}
use pdfv.Limits.{ResourceLimits}
use pdfv.Error.{
  Result, ok, diverged, ◌>>=◌, ◌>>◌, ensure, text, malformed, limit_exceeded, arithmetic_overflow,
  checked_add, ok_or,
}
use pdfv.Cursor.{
  Cursor, at, position, remaining, starts_with, consume_bytes, eof_marker, skip_ws_and_comments,
  skip_line, skip_required_ws, skip_xref_spaces,
}
use pdfv.Source.{line_had_eol, count_trailing_ws}
use pdfv.Fact.{ObjectLocation, xref, eol_markers_comply, malformed_classic, post_eof_data}
use pdfv.Cos.{Dictionary}
use pdfv.Log.{Log, push_fact, push_xref_chain_facts}
use pdfv.Lexer.{parse_unsigned_u32, parse_fixed_digits}
use pdfv.Object.{parse_object, parse_dictionary}

pub record Trailer (F : Type 0) : Type 0 where
  pub entries : Dictionary F
  pub offset : ℕ

abbrev pub next_line : Cursor → Cursor
next_line (at p rest) = skip_line p rest

abbrev pub skip_spaces : Cursor → Cursor
skip_spaces (at p rest) = skip_xref_spaces p rest

abbrev is_some : Option ℕ → Bool
is_some none = false
is_some (some n) = true

-- The byte that marks an entry, and the cursor after it.
abbrev pub entry_marker : Cursor → Bool × Cursor
entry_marker (at p []) = (false, at p [])
entry_marker (at p (b ∷ rest)) = (b == b'n' || b == b'f', at (p + 1) rest)

abbrev pub at_table_end : Cursor → Bool
at_table_end (at p []) = true
at_table_end (at p (b ∷ rest)) =
    starts_with (codes "trailer") (at p (b ∷ rest))
    || starts_with (codes "startxref") (at p (b ∷ rest))
    || starts_with eof_marker (at p (b ∷ rest))

-- Whether the entries comply, and how many there are.
abbrev pub Tally : Type 0
Tally = Bool × ℕ

module _ (source : Bytes) (limits : ResourceLimits) where
  -- The loop over the entries of a section: `count` are left.
  unfoldable pub table_entries : ℕ → Tally → Cursor → Result (Tally × Cursor)
  table_entries zero tally c = ok (tally, c)
  table_entries (suc count) tally c = do
    let offset = parse_fixed_digits 10 c
    let generation = parse_fixed_digits 5 (skip_spaces offset.1)
    let marker = entry_marker (skip_spaces generation.1)
    let good =
        is_some offset.0 && is_some generation.0 && marker.0 && line_had_eol source (position c)
    parsed ← checked_add tally.1 1 (arithmetic_overflow "xref entries")
    ensure (leb parsed limits.max_objects) (limit_exceeded "max_objects")
    table_entries count (tally.0 && good, parsed) (next_line marker.1)

  abbrev pub section_entries : Option ℕ → Tally → Cursor → Result (Tally × Cursor)
  section_entries none tally c = ok ((false, tally.1), next_line c)
  section_entries (some count) tally c = table_entries count tally (next_line c)

  abbrev pub table_section : Option ℕ → Tally → Cursor → Result (Tally × Cursor)
  table_section none tally c = ok ((false, tally.1), next_line c)
  table_section (some first_object) tally c = do
    second ← ok_or (skip_required_ws c) (malformed (text "expected whitespace"))
    (count, after) ← parse_unsigned_u32 second
    section_entries count tally after

  -- The loop over the sections, with fuel for the bytes that are left.
  unfoldable pub table_sections : ℕ → Tally → Cursor → Result (Tally × Cursor)
  table_sections zero tally c = diverged
  table_sections (suc fuel) tally c =
      let start = skip_ws_and_comments c in
      if at_table_end start then ok (tally, start) else do
        (first_object, after) ← parse_unsigned_u32 start
        (tally', next) ← table_section first_object tally after
        table_sections fuel tally' next

module _ (float : Float) (source : Bytes) (limits : ResourceLimits) where
  abbrev pub at_trailer : Cursor → Log → Result (Option (Trailer float.F64) × (Cursor × Log))
  at_trailer c log = do
    after ← consume_bytes (codes "trailer") c
    let start = skip_ws_and_comments after
    (entries, next) ←
        parse_dictionary float limits (parse_object float limits (limits.max_object_depth + 1) 1)
          start
    log' ← push_xref_chain_facts limits none (position start) entries log
    ok (some (record { entries = entries; offset = position start }), (next, log'))

  -- The search for the trailer, with fuel for the bytes that are left.
  unfoldable pub find_trailer :
      ℕ → Cursor → Log → Result (Option (Trailer float.F64) × (Cursor × Log))
  find_trailer zero c log = diverged
  find_trailer (suc fuel) c log =
      let start = skip_ws_and_comments c in
      if length (remaining start) == 0
      then ok (none, (start, log))
      else if starts_with (codes "trailer") start
      then at_trailer start log
      else if starts_with (codes "startxref") start || starts_with eof_marker start
      then ok (none, (start, log))
      else find_trailer fuel (next_line start) log

  unfoldable pub parse_xref_and_trailer :
      Cursor → Log → Result (Option (Trailer float.F64) × (Cursor × Log))
  parse_xref_and_trailer c log = do
    start ← consume_bytes (codes "xref") c
    (tally, after) ← table_sections source limits (suc (length (remaining start))) (true, 0) start
    let section : ObjectLocation = record { object = none; offset = some (position c) }
    let fact = xref section (if tally.0 then eol_markers_comply else malformed_classic)
    find_trailer (suc (length (remaining after))) after (push_fact limits fact log)

-- After the mark of the end of the file.
unfoldable pub parse_post_eof_fact : ResourceLimits → Cursor → Log → Result (Cursor × Log)
parse_post_eof_fact limits c log = do
  after ← consume_bytes eof_marker c
  let rest = remaining after
  let left = length rest - count_trailing_ws rest
  ok (after, if ltb 0 left then push_fact limits (post_eof_data left) log else log)
