-- ===== src/Trailer/Total.antt =====
-- The fuel of `parse_xref_and_trailer` of crates/core/src/parser.rs.
use pdfv.Base.{
  ℕ, zero, suc, ◌+◌, ◌≤◌, ◌<◌, Bytes, true, false, ◌&&◌, ◌||◌, Option, none, some, [], ◌∷◌, ◌≡◌,
  ◌≢◌, arith, inl, inr, ltb, leb, ◌==◌, length, take, Bool-cases, Option-cases, String,
}
use pdfv.Name.{codes}
use pdfv.Float.{Float}
use pdfv.Limits.{ResourceLimits}
use pdfv.Bytes.{is_ws}
use pdfv.Log.{Log, push_xref_chain_facts}
use pdfv.Cos.{Dictionary}
use pdfv.Cos.Fields.{to_unsigned, integer_from_dictionary, optional_non_negative_offset}
use pdfv.Object.{u32_max, parse_object}
use pdfv.Object.Bounds.{parse_object-Meets, parse_dictionary-Meets}
use pdfv.Error.{ParseError, diverged, checked_add}
use pdfv.Error.Meets.{
  Meets, returned, raised, Meets-bind, Meets-mono, Meets-ensure, Meets-ok_or, Meets-if,
  Meets-ne-diverged,
}
use pdfv.Cursor.{
  Cursor, at, remaining, starts_with, eof_marker, is_eol, skip_ws_and_comments, skip_line, skip_ws,
  skip_required_ws, skip_xref_spaces,
}
use pdfv.Cursor.Moves.{
  Moves, here, over, Moves-trans, Moves-length, Moves-if, Moves-drop, skip_line-Moves,
  skip_ws-Moves, skip_ws_and_comments-Moves, consume_bytes-Meets,
}
use pdfv.Lexer.{parse_fixed_digits, all_digits}
use pdfv.Lexer.Moves.{parse_unsigned-Meets}
use pdfv.Trailer.{
  Trailer, next_line, skip_spaces, entry_marker, at_table_end, Tally, at_trailer, table_entries,
  section_entries, table_section, table_sections, find_trailer, parse_xref_and_trailer,
}

next_line-Moves : (c : Cursor) → Moves c (next_line c)
next_line-Moves (at p rest) = skip_line-Moves p rest

-- A line takes a byte at least.
skip_line-lt :
    (p b : ℕ) (rest : Bytes) → length (remaining (skip_line p (b ∷ rest))) < length (b ∷ rest)
unfolding skip_line
skip_line-lt p b rest = elim (Bool-cases (is_eol b)) [
  | inl eol ↦ rw eol (omega arith)
  | inr other ↦ rw other (omega (arith, Moves-length (skip_line-Moves (p + 1) rest)))
]

next_line-lt :
    (c : Cursor) (n : ℕ) → length (remaining c) ≤ n → 0 < n → length (remaining (next_line c)) < n
unfolding skip_line
next_line-lt (at p []) n h k = k
next_line-lt (at p (b ∷ rest)) n h k = omega (arith, skip_line-lt p b rest)

skip_required_ws-lt :
    (c d : Cursor) → skip_required_ws c ≡ some d → length (remaining d) < length (remaining c)
unfolding skip_required_ws
skip_required_ws-lt (at p []) d h = cc
skip_required_ws-lt (at p (b ∷ rest)) d h = elim (Bool-cases (is_ws b)) [
  | inl ws ↦
      let h' : some (skip_ws (p + 1) rest) ≡ some d = rw (ws) at h in
      let e : skip_ws (p + 1) rest ≡ d = cc in
      let moved : Moves (at (p + 1) rest) d = rw (← e) (skip_ws-Moves (p + 1) rest) in
      omega (arith, Moves-length moved)
  | inr other ↦ let h' : none ≡ some d = rw (other) at h in cc
]

at_table_end-lt : (c : Cursor) → at_table_end c ≡ false → 0 < length (remaining c)
at_table_end-lt (at p []) h = cc
at_table_end-lt (at p (b ∷ rest)) h = omega arith

counted : (n : ℕ) (e : ParseError) → Meets (λ (m : ℕ). Unit {0}) (checked_add n 1 e)
counted n e = Meets-if (ltb (n + 1) 18446744073709551616) (λ _. returned tt) λ _. raised

skip_xref_spaces-Moves : (p : ℕ) (rest : Bytes) → Moves (at p rest) (skip_xref_spaces p rest)
unfolding skip_xref_spaces
skip_xref_spaces-Moves p [] = here
skip_xref_spaces-Moves p (b ∷ rest) =
    Moves-if (b == b'\t' || b == b' ') (over (skip_xref_spaces-Moves (p + 1) rest)) here

skip_spaces-Moves : (c : Cursor) → Moves c (skip_spaces c)
skip_spaces-Moves (at p rest) = skip_xref_spaces-Moves p rest

entry_marker-Moves : (c : Cursor) → Moves c ((entry_marker c).1)
entry_marker-Moves (at p []) = here
entry_marker-Moves (at p (b ∷ rest)) = over here

parse_fixed_digits-Moves : (len : ℕ) (c : Cursor) → Moves c ((parse_fixed_digits len c).1)
unfolding parse_fixed_digits
parse_fixed_digits-Moves len (at p rest) =
    elim (Bool-cases (leb len (length rest) && all_digits (take len rest))) [
      | inl good ↦ rw good (Moves-drop len p rest (ground arith))
      | inr bad ↦ rw bad here
    ]

module _ (source : Bytes) (limits : ResourceLimits) where
  table_entries-Meets :
      (count : ℕ) (tally : Tally) (c : Cursor)
      → Meets (λ (r : Tally × Cursor). Moves c r.1) (table_entries source limits count tally c)
  unfolding table_entries
  table_entries-Meets zero tally c = returned here
  table_entries-Meets (suc count) tally c =
      let offset = parse_fixed_digits 10 c in
      let generation = parse_fixed_digits 5 (skip_spaces offset.1) in
      let marker = entry_marker (skip_spaces generation.1) in
      let m₁ = Moves-trans (parse_fixed_digits-Moves 10 c) (skip_spaces-Moves offset.1) in
      let m₂ =
        Moves-trans (parse_fixed_digits-Moves 5 (skip_spaces offset.1))
          (skip_spaces-Moves generation.1) in
      let m₃ =
        Moves-trans (entry_marker-Moves (skip_spaces generation.1)) (next_line-Moves marker.1) in
      Meets-bind _ (counted tally.1 _) λ parsed _.
        Meets-ensure (leb parsed limits.max_objects) _ _ λ _.
          Meets-mono (table_entries-Meets count _ (next_line marker.1))
            λ r moved. Moves-trans m₁ (Moves-trans m₂ (Moves-trans m₃ moved))

  section_entries-Meets :
      (count : Option ℕ) (tally : Tally) (c : Cursor) (n : ℕ)
      → length (remaining c) ≤ n
      → 0 < n
      → Meets
          (λ (r : Tally × Cursor). length (remaining r.1) < n)
          (section_entries source limits count tally c)
  section_entries-Meets none tally c n h k = returned (next_line-lt c n h k)
  section_entries-Meets (some count) tally c n h k =
      let shorter = next_line-lt c n h k in
      Meets-mono (table_entries-Meets count tally (next_line c))
        λ r moved. omega (arith, Moves-length moved)

  -- A section is left with fewer bytes than `n`, from at most as many.
  table_section-Meets :
      (first_object : Option ℕ) (tally : Tally) (c : Cursor) (n : ℕ)
      → length (remaining c) ≤ n
      → 0 < n
      → Meets
          (λ (r : Tally × Cursor). length (remaining r.1) < n)
          (table_section source limits first_object tally c)
  table_section-Meets none tally c n h k = returned (next_line-lt c n h k)
  table_section-Meets (some first_object) tally c n h k =
      Meets-ok_or (skip_required_ws c) _ _ λ second skipped.
        let shorter = skip_required_ws-lt c second skipped in
        Meets-bind _ (parse_unsigned-Meets 4294967296 second) λ r (moved, small).
          section_entries-Meets r.0 tally r.1 n (omega (arith, Moves-length moved)) k

  table_sections-Meets :
      (fuel : ℕ) (tally : Tally) (c : Cursor)
      → length (remaining c) < fuel
      → Meets (λ (r : Tally × Cursor). Unit {0}) (table_sections source limits fuel tally c)
  unfolding table_sections
  table_sections-Meets zero tally c h = absurd (omega arith)
  table_sections-Meets (suc fuel) tally c h =
      let start = skip_ws_and_comments c in
      let size = Moves-length (skip_ws_and_comments-Moves c) in
      Meets-if (at_table_end start) (λ _. returned tt)
        λ inside.
          let nonempty = at_table_end-lt start inside in
          Meets-bind _ (parse_unsigned-Meets 4294967296 start) λ r (moved, small).
            Meets-bind _
              (table_section-Meets r.0 tally r.1 (length (remaining start)) (Moves-length moved)
                nonempty)
              λ s shorter. table_sections-Meets fuel s.0 s.1 (omega arith)

offset-Meets :
    {F : Type 0} (entries : Dictionary F) (key : String)
    → Meets (λ (n : Option ℕ). Unit {0}) (optional_non_negative_offset entries key)
unfolding optional_non_negative_offset
offset-Meets entries key = elim (Option-cases (integer_from_dictionary entries key)) [
  | inl e ↦ rw (optional_non_negative_offset, e) (returned tt)
  | inr (value, e) ↦ elim (Option-cases (to_unsigned 18446744073709551616 value)) [
    | inl k ↦ rw (optional_non_negative_offset, e, k) raised
    | inr (n, k) ↦ rw (optional_non_negative_offset, e, k) (returned tt)
  ]
]

chain-Meets :
    {F : Type 0} (limits : ResourceLimits) (offset : ℕ) (entries : Dictionary F) (log : Log)
    → Meets (λ (l : Log). Unit {0}) (push_xref_chain_facts limits none offset entries log)
unfolding push_xref_chain_facts
chain-Meets limits offset entries log =
    Meets-bind _ (offset-Meets entries "Prev")
      λ prev _. Meets-bind _ (offset-Meets entries "XRefStm") λ hybrid _. returned tt

module _ (float : Float) (source : Bytes) (limits : ResourceLimits)
    (small : limits.max_object_depth < u32_max) where
  at_trailer-Meets :
      (c : Cursor) (log : Log)
      → Meets
          (λ (r : Option (Trailer float.F64) × (Cursor × Log)). Unit {0})
          (at_trailer float source limits c log)
  at_trailer-Meets c log = Meets-bind _ (consume_bytes-Meets (codes "trailer") c) λ after _.
      Meets-bind _
        (parse_dictionary-Meets float limits 1
          (parse_object float limits (limits.max_object_depth + 1) 1)
          (λ d.
            parse_object-Meets float limits (limits.max_object_depth + 1) 1 d small (omega arith)
              (omega arith))
          (skip_ws_and_comments after))
        λ r _. Meets-bind _ (chain-Meets limits _ r.0 log) λ log' _. returned tt

  find_trailer-Meets :
      (fuel : ℕ) (c : Cursor) (log : Log)
      → length (remaining c) < fuel
      → Meets
          (λ (r : Option (Trailer float.F64) × (Cursor × Log)). Unit {0})
          (find_trailer float source limits fuel c log)
  unfolding find_trailer
  find_trailer-Meets zero c log h = absurd (omega arith)
  find_trailer-Meets (suc fuel) c log h =
      let start = skip_ws_and_comments c in
      let size = Moves-length (skip_ws_and_comments-Moves c) in
      Meets-if (length (remaining start) == 0) (λ _. returned tt)
        λ some_left.
          Meets-if (starts_with (codes "trailer") start) (λ _. at_trailer-Meets start log)
            λ _.
              Meets-if (starts_with (codes "startxref") start || starts_with eof_marker start)
                (λ _. returned tt)
                λ _.
                  let shorter =
                    next_line-lt start (length (remaining start)) (omega arith) (ground arith) in
                  find_trailer-Meets fuel (next_line start) log (omega arith)

  -- Reading a cross-reference table and its trailer ends, whatever is in the source: the fuel for the
  -- bytes that are left is enough for its loops. The limit of the depth is below the largest `u32`.
  pub parse_xref_and_trailer_total :
      (c : Cursor) (log : Log) → parse_xref_and_trailer float source limits c log ≢ diverged
  unfolding parse_xref_and_trailer
  parse_xref_and_trailer_total c log = Meets-ne-diverged {P = λ _. Unit {0}} (
      Meets-bind _ (consume_bytes-Meets (codes "xref") c) λ start _.
        Meets-bind _
          (table_sections-Meets source limits (suc (length (remaining start))) (true, 0) start
            (omega arith))
          λ r _. find_trailer-Meets (suc (length (remaining r.1))) r.1 _ (omega arith))
