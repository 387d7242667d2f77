-- ===== src/Body/Ranges.antt =====
-- Where the data of a stream lies in its source.
use pdfv.Base.{
  ℕ, ◌+◌, ◌-◌, ◌≤◌, ◌<◌, Bytes, true, not, ◌||◌, Option, none, some, [], ◌∷◌, ◌≡◌, refl, ap, inl,
  inr, arith, ltb, ◌==◌, length, take, drop, length-take, length-drop, le→leb, le→ltb, Bool-cases,
  Option-cases,
}
use pdfv.Error.{ok}
use pdfv.Error.Meets.{Meets, returned, Meets-ok_or, Meets-eq-ok, Meets-bind, Meets-ensure}
use pdfv.Limits.{ResourceLimits}
use pdfv.Cursor.Moves.{is_prefix-length}
use pdfv.Cursor.{Cursor, cursor_at, position, is_prefix, starts_with, skip_ws_and_comments}
use pdfv.Source.{
  SourceStorage, memory, spill_file, source_bytes, find_from, find_bytes, endstream_marker,
  endstream_after_optional_eol, trim_eol_before, slice, stream_source,
}
use pdfv.Cos.{StreamRange, StreamData, ObjectKey, Dictionary}
use pdfv.Decode.{raw_bytes}
use pdfv.Name.{codes}
use pdfv.Log.{Log}
use pdfv.Cos.Fields.{integer_from_dictionary}
use pdfv.Cursor.Moves.{consume_bytes-Meets}
use pdfv.Body.{
  declared_of, exceeds, skip_stream_eol, declared_end, scan_endstream, stream_end, parse_stream,
}

take-all : (bytes : Bytes) → take (length bytes) bytes ≡ bytes
take-all [] = refl
take-all (b ∷ bytes) = ap (◌∷◌ b) (take-all bytes)

find_from-bounds :
    (needle : Bytes) (pos : ℕ) (bytes : Bytes) {found : ℕ}
    → find_from needle pos bytes ≡ some found
    → (pos ≤ found) × (found < pos + length bytes)
unfolding find_from
find_from-bounds needle pos [] h = cc
find_from-bounds needle pos (b ∷ rest) {found} h = elim (Bool-cases (is_prefix needle (b ∷ rest))) [
  | inl there ↦
      let same : some pos ≡ some found = rw (there) at h in let e : pos ≡ found = cc in omega arith
  | inr later ↦
      let h' : find_from needle (pos + 1) rest ≡ some found = rw (later) at h in
      omega (arith, find_from-bounds needle (pos + 1) rest h')
]

find_bytes-bounds :
    (source needle : Bytes) (start end : ℕ) {found : ℕ}
    → find_bytes source needle start end ≡ some found
    → (start ≤ found) × (found ≤ length source)
unfolding find_bytes
find_bytes-bounds source needle start end {found} h =
    elim (Bool-cases (length needle == 0 || ltb end start || ltb (length source) end)) [
      | inl bad ↦ let h' : none ≡ some found = rw (bad) at h in cc
      | inr good ↦
          let window = take (end - start) (drop start source) in
          let h' : find_from needle start window ≡ some found = rw (good) at h in
          let ordered : start ≤ end = ground arith in
          let inside : end ≤ length source = ground arith in
          let room = length-drop start source in
          let size = length-take (end - start) (drop start source) (omega arith) in
          omega (arith, find_from-bounds needle start window h')
    ]

trim_eol_before-bounds :
    (source : Bytes) (data_start keyword_pos : ℕ)
    → data_start ≤ keyword_pos
    → (data_start ≤ trim_eol_before source data_start keyword_pos)
      × (trim_eol_before source data_start keyword_pos ≤ keyword_pos)
unfolding trim_eol_before
trim_eol_before-bounds source data_start keyword_pos h = ground arith

prefix_inside :
    (e : ℕ) (expected source : Bytes) (offset : ℕ)
    → starts_with (e ∷ expected) (cursor_at source offset) ≡ true
    → offset ≤ length source
prefix_inside e expected source offset h =
    omega (arith, is_prefix-length (e ∷ expected) (drop offset source) h, length-drop offset source)

endstream_inside :
    (source : Bytes) (offset : ℕ) {found : ℕ}
    → endstream_after_optional_eol source offset ≡ some found
    → offset ≤ length source
unfolding endstream_after_optional_eol
endstream_inside source offset {found} h =
    let c = cursor_at source offset in
    elim (Bool-cases (starts_with endstream_marker c)) [
      | inl plain ↦ prefix_inside b'e' (codes "ndstream") source offset plain
      | inr n1 ↦ elim (Bool-cases (starts_with (b'\r' ∷ b'\n' ∷ endstream_marker) c)) [
        | inl crlf ↦ prefix_inside b'\r' (b'\n' ∷ endstream_marker) source offset crlf
        | inr n2 ↦ elim (Bool-cases (starts_with (b'\n' ∷ endstream_marker) c)) [
          | inl lf ↦ prefix_inside b'\n' endstream_marker source offset lf
          | inr n3 ↦ elim (Bool-cases (starts_with (b'\r' ∷ endstream_marker) c)) [
            | inl cr ↦ prefix_inside b'\r' endstream_marker source offset cr
            | inr n4 ↦ let h' : none ≡ some found = rw (n1, n2, n3, n4) at h in cc
          ]
        ]
      ]
    ]

scan :
    (source : Bytes) (limits : ResourceLimits) (data_start : ℕ)
    → Meets
        (λ (r : ℕ × ℕ). (data_start ≤ r.0) × (r.0 ≤ length source))
        (scan_endstream source limits data_start)
unfolding scan_endstream
scan source limits data_start =
    Meets-ok_or (find_bytes source endstream_marker data_start _) _ _ λ k there.
      let (after, inside) = find_bytes-bounds source endstream_marker data_start _ there in
      let trimmed = trim_eol_before-bounds source data_start k after in
      returned (trimmed.0, omega (arith, trimmed.1))

-- The end of the data is between its start and the end of the source.
stream_end-Meets :
    (source : Bytes) (limits : ResourceLimits) (data_start : ℕ) (declared : Option ℕ)
    → ((n : ℕ) → declared ≡ some n → data_start ≤ n)
    → Meets
        (λ (r : ℕ × ℕ). (data_start ≤ r.0) × (r.0 ≤ length source))
        (stream_end source limits data_start declared)
unfolding stream_end
stream_end-Meets source limits data_start none h = scan source limits data_start
stream_end-Meets source limits data_start (some n) h =
    elim (Option-cases (endstream_after_optional_eol source n)) [
      | inl absent ↦ rw (absent, stream_end) (scan source limits data_start)
      | inr (k, present) ↦
          rw (present, stream_end) (returned (h n refl, endstream_inside source n present))
    ]

declared_end-le :
    (data_start : ℕ) (declared : Option ℕ) (n : ℕ)
    → declared_end data_start declared ≡ some n
    → data_start ≤ n
declared_end-le data_start none n h = cc
declared_end-le data_start (some length) n h = ground arith

-- The stored source and range have the bytes between the two places, of a source of either kind.
pub stream_source-raw_bytes :
    (storage : SourceStorage) (start end : ℕ)
    → start ≤ end
    → end ≤ length (source_bytes storage)
    → Meets
        (λ (r : Bytes × StreamRange).
          raw_bytes r.0 r.1 ≡ ok (take (end - start) (drop start (source_bytes storage))))
        (stream_source storage start end)
unfolding stream_source slice raw_bytes
stream_source-raw_bytes (memory source) start end h k =
    returned (rw (le→leb start end h, le→leb end (length source) k) refl)
stream_source-raw_bytes (spill_file source) start end h k =
    let bytes = take (end - start) (drop start source) in
    let n = length bytes in
    let all : take (n - 0) bytes ≡ bytes =
      let same : n - 0 ≡ n = omega arith in rw (same) (take-all bytes) in
    rw (le→ltb end start h, le→ltb (length source) end k)
      (returned (rw (le→leb 0 n (omega arith), le→leb n n (omega arith), all) refl))

abbrev HasRaw : StreamData → Type 0
HasRaw parsed =
    (bytes : Bytes) × (raw_bytes parsed.raw_source parsed.raw_range ≡ ok bytes)
    × (length bytes ≡ parsed.discovered_length)

parse_stream-Meets :
    {F : Type 0} (storage : SourceStorage) (limits : ResourceLimits) (key : ObjectKey)
    (entries : Dictionary F) (c : Cursor) (log : Log)
    → Meets
        (λ (r : StreamData × (Cursor × Log)). HasRaw r.0)
        (parse_stream storage limits key entries c log)
unfolding parse_stream
parse_stream-Meets storage limits key entries c log =
    let source = source_bytes storage in
    let declared = declared_of (integer_from_dictionary entries "Length") in
    Meets-bind _ (consume_bytes-Meets (codes "stream") (skip_ws_and_comments c)) λ after_keyword _.
      let start = position (skip_stream_eol after_keyword) in
      Meets-ensure (not (exceeds declared limits.max_stream_declared_bytes)) _ _ λ _.
        Meets-bind _
          (stream_end-Meets source limits start (declared_end start declared)
            (declared_end-le start declared))
          λ r (after, inside).
            Meets-bind _ (consume_bytes-Meets endstream_marker (cursor_at source r.1)) λ d _.
              Meets-bind _ (stream_source-raw_bytes storage start r.0 after inside) λ raw read.
                let size = length-drop start source in
                returned (_, read, length-take (r.0 - start) (drop start source) (omega arith))

-- A stream that is parsed has its raw bytes: reading them does not fail, and gives as many as the
-- stream's discovered length, for a source in memory or in a spill file.
pub parse_stream-raw_bytes :
    {F : Type 0} (storage : SourceStorage) (limits : ResourceLimits) (key : ObjectKey)
    (entries : Dictionary F) (c : Cursor) (log : Log) (parsed : StreamData) (after : Cursor × Log)
    → parse_stream storage limits key entries c log ≡ ok (parsed, after)
    → (bytes : Bytes) × (raw_bytes parsed.raw_source parsed.raw_range ≡ ok bytes)
      × (length bytes ≡ parsed.discovered_length)
parse_stream-raw_bytes storage limits key entries c log parsed after h =
    Meets-eq-ok (parse_stream-Meets storage limits key entries c log) h
