-- ===== src/Xref/Entries.antt =====
-- Reading the entries of a cross-reference stream.
use pdfv.Base.{
  ℕ, zero, suc, ◌+◌, ◌*◌, ◌/◌, ◌≤◌, ◌<◌, ◌-◌, Bytes, IsByte, IsBytes, All-take, All-drop, List, [],
  ◌∷◌, ◌≡◌, refl, ap, ◌∙◌, inl, inr, arith, lt→ltb, le→leb, ◌==◌, length, take, drop, length-take,
  length-drop, Bool-cases,
}
use pdfv.Limits.{ResourceLimits}
use pdfv.Error.{ok, u64_modulus}
use pdfv.Xref.{
  Widths, be_value, read_be_uint, entry_kind, read_entries, read_sections, total_entries,
  summarize_entries,
}

-- A value below this bound leaves room for `n` more bytes in 64 bits.
abbrev room : ℕ → ℕ
room zero = u64_modulus
room (suc n) = room n / 256

room-le : (n : ℕ) → room n ≤ u64_modulus
room-le zero = omega arith
room-le (suc n) = omega (arith, room-le n)

room-pos : (d w : ℕ) → w + d ≡ 8 → 0 < room w
room-pos zero w h = let same : w ≡ 8 = omega arith in rw (same) (omega arith)
room-pos (suc d) w h = omega (arith, room-pos d (suc w) (omega arith))

be_value-fits :
    (field : Bytes) (value : ℕ)
    → IsBytes field
    → value < room (length field)
    → (n : ℕ) × (be_value value field ≡ ok n)
unfolding be_value
be_value-fits [] value h small = (value, refl)
be_value-fits (b ∷ field) value h small =
    let below = room-le (length field) in
    let small_byte = h.0 in
    let shifted = lt→ltb (value * 256) u64_modulus (omega arith) in
    let added = lt→ltb (value * 256 + b) u64_modulus (omega arith) in
    rw (shifted, added) (be_value-fits field (value * 256 + b) h.1 (omega arith))

read_be_uint-fits :
    (bytes : Bytes) (pos width : ℕ)
    → IsBytes bytes
    → length bytes < u64_modulus
    → width ≤ 8
    → pos + width ≤ length bytes
    → (n : ℕ) × (read_be_uint bytes pos width ≡ ok (n, pos + width))
unfolding read_be_uint
read_be_uint-fits bytes pos width h size narrow inside =
    let field = take width (drop pos bytes) in
    let field_size = length-take width (drop pos bytes) (omega (arith, length-drop pos bytes)) in
    let start = room-pos (8 - width) width (omega arith) in
    let field_bytes = All-take IsByte width (drop pos bytes) (All-drop IsByte pos bytes h) in
    let (n, read) = be_value-fits field 0 field_bytes (rw (field_size) start) in
    (n, rw (lt→ltb (pos + width) u64_modulus (omega arith), le→leb _ _ inside, read) refl)

-- The number of entries in the sections.
abbrev pub count_of : List (ℕ × ℕ) → ℕ
count_of [] = 0
count_of (section ∷ sections) = section.1 + count_of sections

abbrev pub IsNarrow : Widths → Type 0
IsNarrow widths = (widths.kind ≤ 8) × (widths.second ≤ 8) × (widths.third ≤ 8)

abbrev pub row : Widths → ℕ
row widths = widths.kind + widths.second + widths.third

module _ (widths : Widths) (decoded : Bytes) (narrow : IsNarrow widths) (h : IsBytes decoded)
    (size : length decoded < u64_modulus) where
  entry_kind-fits :
      (pos : ℕ)
      → pos + widths.kind ≤ length decoded
      → (n : ℕ) × (entry_kind decoded pos widths.kind ≡ ok (n, pos + widths.kind))
  entry_kind-fits pos inside = elim (Bool-cases (widths.kind == 0)) [
    | inl absent ↦ let same : pos + widths.kind ≡ pos = ground arith in (1, rw (absent, same) refl)
    | inr present ↦
        let (n, read) = read_be_uint-fits decoded pos widths.kind h size narrow.0 inside in
        (n, rw (present, read) refl)
  ]

  read_entries-fits :
      (count pos compressed : ℕ)
      → pos + count * row widths ≤ length decoded
      → compressed + count < u64_modulus
      → (more : ℕ) × (read_entries widths decoded count pos compressed
          ≡ ok (pos + count * row widths, more))
        × (more ≤ compressed + count)
  unfolding read_entries
  read_entries-fits zero pos compressed inside fits =
      let same : pos + 0 * row widths ≡ pos = omega arith in
      (compressed, rw (same) refl, omega arith)
  read_entries-fits (suc count) pos compressed inside fits =
      let (k, s, t) : ℕ × ℕ × ℕ = (widths.kind, widths.second, widths.third) in
      let rows : suc count * row widths ≡ k + s + t + count * row widths = omega arith in
      let (kind, read_kind) = entry_kind-fits pos (omega arith) in
      let (two, read_two) = read_be_uint-fits decoded (pos + k) s h size narrow.1 (omega arith) in
      let (three, read_three) =
        read_be_uint-fits decoded (pos + k + s) t h size narrow.2 (omega arith) in
      let same : pos + suc count * row widths ≡ pos + k + s + t + count * row widths =
        omega arith in
      let inside' : pos + k + s + t + count * row widths ≤ length decoded = omega arith in
      elim (Bool-cases (kind == 2)) [
        | inl packed ↦
            let (more, read, small) =
              read_entries-fits count (pos + k + s + t) (compressed + 1) inside' (omega arith) in
            let counted = lt→ltb (compressed + 1) u64_modulus (omega arith) in
            (
              more,
              rw (read_kind, read_two, read_three, packed, counted, read, same) refl,
              omega arith,
            )
        | inr other ↦
            let (more, read, small) =
              read_entries-fits count (pos + k + s + t) compressed inside' (omega arith) in
            (more, rw (read_kind, read_two, read_three, other, read, same) refl, omega arith)
      ]

  read_sections-fits :
      (sections : List (ℕ × ℕ)) (pos compressed : ℕ)
      → pos + count_of sections * row widths ≤ length decoded
      → compressed + count_of sections < u64_modulus
      → (after : ℕ) × (more : ℕ) × (read_sections widths decoded sections pos compressed
          ≡ ok (after, more))
        × (more ≤ compressed + count_of sections)
  unfolding read_sections
  read_sections-fits [] pos compressed inside fits = (pos, compressed, refl, omega arith)
  read_sections-fits (section ∷ sections) pos compressed inside fits =
      let n = section.1 in
      let rows : (n + count_of sections) * row widths
          ≡ n * row widths + count_of sections * row widths =
        omega arith in
      let (more, read, small) = read_entries-fits n pos compressed (omega arith) (omega arith) in
      let (after, total, read', small') =
        read_sections-fits sections (pos + n * row widths) more (omega arith) (omega arith) in
      (after, total, rw (read, read') refl, omega arith)

total_entries-fits :
    (sections : List (ℕ × ℕ)) (sum : ℕ)
    → sum + count_of sections < u64_modulus
    → total_entries sum sections ≡ ok (sum + count_of sections)
unfolding total_entries
total_entries-fits [] sum fits = let same : sum + 0 ≡ sum = omega arith in rw (same) refl
total_entries-fits (section ∷ sections) sum fits =
    let next = lt→ltb (sum + section.1) u64_modulus (omega arith) in
    let same : sum + (section.1 + count_of sections) ≡ sum + section.1 + count_of sections =
      omega arith in
    rw (next, same) (total_entries-fits sections (sum + section.1) (omega arith))

-- Where the declared entries are within the limit on objects and the decoded bytes are enough for
-- them, no field is out of bounds and nothing overflows: the summary counts all of them, and at most
-- that many compressed ones. The widths are at most 8, and the lengths are those of a `usize`.
pub summarize_entries_complete :
    (limits : ResourceLimits) (widths : Widths) (indexes : List (ℕ × ℕ)) (decoded : Bytes)
    → IsNarrow widths
    → IsBytes decoded
    → length decoded < u64_modulus
    → limits.max_objects < u64_modulus
    → count_of indexes ≤ limits.max_objects
    → count_of indexes * row widths ≤ length decoded
    → (compressed : ℕ) × (summarize_entries limits widths indexes (row widths) decoded
        ≡ ok (record {
          decoded_bytes = length decoded;
          entries = count_of indexes;
          compressed_entries = compressed;
        }))
      × (compressed ≤ count_of indexes)
unfolding summarize_entries
summarize_entries_complete limits widths indexes decoded narrow h size bound few enough =
    let n = count_of indexes in
    let (after, compressed, read, small) =
      read_sections-fits widths decoded narrow h size indexes 0 0 (omega arith) (omega arith) in
    let sum : 0 + n ≡ n = omega arith in
    let total : total_entries 0 indexes ≡ ok n =
      total_entries-fits indexes 0 (omega arith) ∙ ap ok sum in
    let within = le→leb n limits.max_objects few in
    let bytes = lt→ltb (n * row widths) u64_modulus (omega arith) in
    let covered = le→leb (n * row widths) (length decoded) enough in
    (compressed, rw (total, within, bytes, covered, read) refl, omega arith)
