-- ===== src/ObjectStream/Bounds.antt =====
-- What an object stream can hold.
use pdfv.Base.{
  ℕ, zero, suc, ◌+◌, ◌*◌, ◌/◌, ◌≤◌, ◌<◌, Bytes, String, Bool, Option-cases, inl, inr, true, false,
  not, ◌&&◌, All, List, [], ◌∷◌, ◌≡◌, refl, arith, ltb, leb, ◌==◌, length,
}
use pdfv.Float.{Float}
use pdfv.Limits.{ResourceLimits}
use pdfv.Error.{ParseError, checked_add}
use pdfv.Error.Meets.{
  Meets, returned, raised, Meets-bind, Meets-mono, Meets-ensure, Meets-ok_or, Meets-if,
}
use pdfv.Cursor.{Cursor, cursor_at, skip_required_ws}
use pdfv.Cos.{ObjectKey, Dictionary}
use pdfv.Cos.Fields.{
  to_unsigned, integer_from_dictionary, non_negative_u64_from_dictionary,
  non_negative_usize_from_dictionary,
}
use pdfv.Lexer.Moves.{parse_unsigned-Meets}
use pdfv.Object.{u32_max}
use pdfv.Object.Fits.{Fits}
use pdfv.Object.Bounds.{parse_object-Meets}
use pdfv.Body.{IndirectObject}
use pdfv.ObjectStream.{key_eq, stream_headers, stream_objects, parse_object_stream}

-- A key of a compressed object.
abbrev pub IsCompressedKey : ObjectKey → Type 0
IsCompressedKey key = (0 < key.number) × (key.number < 4294967296) × (key.generation ≡ 0)

abbrev IsHeader : ObjectKey × ℕ → Type 0
IsHeader header = IsCompressedKey header.0

stream_headers-Meets :
    (count : ℕ) (c : Cursor)
    → Meets
        (λ (headers : List (ObjectKey × ℕ)). (length headers ≡ count) × All IsHeader headers)
        (stream_headers count c)
unfolding stream_headers
stream_headers-Meets zero c = returned (refl, tt)
stream_headers-Meets (suc count) c =
    Meets-bind _ (parse_unsigned-Meets 4294967296 c) λ r (moved, small).
      Meets-ok_or r.0 _ _ λ number is_number. Meets-ok_or (skip_required_ws r.1) _ _ λ second _.
        Meets-bind _ (parse_unsigned-Meets 18446744073709551616 second) λ s _.
          Meets-ok_or s.0 _ _ λ relative _. Meets-ensure (not (number == 0)) _ _ λ nonzero.
            Meets-bind _ (stream_headers-Meets count s.1) λ rest (size, keys).
              let below = small number is_number in
              returned (omega arith, ((ground arith, below, refl), keys))

checked_add-Meets : (a b : ℕ) (e : ParseError) → Meets (λ (n : ℕ). n ≡ a + b) (checked_add a b e)
checked_add-Meets a b e =
    Meets-if (ltb (a + b) 18446744073709551616) (λ _. returned refl) λ _. raised

module _ (float : Float) (limits : ResourceLimits) (stream_key : ObjectKey) (decoded : Bytes)
    (small : limits.max_object_depth < u32_max) where
  -- An object of the stream: not the stream itself, and within the limits.
  abbrev pub IsMember : IndirectObject float.F64 → Type 0
  IsMember o =
      IsCompressedKey o.key × (key_eq o.key stream_key ≡ false) × Fits float limits 0 o.object

  not_self : (b : Bool) → not b ≡ true → b ≡ false
  not_self true h = cc
  not_self false h = refl

  stream_objects-Meets :
      (start first : ℕ) (headers : List (ObjectKey × ℕ))
      → All IsHeader headers
      → Meets
          (λ (objects : List (IndirectObject float.F64)).
            (length objects ≡ length headers) × All IsMember objects)
          (stream_objects float limits stream_key decoded start first headers)
  unfolding stream_objects
  stream_objects-Meets start first [] h = returned (refl, tt)
  stream_objects-Meets start first (header ∷ headers) h =
      Meets-bind _ (checked_add-Meets first header.1 _) λ object_pos _.
        Meets-ensure (ltb object_pos (length decoded)) _ _ λ _.
          Meets-bind _
            (parse_object-Meets float limits (limits.max_object_depth + 2) 0
              (cursor_at decoded object_pos) small (omega arith) (omega arith))
            λ r (inside, good). Meets-bind _ (checked_add-Meets start object_pos _) λ offset _.
              Meets-ensure (not (key_eq header.0 stream_key)) _ _ λ other.
                Meets-bind _ (stream_objects-Meets start first headers h.1) λ rest (size, members).
                  returned (omega arith, ((h.0, not_self _ other, good.1), members))

  non_negative-ends :
      (entries : Dictionary float.F64) (key : String)
      → Meets (λ (n : ℕ). Unit {0}) (non_negative_u64_from_dictionary entries key)
  unfolding non_negative_u64_from_dictionary
  non_negative-ends entries key = elim (Option-cases (integer_from_dictionary entries key)) [
    | inl e ↦ rw (non_negative_u64_from_dictionary, e) raised
    | inr (value, e) ↦ elim (Option-cases (to_unsigned 18446744073709551616 value)) [
      | inl k ↦ rw (non_negative_u64_from_dictionary, e, k) raised
      | inr (n, k) ↦ rw (non_negative_u64_from_dictionary, e, k) (returned tt)
    ]
  ]

  non_negative_usize-ends :
      (entries : Dictionary float.F64) (key : String)
      → Meets (λ (n : ℕ). Unit {0}) (non_negative_usize_from_dictionary entries key)
  unfolding non_negative_usize_from_dictionary
  non_negative_usize-ends entries key =
      Meets-bind _ (non_negative-ends entries key)
        λ value _. Meets-if (ltb value 18446744073709551616) (λ _. returned tt) λ _. raised

  -- Parsing an object stream ends: with an error, or with at most as many objects as the limit and a
  -- quarter of the decoded bytes allow, each with a number that is not 0 and generation 0, none under
  -- the key of the stream itself, and all within the limits. The limit of the depth is below the
  -- largest `u32`.
  pub parse_object_stream-Meets :
      (start : ℕ) (entries : Dictionary float.F64)
      → Meets
          (λ (objects : List (IndirectObject float.F64)).
            (length objects ≤ limits.max_objects)
            × (length objects * 4 ≤ length decoded)
            × All IsMember objects)
          (parse_object_stream float limits stream_key decoded start entries)
  unfolding parse_object_stream
  parse_object_stream-Meets start entries = Meets-bind _ (non_negative-ends entries "N") λ count _.
      Meets-ensure (leb count limits.max_objects) _ _ λ few.
        Meets-bind _ (non_negative_usize-ends entries "First") λ first _.
          Meets-ensure (leb first (length decoded)) _ _ λ inside.
            Meets-ensure (not (ltb 0 count && ltb (first / 4) count)) _ _ λ room.
              Meets-bind _ (stream_headers-Meets count (cursor_at decoded 0))
                λ headers (size, keys).
                  Meets-mono (stream_objects-Meets start first headers keys)
                    λ objects (same, members). (ground arith, ground arith, members)
