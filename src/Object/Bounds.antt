-- ===== src/Object/Bounds.antt =====
-- The recursion of `parse_object` of crates/core/src/parser.rs: its fuel, its cursor and its objects.
use pdfv.Base.{
  ℕ, zero, suc, ◌+◌, ◌≤◌, ◌<◌, Bytes, true, false, ◌≡◌, arith, ◌==◌, ltb, leb, length, ◌∷◌, [],
}
use pdfv.Name.{codes}
use pdfv.Float.{Float}
use pdfv.Limits.{ResourceLimits}
use pdfv.Error.{Result}
use pdfv.Error.Meets.{Meets, returned, raised, Meets-bind, Meets-mono, Meets-if, Meets-ensure}
use pdfv.Cursor.{Cursor, at, remaining, starts_with, skip_ws_and_comments}
use pdfv.Cursor.Moves.{Moves, Moves-trans, consume_bytes-Meets, skip_ws_and_comments-Moves}
use pdfv.Cos.{
  null, boolean, integer, real, reference, CosArray, nil, Dictionary, empty, insert, dict_len, push,
  array_len,
}
use pdfv.Cos.Laws.{IsSorted, insert-IsSorted, dict_len-insert}
use pdfv.Lexer.Moves.{
  Ahead, Moves-Ahead, Ahead-Moves, parse_name-Meets, parse_literal_string-Meets,
  parse_hex_string-Meets,
}
use pdfv.Object.{
  Object, u32_max, deeper, array_loop, dictionary_loop, parse_array, parse_dictionary, keyword,
  starts_number, parse_token, parse_object,
}
use pdfv.Object.Numbers.{IsNumber, parse_number_or_reference-Meets}
use pdfv.Object.Fits.{
  Fits, FitsArray, FitsEntries, FitsArray-push, FitsEntries-insert, array_len-push,
}

module _ (float : Float) (limits : ResourceLimits) where
  -- A parser of objects at a depth.
  abbrev pub Good : ℕ → Cursor → Object float × Cursor → Type 0
  Good depth c r = Ahead c r.1 × Fits float limits depth r.0

  module _ (depth : ℕ) (element : Cursor → Result (Object float × Cursor))
      (h : (c : Cursor)
        → Meets (λ r. (depth ≤ limits.max_object_depth) × Good depth c r) (element c)) where
    abbrev GoodArray : CosArray float.F64 → Type 0
    GoodArray values =
        (array_len values ≤ limits.max_array_len) × FitsArray float limits depth values

    array_loop-Meets :
        (fuel : ℕ) (values : CosArray float.F64) (c : Cursor)
        → length (remaining c) < fuel
        → GoodArray values
        → Meets
            (λ (r : CosArray float.F64 × Cursor). Moves c r.1 × GoodArray r.0)
            (array_loop float limits element fuel values c)
    unfolding array_loop
    array_loop-Meets zero values c enough good = absurd (omega arith)
    array_loop-Meets (suc fuel) values c enough good =
        let start = skip_ws_and_comments c in
        let blank = skip_ws_and_comments-Moves c in
        Meets-if (starts_with (codes "]") start)
          (λ _.
            Meets-bind _ (consume_bytes-Meets (codes "]") start)
              λ after moved. returned (Moves-trans blank moved.0, good))
          λ _. Meets-bind _ (h start) λ r (inside, good_element).
            Meets-ensure (leb (array_len values + 1) limits.max_array_len) _ _ λ small.
              let ahead' = Moves-Ahead blank good_element.0 in
              let size = array_len-push float limits values r.0 in
              Meets-mono
                (array_loop-Meets fuel (push values r.0) r.1 (omega (arith, ahead'.1)) (
                  ground arith,
                  FitsArray-push float limits depth values r.0 good.1 inside good_element.1,
                ))
                λ s (moved, good'). (Moves-trans ahead'.0 moved, good')

    abbrev pub GoodEntries : Dictionary float.F64 → Type 0
    GoodEntries d =
        IsSorted d × (dict_len d ≤ limits.max_dict_entries) × FitsEntries float limits depth d

    dictionary_loop-Meets :
        (fuel : ℕ) (d : Dictionary float.F64) (c : Cursor)
        → length (remaining c) < fuel
        → GoodEntries d
        → Meets
            (λ (r : Dictionary float.F64 × Cursor). Moves c r.1 × GoodEntries r.0)
            (dictionary_loop float limits element fuel d c)
    unfolding dictionary_loop
    dictionary_loop-Meets zero d c enough good = absurd (omega arith)
    dictionary_loop-Meets (suc fuel) d c enough (sorted, size, entries) =
        let start = skip_ws_and_comments c in
        let blank = skip_ws_and_comments-Moves c in
        Meets-if (starts_with (codes ">>") start)
          (λ _.
            Meets-bind _ (consume_bytes-Meets (codes ">>") start)
              λ after moved. returned (Moves-trans blank moved.0, (sorted, size, entries)))
          λ _. Meets-bind _ (parse_name-Meets limits start) λ k (ahead_key, short).
            Meets-bind _ (h k.1) λ r (inside, good_element).
              Meets-ensure (leb (dict_len d + 1) limits.max_dict_entries) _ _ λ small.
                let ahead' = Ahead-Moves (Moves-Ahead blank ahead_key) good_element.0.0 in
                let d' = insert k.0 r.0 d in
                let room : dict_len d' ≤ limits.max_dict_entries =
                  let grown = dict_len-insert k.0 r.0 d in ground arith in
                Meets-mono
                  (dictionary_loop-Meets fuel d' r.1 (omega (arith, ahead'.1)) (
                    insert-IsSorted k.0 r.0 d sorted,
                    room,
                    FitsEntries-insert float limits depth k.0 r.0 d entries short inside
                        good_element.1,
                  ))
                  λ s (moved, good'). (Moves-trans ahead'.0 moved, good')

    parse_array-Meets :
        (c : Cursor)
        → Meets
            (λ (r : CosArray float.F64 × Cursor). Ahead c r.1 × GoodArray r.0)
            (parse_array float limits element c)
    unfolding parse_array FitsArray
    parse_array-Meets c = Meets-bind _ (consume_bytes-Meets (codes "[") c) λ start (moved, size).
        Meets-mono
          (array_loop-Meets (suc (length (remaining start))) nil start (omega arith)
            (omega arith, tt))
          λ r (moved', good). (Ahead-Moves (moved, omega arith) moved', good)

    pub parse_dictionary-Meets :
        (c : Cursor)
        → Meets
            (λ (r : Dictionary float.F64 × Cursor). Ahead c r.1 × GoodEntries r.0)
            (parse_dictionary float limits element c)
    unfolding parse_dictionary FitsEntries
    parse_dictionary-Meets c =
        Meets-bind _ (consume_bytes-Meets (codes "<<") c) λ start (moved, size).
          Meets-mono
            (dictionary_loop-Meets (suc (length (remaining start))) empty start (omega arith)
              (tt, omega arith, tt))
            λ r (moved', good). (Ahead-Moves (moved, omega arith) moved', good)

  keyword-Meets :
      (depth : ℕ) (expected : Bytes) (object : Object float) (c : Cursor)
      → 0 < length expected
      → Fits float limits depth object
      → Meets (Good depth c) (keyword float limits expected object c)
  keyword-Meets depth expected object c some_bytes fits =
      Meets-bind _ (consume_bytes-Meets expected c)
        λ after (moved, size). returned ((moved, omega arith), fits)

  IsNumber-Fits : (depth : ℕ) (o : Object float) → IsNumber float o → Fits float limits depth o
  unfolding Fits
  IsNumber-Fits depth (integer value) h = h
  IsNumber-Fits depth (real value) h = h
  IsNumber-Fits depth (reference key) h = h
  IsNumber-Fits depth _ h = absurd h

  parse_token-Meets : (depth : ℕ) (c : Cursor) → Meets (Good depth c) (parse_token float limits c)
  unfolding parse_token Fits
  parse_token-Meets depth (at p []) = raised
  parse_token-Meets depth (at p (b ∷ rest)) =
      let c = at p (b ∷ rest) in
      Meets-if (b == b'/') (λ _. Meets-bind _ (parse_name-Meets limits c) λ r good. returned good)
        λ _.
          Meets-if (b == b'(')
            (λ _. Meets-bind _ (parse_literal_string-Meets limits c) λ r good. returned good)
            λ _.
              Meets-if (b == b'<')
                (λ _. Meets-bind _ (parse_hex_string-Meets limits c) λ r good. returned good)
                λ _.
                  Meets-if (starts_with (codes "true") c)
                    (λ _. keyword-Meets depth (codes "true") (boolean true) c (omega arith) tt)
                    λ _.
                      Meets-if (starts_with (codes "false") c)
                        (λ _.
                          keyword-Meets depth (codes "false") (boolean false) c (omega arith) tt)
                        λ _.
                          Meets-if (starts_with (codes "null") c)
                            (λ _. keyword-Meets depth (codes "null") null c (omega arith) tt)
                            λ _.
                              Meets-if (starts_number float b)
                                (λ _.
                                  Meets-mono (parse_number_or_reference-Meets float c)
                                    λ r (ahead, number). (ahead, IsNumber-Fits depth r.0 number))
                                λ _. raised

  -- With fuel for the levels that are left, parsing an object ends: with an error, or after a byte at
  -- least, with an object within the limits. The limit of the depth is below the largest `u32`, at
  -- which the depth stops to grow.
  pub parse_object-Meets :
      (fuel depth : ℕ) (c : Cursor)
      → limits.max_object_depth < u32_max
      → limits.max_object_depth + 2 ≤ fuel + depth
      → 0 < fuel
      → Meets
          (λ (r : Object float × Cursor).
            (depth ≤ limits.max_object_depth)
            × ((Moves c r.1 × (length (remaining r.1) < length (remaining c)))
                × Fits float limits depth r.0))
          (parse_object float limits fuel depth c)
  unfolding parse_object Fits
  parse_object-Meets zero depth c small enough some_fuel = absurd (omega arith)
  parse_object-Meets (suc fuel) depth c small enough some_fuel =
      let start = skip_ws_and_comments c in
      let blank = skip_ws_and_comments-Moves c in
      Meets-if (ltb limits.max_object_depth depth) (λ _. raised)
        λ shallow.
          let inside : depth ≤ limits.max_object_depth = ground arith in
          let same : deeper float limits depth ≡ suc depth = omega arith in
          let nested : (d : Cursor)
              → Meets (λ r. (suc depth ≤ limits.max_object_depth) × Good (suc depth) d r)
                  (parse_object float limits fuel (deeper float limits depth) d) =
            λ d.
              rw (same) (parse_object-Meets fuel (suc depth) d small (omega arith) (omega arith)) in
          let element = parse_object float limits fuel (deeper float limits depth) in
          Meets-if (starts_with (codes "<<") start)
            (λ _.
              Meets-bind _ (parse_dictionary-Meets (suc depth) element nested start)
                λ r (ahead, good). returned (inside, (Moves-Ahead blank ahead, good)))
            λ _.
              Meets-if (starts_with (codes "[") start)
                (λ _.
                  Meets-bind _ (parse_array-Meets (suc depth) element nested start)
                    λ r (ahead, good). returned (inside, (Moves-Ahead blank ahead, good)))
                λ _.
                  Meets-mono (parse_token-Meets depth start)
                    λ r (ahead, fits). (inside, (Moves-Ahead blank ahead, fits))
